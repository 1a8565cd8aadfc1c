-- ===== src/Base/Int.antt =====
-- Signed integers over the native numbers, for the `int` coordinates of the board.
use Prim.Native.Nat.{ℕ, suc, ◌+◌, ◌-◌, ◌*◌}
use mathlib.Core.Path.{◌≡◌}
use native.Mathlib.Omega.{arith}
use four_in_a_row.Base.{leb, if◌then◌else◌}

-- `negsuc n` is -(n + 1).
pub data ℤ : Type 0 where
  pos : ℕ → ℤ
  negsuc : ℕ → ℤ

abbrev pub pos_part : ℤ → ℕ
pos_part (pos n) = n
pos_part (negsuc n) = 0

abbrev pub neg_part : ℤ → ℕ
neg_part (pos n) = 0
neg_part (negsuc n) = suc n

-- a - b, as an integer.
abbrev pub sub_ℕ : ℕ → ℕ → ℤ
sub_ℕ a b = if leb b a then pos (a - b) else negsuc (b - a - 1)

infixl 65 ◌+ℤ◌
unfoldable pub ◌+ℤ◌ : ℤ → ℤ → ℤ
a +ℤ b = sub_ℕ (pos_part a + pos_part b) (neg_part a + neg_part b)

-- `k` times the integer `d`.
unfoldable pub times : ℕ → ℤ → ℤ
times k d = sub_ℕ (k * pos_part d) (k * neg_part d)

unfoldable pub neg : ℤ → ℤ
neg d = sub_ℕ (neg_part d) (pos_part d)

pub +ℤ_parts :
    (a b : ℤ)
    → pos_part (a +ℤ b) + neg_part a + neg_part b ≡ neg_part (a +ℤ b) + pos_part a + pos_part b
unfolding ◌+ℤ◌
+ℤ_parts a b = ground arith

pub times_parts :
    (k : ℕ) (d : ℤ) → pos_part (times k d) + k * neg_part d ≡ neg_part (times k d) + k * pos_part d
unfolding times
times_parts k d = ground arith

pub eq_of_parts : (a b : ℤ) → pos_part a + neg_part b ≡ pos_part b + neg_part a → a ≡ b
eq_of_parts a b h = ground arith

-- One more step along a line.
pub times-suc : (a d : ℤ) (k : ℕ) → a +ℤ d +ℤ times k d ≡ a +ℤ times (suc k) d
times-suc a d k = eq_of_parts _ _ (
    omega (
      arith,
      +ℤ_parts (a +ℤ d) (times k d),
      +ℤ_parts a d,
      +ℤ_parts a (times (suc k) d),
      times_parts k d,
      times_parts (suc k) d,
    ))

pub +ℤ-times_zero : (a d : ℤ) → a +ℤ times 0 d ≡ a
+ℤ-times_zero a d = eq_of_parts _ _ (omega (arith, +ℤ_parts a (times 0 d), times_parts 0 d))
