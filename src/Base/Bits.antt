-- ===== src/Base/Bits.antt =====
-- Exclusive or of numbers, by their binary digits.
use Prim.Native.Nat.{ℕ, zero, suc, ◌/◌, ◌%◌, ◌<◌, bit_xor, digits, differ, bit_xor-bitwise}
use mathlib.Core.Path.{◌≡◌, refl, sym, ◌∙◌}
use native.Mathlib.Omega.{arith}

differ-lt : (x y : ℕ) → x < 2 → y < 2 → differ x y < 2
differ-lt zero y p q = q
differ-lt (suc zero) zero p q = omega arith
differ-lt (suc zero) (suc y) p q = omega arith
differ-lt (suc (suc x)) y p q = absurd (omega arith)

differ_cancel : (x y z : ℕ) → x < 2 → y < 2 → z < 2 → differ x y ≡ differ x z → y ≡ z
differ_cancel zero y z p q r e = e
differ_cancel (suc zero) zero zero p q r e = refl
differ_cancel (suc zero) zero (suc z) p q r e = absurd (omega arith)
differ_cancel (suc zero) (suc y) zero p q r e = absurd (omega arith)
differ_cancel (suc zero) (suc y) (suc z) p q r e = omega arith
differ_cancel (suc (suc x)) y z p q r e = absurd (omega arith)

abbrev xor_digits : ℕ → ℕ → ℕ → ℕ
xor_digits fuel a b = digits (λ b. b) differ fuel a b

digits_cancel : (fuel a b c : ℕ) → xor_digits fuel a b ≡ xor_digits fuel a c → b ≡ c
digits_cancel zero a b c e = e
digits_cancel (suc fuel) zero b c e = e
digits_cancel (suc fuel) (suc a) b c e =
    let x = suc a % 2 in
    let dl = differ-lt x (b % 2) (omega arith) (omega arith) in
    let dr = differ-lt x (c % 2) (omega arith) (omega arith) in
    let low =
      differ_cancel x (b % 2) (c % 2) (omega arith) (omega arith) (omega arith) (omega arith) in
    let high = digits_cancel fuel (suc a / 2) (b / 2) (c / 2) (omega arith) in omega arith

-- Two numbers that give the same with a third are the same.
pub bit_xor_cancel : (a b c : ℕ) → bit_xor a b ≡ bit_xor a c → b ≡ c
bit_xor_cancel a b c e = digits_cancel a a b c (sym (bit_xor-bitwise a b) ∙ e ∙ bit_xor-bitwise a c)
