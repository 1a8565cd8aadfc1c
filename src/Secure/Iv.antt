-- ===== src/Secure/Iv.antt =====
-- `updateIV` of src/security/secure_socket_wrapper.cpp.
use four_in_a_row.Base.{
  ℕ, ◌+◌, ◌*◌, ◌^◌, ◌≤◌, ◌<◌, ◌≡◌, ◌≢◌, refl, ap, List, [], ◌∷◌, length, arith,
}
use four_in_a_row.Base.Bits.{bit_xor_cancel}
use four_in_a_row.Secure.{le_bytes, mask, update_iv}

abbrev head_or_zero : List ℕ → ℕ
head_or_zero [] = 0
head_or_zero (x ∷ xs) = x

abbrev tail : List ℕ → List ℕ
tail [] = []
tail (x ∷ xs) = xs

mask_cancel :
    (xs bs cs : List ℕ)
    → length bs ≤ length xs
    → length bs ≡ length cs
    → mask xs bs ≡ mask xs cs
    → bs ≡ cs
mask_cancel xs [] [] h l e = refl
mask_cancel xs [] (c ∷ cs) h l e = absurd (omega arith)
mask_cancel xs (b ∷ bs) [] h l e = absurd (omega arith)
mask_cancel [] (b ∷ bs) (c ∷ cs) h l e = absurd (omega arith)
mask_cancel (x ∷ xs) (b ∷ bs) (c ∷ cs) h l e =
    let first : b ≡ c = bit_xor_cancel x b c (ap head_or_zero e) in
    rw (first, mask_cancel xs bs cs (omega arith) (omega arith) (ap tail e))

-- The number that the bytes stand for.
le_value : List ℕ → ℕ
le_value [] = 0
le_value (b ∷ bs) = b + 256 * le_value bs

le_value-le_bytes : (v : ℕ) → v < 2 ^ 64 → le_value (le_bytes 8 v) ≡ v
unfolding le_value
le_value-le_bytes v h = omega arith

update_iv_injective :
    (iv_static : List ℕ) (n k : ℕ)
    → 8 ≤ length iv_static
    → n < 2 ^ 64
    → k < 2 ^ 64
    → update_iv n iv_static ≡ update_iv k iv_static
    → n ≡ k
unfolding update_iv
update_iv_injective iv_static n k long hn hk e =
    let same = mask_cancel iv_static (le_bytes 8 n) (le_bytes 8 k) (omega arith) refl e in
    omega (arith, ap le_value same, le_value-le_bytes n hn, le_value-le_bytes k hk)

-- Under one static value, of at least eight bytes, two different counters, both below 2 ^ 64, give
-- different initial values.
pub update_iv_ne :
    (iv_static : List ℕ) (n k : ℕ)
    → 8 ≤ length iv_static
    → n < 2 ^ 64
    → k < 2 ^ 64
    → n ≢ k
    → update_iv n iv_static ≢ update_iv k iv_static
update_iv_ne iv_static n k long hn hk ne e = ne (update_iv_injective iv_static n k long hn hk e)
