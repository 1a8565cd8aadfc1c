-- ===== src/Wire/Result.antt =====
-- How a call that reads or writes a buffer can end.
use four_in_a_row.Base.{ℕ, ◌≡◌, ◌≢◌, refl, Bool, true, false, List, [], length}

-- `failed` is an error code of the callee, `raised` a thrown `const char*`, and `fault` an access
-- outside the memory that the caller handed over.
pub data Result {ℓ} (A : Type ℓ) : Type ℓ where
  ok : A → Result A
  failed : Result A
  raised : Result A
  fault : Result A

-- The callers return at once with whatever a callee did not get done.
abbrev pub and_then {ℓ κ} : {A : Type ℓ} {B : Type κ} → (A → Result B) → Result A → Result B
and_then next (ok x) = next x
and_then next failed = failed
and_then next raised = raised
and_then next fault = fault

infixl 5 ◌>>=◌ ◌>>◌
abbrev pub ◌>>=◌ {κ ℓ} : {A : Type ℓ} {B : Type κ} → Result A → (A → Result B) → Result B
r >>= next = and_then next r

-- `if (test) return -1;`
abbrev pub fail_if : Bool → Result (Unit {0})
fail_if false = ok tt
fail_if true = failed

abbrev pub ◌>>◌ {ℓ} : {B : Type ℓ} → Result (Unit {0}) → Result B → Result B
test >> rest = and_then (λ _. rest) test

-- A successful chain had a successful first step.
pub >>=-eq-ok {ℓ κ} :
    {A : Type ℓ} {B : Type κ} (r : Result A) (next : A → Result B) {y : B}
    → (r >>= next) ≡ ok y
    → (x : A) × (r ≡ ok x) × (next x ≡ ok y)
>>=-eq-ok (ok x) next e = (x, refl, e)
>>=-eq-ok failed next e = cc
>>=-eq-ok raised next e = cc
>>=-eq-ok fault next e = cc

-- The bytes that a writer leaves and their number, which is 0 when it fails.
abbrev pub written : Result (List ℕ) → Result (List ℕ)
written (ok bs) = ok bs
written failed = ok []
written raised = raised
written fault = fault

pub written-ok : (r : Result (List ℕ)) (bs : List ℕ) → written r ≡ ok bs → length bs ≢ 0 → r ≡ ok bs
written-ok (ok bs) _ e ne = e
written-ok failed bs e ne = let none_left : [] ≡ bs = cc in absurd (ne (rw (← none_left) refl))
written-ok raised bs e ne = absurd (cc)
written-ok fault bs e ne = absurd (cc)
