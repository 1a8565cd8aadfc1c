-- ===== src/Secure/Crypto.antt =====
-- src/security/crypto.cpp: the calls of OpenSSL that the functions make, with the tests of what the
-- calls return. OpenSSL is a parameter: a call takes an object and gives its return code and the
-- object as it is afterwards.
pub mod Aes
pub mod Derivation
pub mod Certificates
pub mod Sealing
mod Tests
use four_in_a_row.Base.{ℕ, Bool, true, false, not, Option, none, some, ◌==◌}
use four_in_a_row.Base.Int.{ℤ, pos, negsuc}
use four_in_a_row.Wire.Result.{Result, ok, raised}

-- The tests `1 == ret`, `ret != 0` and `ret > 0`.
abbrev pub is_one : ℤ → Bool
is_one (pos n) = n == 1
is_one (negsuc n) = false

abbrev pub nonzero : ℤ → Bool
nonzero (pos n) = not (n == 0)
nonzero (negsuc n) = true

abbrev pub positive : ℤ → Bool
positive (pos n) = not (n == 0)
positive (negsuc n) = false

-- `handleErrors` throws unless the test holds.
abbrev pub require : Bool → Result (Unit {0})
require true = ok tt
require false = raised

-- A NULL is an error.
abbrev pub not_null : {A : Type 0} → Option A → Result A
not_null none = raised
not_null (some a) = ok a
