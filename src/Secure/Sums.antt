-- ===== src/Secure/Sums.antt =====
-- A client and a server for the tests of src/security/secure_socket_wrapper.cpp, with small functions
-- in place of the cryptographic ones: a number is a key and its certificate, and a tag or a signature
-- is a sum.
use four_in_a_row.Base.{
  ℕ, ◌+◌, ◌≡◌, refl, inl, inr, Bool, true, false, ◌&&◌, Option, none, some, List, [], ◌∷◌, ◌==◌,
  if◌then◌else◌, length, replicate, Bool-cases, arith,
}
use four_in_a_row.Wire.Result.{ok}
use four_in_a_row.Wire.Fields.{SslLaws}
use four_in_a_row.Secure.{Suite, Channel, init, set_other_cert}
use four_in_a_row.Secure.Transport.{Gcm}
use four_in_a_row.Secure.Signing.{Signer, Encodes}

abbrev first_of : List ℕ → Option ℕ
first_of [] = none
first_of (b ∷ bs) = some b

abbrev pub total : List ℕ → ℕ
total [] = 0
total (b ∷ bs) = b + total bs

abbrev pub same_bytes : List ℕ → List ℕ → Bool
same_bytes [] [] = true
same_bytes [] (y ∷ ys) = false
same_bytes (x ∷ xs) [] = false
same_bytes (x ∷ xs) (y ∷ ys) = (x == y) && same_bytes xs ys

pub same_bytes-true : (xs ys : List ℕ) → same_bytes xs ys ≡ true → xs ≡ ys
same_bytes-true [] [] e = refl
same_bytes-true [] (y ∷ ys) e = absurd (cc)
same_bytes-true (x ∷ xs) [] e = absurd (cc)
same_bytes-true (x ∷ xs) (y ∷ ys) e =
    let first : x ≡ y = ground arith in
    let others : same_bytes xs ys ≡ true = ground arith in
    rw (first, same_bytes-true xs ys others) refl

pub same_bytes_refl : (xs : List ℕ) → same_bytes xs xs ≡ true
same_bytes_refl [] = refl
same_bytes_refl (x ∷ xs) = let others = same_bytes_refl xs in ground arith

abbrev pub tag_of : List ℕ → List ℕ → List ℕ
tag_of key iv = replicate 16 (total key + total iv)

abbrev pub sums : Suite ℕ ℕ ℕ
sums = record {
  ssl = record {
    i2d_x509 = λ c. some (c ∷ []);
    d2i_x509 = first_of;
    i2d_pubkey = λ k. some (k ∷ []);
    d2i_pubkey = first_of;
  };
  encrypt = λ key iv aad pt. some (pt, tag_of key iv);
  decrypt = λ key iv aad ct tag. if same_bytes tag (tag_of key iv) then some ct else none;
  public = λ k. k;
  derive = λ mine theirs. ok ((mine + theirs) ∷ []);
  hkdf_one_info = λ secret info n. ok (replicate n (total secret + total info));
  sign = λ key msg. ok ((key + total msg) ∷ []);
  verify = λ cert msg ds. same_bytes ds ((cert + total msg) ∷ []);
  trusted = λ cert. true;
  username_of = λ cert. cert ∷ [];
}

pub sums-SslLaws : SslLaws (sums.ssl)
sums-SslLaws = record { x509_back = λ c bs more e. cc; pubkey_back = λ k bs more e. cc }

parts_same :
    {pt ct t tag : List ℕ}
    → ◌≡◌ {A = Option (List ℕ × List ℕ)} (some (pt, t)) (some (ct, tag))
    → (pt ≡ ct) × (t ≡ tag)
parts_same e = (cc, cc)

tag_back :
    (pt ct t tag : List ℕ)
    → (pt ≡ ct) × (t ≡ tag)
    → (if same_bytes tag t then some ct else none) ≡ some pt
tag_back pt ct t tag (same, same_tag) = rw (same, same_tag, same_bytes_refl tag) refl

tag_only :
    (pt ct t tag : List ℕ)
    → (if same_bytes tag t then some ct else none) ≡ some pt
    → ◌≡◌ {A = Option (List ℕ × List ℕ)} (some (pt, t)) (some (ct, tag))
tag_only pt ct t tag e = elim (Bool-cases (same_bytes tag t)) [
  | inl good ↦ let f = (rw good at e) in let same_tag = same_bytes-true tag t good in cc
  | inr bad ↦ let f = (rw bad at e) in absurd (cc)
]

same_sizes :
    (pt ct t tag : List ℕ)
    → (pt ≡ ct) × (t ≡ tag)
    → length t ≡ 16
    → (length ct ≡ length pt) × (length tag ≡ 16)
same_sizes pt ct t tag (same, same_tag) e = rw (same, ← same_tag) (refl, e)

pub sums-Gcm : Gcm sums
sums-Gcm = record {
  back = λ {key} {iv} {aad} {pt} {ct} {tag} e. tag_back pt ct (tag_of key iv) tag (parts_same e);
  only = λ {key} {iv} {aad} {pt} {ct} {tag} e. tag_only pt ct (tag_of key iv) tag e;
  size = λ {key} {iv} {aad} {pt} {ct} {tag} e.
      same_sizes pt ct (tag_of key iv) tag (parts_same e) refl;
}

abbrev pub a_client : Channel ℕ ℕ ℕ
unfolding init set_other_cert
a_client = (set_other_cert sums (init sums 98 98) 99).0

abbrev pub a_server : Channel ℕ ℕ ℕ
unfolding init set_other_cert
a_server = (set_other_cert sums (init sums 99 99) 98).0

pub key-Signer : (n : ℕ) → Signer sums n n
key-Signer n = record {
  ds = λ msg. (n + total msg) ∷ [];
  signs = λ msg. refl;
  some_ds = λ msg e. cc;
  verifies = λ msg. same_bytes_refl ((n + total msg) ∷ []);
}

pub key-Encodes : (n : ℕ) → Encodes sums n
key-Encodes n = record { der = n ∷ []; encoded = refl; filled = omega arith; fits = omega arith }
