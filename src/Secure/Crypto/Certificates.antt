-- ===== src/Secure/Crypto/Certificates.antt =====
-- The signatures, the certificates and the message authentication codes of src/security/crypto.cpp.
use four_in_a_row.Base.{ℕ, Bool, not, Option, none, some, List, if◌then◌else◌, take}
use four_in_a_row.Base.Int.{ℤ}
use four_in_a_row.Wire.Result.{Result, ok, failed, ◌>>=◌, ◌>>◌}
use four_in_a_row.Secure.Crypto.{is_one, nonzero, require, not_null}

-- The calls of OpenSSL on a digest context, and `malloc`.
pub record Digests (Ctx Pkey : Type 0) : Type 0 where
  pub ctx_new : Option Ctx
  pub pkey_size : Pkey → ℕ
  pub malloc : ℕ → Bool
  pub sign_init : Ctx → ℤ × Ctx
  pub sign_update : Ctx → List ℕ → ℤ × Ctx
  pub sign_final : Ctx → Pkey → ℤ × List ℕ
  pub verify_init : Ctx → ℤ × Ctx
  pub verify_update : Ctx → List ℕ → ℤ × Ctx
  pub verify_final : Ctx → List ℕ → Pkey → ℤ

module _ {Ctx Pkey : Type 0} (evp : Digests Ctx Pkey) where
  -- `failed` is the result -1.
  unfoldable pub dsa_sign : List ℕ → Pkey → Result (List ℕ)
  dsa_sign msg prvkey = do
    ctx ← not_null evp.ctx_new
    if not (evp.malloc (evp.pkey_size prvkey)) then failed else (do
      let init = evp.sign_init ctx
      require (is_one init.0)
      let fed = evp.sign_update init.1 msg
      require (is_one fed.0)
      let made = evp.sign_final fed.1 prvkey
      require (is_one made.0)
      ok made.1)

  unfoldable pub dsa_verify : List ℕ → List ℕ → Pkey → Result Bool
  dsa_verify msg signature pkey = do
    ctx ← not_null evp.ctx_new
    let init = evp.verify_init ctx
    require (is_one init.0)
    let fed = evp.verify_update init.1 msg
    require (is_one fed.0)
    ok (is_one (evp.verify_final fed.1 signature pkey))

-- The calls on a store of certificates, and what verifies one of them.
pub record Stores (Cert Crl Store Ctx : Type 0) : Type 0 where
  pub store_new : Option Store
  pub add_cert : Store → Cert → ℤ × Store
  pub add_crl : Store → Crl → ℤ × Store
  pub set_crl_check : Store → ℤ × Store
  pub ctx_new : Option Ctx
  pub ctx_init : Ctx → Store → Cert → ℤ × Ctx
  pub verify_cert : Ctx → ℤ

module _ {Cert Crl Store Ctx : Type 0} (x509 : Stores Cert Crl Store Ctx) where
  unfoldable pub build_store : Cert → Crl → Result Store
  build_store cacert crl = do
    store ← not_null x509.store_new
    let trusting = x509.add_cert store cacert
    require (is_one trusting.0)
    let revoking = x509.add_crl trusting.1 crl
    require (is_one revoking.0)
    let checking = x509.set_crl_check revoking.1
    require (is_one checking.0)
    ok checking.1

  -- 0 and an error are both a refusal.
  unfoldable pub verify_peer_cert : Store → Cert → Result Bool
  verify_peer_cert store cert = do
    verify_ctx ← not_null x509.ctx_new
    let init = x509.ctx_init verify_ctx store cert
    require (is_one init.0)
    ok (is_one (x509.verify_cert init.1))

-- `fopen`, and what `PEM_read` makes of the file: a certificate, a key under a password, or a list
-- of revoked certificates.
pub record Files (File Cert Priv Crl : Type 0) : Type 0 where
  pub fopen : List ℕ → Option File
  pub read_x509 : File → Option Cert
  pub read_private_key : File → Option (List ℕ) → Option Priv
  pub read_x509_crl : File → Option Crl

-- NULL for a file that cannot be opened.
abbrev pub read_with : {File A : Type 0} → (File → Option A) → Option File → Option A
read_with read none = none
read_with read (some file) = read file

module _ {File Cert Priv Crl : Type 0} (pem : Files File Cert Priv Crl) where
  unfoldable pub load_cert_file : List ℕ → Option Cert
  load_cert_file file_name = read_with pem.read_x509 (pem.fopen file_name)

  unfoldable pub load_key_file : List ℕ → Option (List ℕ) → Option Priv
  load_key_file file_name password =
      read_with (λ file. pem.read_private_key file password) (pem.fopen file_name)

  unfoldable pub load_crl_file : List ℕ → Option Crl
  load_crl_file file_name = read_with pem.read_x509_crl (pem.fopen file_name)

-- The size of a pointer.
abbrev pub sizeof_pointer : ℕ
sizeof_pointer = 8

-- `hmac` hashes `sizeof(msg)` bytes, of the pointer, and not `msg_len`. The keyed hash is given.
unfoldable pub hmac : (List ℕ → List ℕ → List ℕ) → List ℕ → List ℕ → List ℕ
hmac hmac_sha256 msg key = hmac_sha256 key (take sizeof_pointer msg)

-- With what `CRYPTO_memcmp` makes of the first bytes of both.
unfoldable pub compare_hmac : (List ℕ → List ℕ → ℕ → ℤ) → List ℕ → List ℕ → ℕ → Bool
compare_hmac crypto_memcmp hmac_expected hmac_rcv len =
    not (nonzero (crypto_memcmp hmac_expected hmac_rcv len))
