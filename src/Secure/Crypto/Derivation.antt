-- ===== src/Secure/Crypto/Derivation.antt =====
-- `get_ecdh_key`, `dhke` and `hkdf_one_info` of src/security/crypto.cpp.
use four_in_a_row.Base.{ℕ, Bool, Option, List}
use four_in_a_row.Base.Int.{ℤ}
use four_in_a_row.Wire.Result.{Result, ok, ◌>>=◌, ◌>>◌}
use four_in_a_row.Secure.Crypto.{nonzero, positive, require, not_null}

pub data Algorithm : Type 0 where
  evp_pkey_ec evp_pkey_hkdf : Algorithm

-- The calls of OpenSSL on a context of a public key algorithm, and `malloc`. `Pkey` is what an
-- `EVP_PKEY` holds. A generation leaves NULL or an object; a derivation gives the bytes that it has
-- written, and `derive_len`, the one into NULL, their number.
pub record Pkeys (Ctx Pkey : Type 0) : Type 0 where
  pub ctx_new_id : Algorithm → Option Ctx
  pub ctx_new : Pkey → Option Ctx
  pub paramgen_init : Ctx → ℤ × Ctx
  pub set_ec_paramgen_curve_nid : Ctx → ℤ × Ctx
  pub paramgen : Ctx → ℤ × Option Pkey
  pub keygen_init : Ctx → ℤ × Ctx
  pub keygen : Ctx → ℤ × Pkey
  pub derive_init : Ctx → ℤ × Ctx
  pub derive_set_peer : Ctx → Pkey → ℤ × Ctx
  pub derive_len : Ctx → ℕ
  pub derive : Ctx → ℕ → ℤ × List ℕ
  pub set_hkdf_md : Ctx → ℤ × Ctx
  pub set1_hkdf_key : Ctx → List ℕ → ℤ × Ctx
  pub add1_hkdf_info : Ctx → List ℕ → ℤ × Ctx
  pub malloc : ℕ → Bool

module _ {Ctx Pkey : Type 0} (evp : Pkeys Ctx Pkey) where
  -- The key and the result. The location of the key, which the code compares with NULL as well, is
  -- the address of a field of the callers.
  unfoldable pub get_ecdh_key : Result (Pkey × ℤ)
  get_ecdh_key = do
    ctx_params ← not_null (evp.ctx_new_id evp_pkey_ec)
    let init = evp.paramgen_init ctx_params
    require (nonzero init.0)
    let curve = evp.set_ec_paramgen_curve_nid init.1
    require (nonzero curve.0)
    let generated = evp.paramgen curve.1
    require (nonzero generated.0)
    dh_params ← not_null generated.1
    ctx ← not_null (evp.ctx_new dh_params)
    let started = evp.keygen_init ctx
    require (nonzero started.0)
    let made = evp.keygen started.1
    require (nonzero made.0)
    ok (made.1, made.0)

  -- The shared key; the result of the call that asks for its length is not looked at.
  unfoldable pub dhke : Pkey → Pkey → Result (List ℕ)
  dhke my_key peer_pubkey = do
    ctx ← not_null (evp.ctx_new my_key)
    let init = evp.derive_init ctx
    require (positive init.0)
    let peer = evp.derive_set_peer init.1 peer_pubkey
    require (positive peer.0)
    let shared_key_len = evp.derive_len peer.1
    require (evp.malloc shared_key_len)
    let derived = evp.derive peer.1 shared_key_len
    require (positive derived.0)
    ok derived.1

  unfoldable pub hkdf_one_info : List ℕ → List ℕ → ℕ → Result (List ℕ)
  hkdf_one_info key info outlen = do
    ctx ← not_null (evp.ctx_new_id evp_pkey_hkdf)
    let init = evp.derive_init ctx
    require (positive init.0)
    let digest = evp.set_hkdf_md init.1
    require (positive digest.0)
    let keyed = evp.set1_hkdf_key digest.1 key
    require (positive keyed.0)
    let informed = evp.add1_hkdf_info keyed.1 info
    require (positive informed.0)
    let derived = evp.derive informed.1 outlen
    require (positive derived.0)
    ok derived.1
