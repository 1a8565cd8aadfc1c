-- ===== src/Secure/Crypto/Aes.antt =====
-- `aes_gcm_encrypt` and `aes_gcm_decrypt` of src/security/crypto.cpp.
use four_in_a_row.Base.{ℕ, Option, none, some, List, ◌++◌, if◌then◌else◌}
use four_in_a_row.Base.Int.{ℤ}
use four_in_a_row.Wire.Result.{Result, ok, ◌>>=◌, ◌>>◌}
use four_in_a_row.Secure.Crypto.{is_one, nonzero, positive, require, not_null}

-- Where `EVP_EncryptUpdate` and `EVP_DecryptUpdate` put their output: NULL stands for additional
-- data.
pub data Out : Type 0 where
  null buffer : Out

abbrev pub gcm_tag_len : ℕ
gcm_tag_len = 16

-- The calls of OpenSSL on a cipher context, with AES in GCM as the cipher. An update gives the bytes
-- that it has written, `len` of them.
pub record Cipher (Ctx : Type 0) : Type 0 where
  pub ctx_new : Option Ctx
  pub encrypt_init : Ctx → List ℕ → List ℕ → ℤ × Ctx
  pub encrypt_update : Ctx → Out → List ℕ → ℤ × Ctx × List ℕ
  pub encrypt_final : Ctx → ℤ × Ctx × List ℕ
  pub get_tag : Ctx → ℕ → ℤ × List ℕ
  pub decrypt_init : Ctx → List ℕ → List ℕ → ℤ × Ctx
  pub decrypt_update : Ctx → Out → List ℕ → ℤ × Ctx × List ℕ
  pub set_tag : Ctx → ℕ → List ℕ → ℤ × Ctx
  pub decrypt_final : Ctx → ℤ × Ctx × List ℕ

module _ {Ctx : Type 0} (evp : Cipher Ctx) where
  -- The cipher text and the tag.
  unfoldable pub aes_gcm_encrypt : List ℕ → List ℕ → List ℕ → List ℕ → Result (List ℕ × List ℕ)
  aes_gcm_encrypt plaintext aad key iv = do
    ctx ← not_null evp.ctx_new
    let init = evp.encrypt_init ctx key iv
    require (is_one init.0)
    let fed = evp.encrypt_update init.1 null aad
    require (is_one fed.0)
    let text = evp.encrypt_update fed.1 buffer plaintext
    require (is_one text.0)
    let rest = evp.encrypt_final text.1
    require (is_one rest.0)
    let tag = evp.get_tag rest.1 gcm_tag_len
    require (is_one tag.0)
    ok (text.2 ++ rest.2, tag.1)

  -- `none` is the result -1: the plain text is not to be trusted.
  unfoldable pub aes_gcm_decrypt :
      List ℕ → List ℕ → List ℕ → List ℕ → List ℕ → Result (Option (List ℕ))
  aes_gcm_decrypt ciphertext aad key iv tag = do
    ctx ← not_null evp.ctx_new
    let init = evp.decrypt_init ctx key iv
    require (nonzero init.0)
    let fed = evp.decrypt_update init.1 null aad
    require (nonzero fed.0)
    let text = evp.decrypt_update fed.1 buffer ciphertext
    require (nonzero text.0)
    let expecting = evp.set_tag text.1 gcm_tag_len tag
    require (nonzero expecting.0)
    let rest = evp.decrypt_final expecting.1
    ok (if positive rest.0 then some (text.2 ++ rest.2) else none)
