-- ===== src/Secure/Crypto/Sealing.antt =====
-- The functions of src/security/crypto.cpp in place of those that the secure channel was proved
-- with: AES in GCM as NIST SP 800-38D describes it, from the calls of OpenSSL one after the other.
use four_in_a_row.Base.{
  ℕ, ◌≡◌, refl, sym, ap, ◌∙◌, inl, inr, true, Option, none, some, List, [], append-nil, length,
  Bool-cases,
}
use four_in_a_row.Base.Int.{pos}
use four_in_a_row.Wire.Result.{Result, ok, failed, raised, fault}
use four_in_a_row.Secure.{Suite}
use four_in_a_row.Secure.Transport.{Gcm}
use four_in_a_row.Secure.Crypto.{positive}
use four_in_a_row.Secure.Crypto.Aes.{
  Cipher, null, buffer, aes_gcm_encrypt, aes_gcm_decrypt, gcm_tag_len,
}

-- The authenticated encryption: of a text under a key, an initial value and additional data; the
-- key stream turns the text into the cipher text and back, and the tag is made of the cipher text.
pub record Aead : Type 0 where
  pub cipher_text : List ℕ → List ℕ → List ℕ → List ℕ
  pub plain_text : List ℕ → List ℕ → List ℕ → List ℕ
  pub tag : List ℕ → List ℕ → List ℕ → List ℕ → List ℕ
  pub there_and_back : (key iv text : List ℕ) → plain_text key iv (cipher_text key iv text) ≡ text
  pub back_and_there : (key iv text : List ℕ) → cipher_text key iv (plain_text key iv text) ≡ text
  pub same_length : (key iv text : List ℕ) → length (cipher_text key iv text) ≡ length text
  pub tag_length : (key iv aad text : List ℕ) → length (tag key iv aad text) ≡ gcm_tag_len

-- What OpenSSL documents of the calls when there is memory: `Encrypting` and `Decrypting` say what
-- a context has been given so far. Each call returns 1 but for the last one of a decryption, whose
-- result is positive exactly if the tag is right. An update gives as many bytes as it was given,
-- and the final call none.
pub record Documented {Ctx : Type 0} (evp : Cipher Ctx) (gcm : Aead) : Type 1 where
  pub Encrypting : Ctx → List ℕ → List ℕ → List ℕ → List ℕ → Type 0
  pub Decrypting : Ctx → List ℕ → List ℕ → List ℕ → List ℕ → Type 0
  pub Expecting : Ctx → List ℕ → List ℕ → List ℕ → List ℕ → List ℕ → Type 0
  pub new_ctx : (ctx : Ctx) × (evp.ctx_new ≡ some ctx)
  pub encrypt_init :
      (ctx : Ctx) (key iv : List ℕ)
      → let r = evp.encrypt_init ctx key iv in (r.0 ≡ pos 1) × Encrypting r.1 key iv [] []
  pub encrypt_aad :
      {ctx : Ctx} {key iv : List ℕ} (aad : List ℕ)
      → Encrypting ctx key iv [] []
      → let r = evp.encrypt_update ctx null aad in (r.0 ≡ pos 1) × Encrypting r.1 key iv aad []
  pub encrypt_text :
      {ctx : Ctx} {key iv aad : List ℕ} (text : List ℕ)
      → Encrypting ctx key iv aad []
      → let r = evp.encrypt_update ctx buffer text in
        (r.0 ≡ pos 1) × Encrypting r.1 key iv aad text × (r.2 ≡ gcm.cipher_text key iv text)
  pub encrypt_final :
      {ctx : Ctx} {key iv aad text : List ℕ}
      → Encrypting ctx key iv aad text
      → let r = evp.encrypt_final ctx in (r.0 ≡ pos 1) × Encrypting r.1 key iv aad text × (r.2 ≡ [])
  pub get_tag :
      {ctx : Ctx} {key iv aad text : List ℕ}
      → Encrypting ctx key iv aad text
      → let r = evp.get_tag ctx gcm_tag_len in
        (r.0 ≡ pos 1) × (r.1 ≡ gcm.tag key iv aad (gcm.cipher_text key iv text))
  pub decrypt_init :
      (ctx : Ctx) (key iv : List ℕ)
      → let r = evp.decrypt_init ctx key iv in (r.0 ≡ pos 1) × Decrypting r.1 key iv [] []
  pub decrypt_aad :
      {ctx : Ctx} {key iv : List ℕ} (aad : List ℕ)
      → Decrypting ctx key iv [] []
      → let r = evp.decrypt_update ctx null aad in (r.0 ≡ pos 1) × Decrypting r.1 key iv aad []
  pub decrypt_text :
      {ctx : Ctx} {key iv aad : List ℕ} (text : List ℕ)
      → Decrypting ctx key iv aad []
      → let r = evp.decrypt_update ctx buffer text in
        (r.0 ≡ pos 1) × Decrypting r.1 key iv aad text × (r.2 ≡ gcm.plain_text key iv text)
  pub set_tag :
      {ctx : Ctx} {key iv aad text : List ℕ} (tag : List ℕ)
      → Decrypting ctx key iv aad text
      → let r = evp.set_tag ctx gcm_tag_len tag in (r.0 ≡ pos 1) × Expecting r.1 key iv aad text tag
  pub right_tag :
      {ctx : Ctx} {key iv aad text tag : List ℕ}
      → Expecting ctx key iv aad text tag
      → tag ≡ gcm.tag key iv aad text
      → let r = evp.decrypt_final ctx in (positive r.0 ≡ true) × (r.2 ≡ [])
  pub only_right_tag :
      {ctx : Ctx} {key iv aad text tag : List ℕ}
      → Expecting ctx key iv aad text tag
      → positive (evp.decrypt_final ctx).0 ≡ true
      → tag ≡ gcm.tag key iv aad text

-- The callers catch what is thrown, and take it for an error.
abbrev pub caught : {A : Type 0} → Result A → Option A
caught (ok a) = some a
caught failed = none
caught raised = none
caught fault = none

abbrev pub joined : {A : Type 0} → Option (Option A) → Option A
joined none = none
joined (some a) = a

-- The functions of a channel, with these two of `crypto.cpp` in place.
unfoldable pub with_aes :
    {Cert Key Priv Ctx : Type 0} → Cipher Ctx → Suite Cert Key Priv → Suite Cert Key Priv
with_aes evp suite = record suite {
  encrypt = λ key iv aad pt. caught (aes_gcm_encrypt evp pt aad key iv);
  decrypt = λ key iv aad ct tag. joined (caught (aes_gcm_decrypt evp ct aad key iv tag));
}

module _ {Ctx : Type 0} (evp : Cipher Ctx) (gcm : Aead) (doc : Documented evp gcm) where
  encrypts :
      (pt aad key iv : List ℕ)
      → aes_gcm_encrypt evp pt aad key iv
        ≡ ok (gcm.cipher_text key iv pt, gcm.tag key iv aad (gcm.cipher_text key iv pt))
  unfolding aes_gcm_encrypt
  encrypts pt aad key iv =
      let (ctx, new) = doc.new_ctx in
      let a = doc.encrypt_init ctx key iv in
      let b = doc.encrypt_aad aad a.1 in
      let c = doc.encrypt_text pt b.1 in
      let d = doc.encrypt_final c.1 in
      let e = doc.get_tag d.1 in rw (new, a.0, b.0, c.0, d.0, e.0, c.2, d.2, e.1, append-nil) refl

  -- The decryption of a text whose tag is right, and what a decryption without an error says.
  decrypts :
      (ct aad key iv tag : List ℕ)
      → tag ≡ gcm.tag key iv aad ct
      → aes_gcm_decrypt evp ct aad key iv tag ≡ ok (some (gcm.plain_text key iv ct))
  unfolding aes_gcm_decrypt
  decrypts ct aad key iv tag right =
      let (ctx, new) = doc.new_ctx in
      let a = doc.decrypt_init ctx key iv in
      let b = doc.decrypt_aad aad a.1 in
      let c = doc.decrypt_text ct b.1 in
      let d = doc.set_tag tag c.1 in
      let e = doc.right_tag d.1 right in
      rw (new, a.0, b.0, c.0, d.0, e.0, c.2, e.1, append-nil) refl

  decrypts_only :
      (pt ct aad key iv tag : List ℕ)
      → aes_gcm_decrypt evp ct aad key iv tag ≡ ok (some pt)
      → tag ≡ gcm.tag key iv aad ct
  unfolding aes_gcm_decrypt
  decrypts_only pt ct aad key iv tag done =
      let (ctx, new) = doc.new_ctx in
      let a = doc.decrypt_init ctx key iv in
      let b = doc.decrypt_aad aad a.1 in
      let c = doc.decrypt_text ct b.1 in
      let d = doc.set_tag tag c.1 in
      let last = (rw (new, a.0, b.0, c.0, d.0) at done) in
      elim (Bool-cases (positive (evp.decrypt_final (evp.set_tag _ gcm_tag_len tag).1).0)) [
        | inl good ↦ doc.only_right_tag d.1 good
        | inr bad ↦ let f = (rw bad at last) in absurd (cc)
      ]

  joined-some :
      {A : Type 0} (r : Result (Option A)) (x : A) → joined (caught r) ≡ some x → r ≡ ok (some x)
  joined-some (ok none) x e = absurd (cc)
  joined-some (ok (some y)) x e = cc
  joined-some failed x e = absurd (cc)
  joined-some raised x e = absurd (cc)
  joined-some fault x e = absurd (cc)

  ok-injective :
      {a b : List ℕ} → ◌≡◌ {A = Result (Option (List ℕ))} (ok (some a)) (ok (some b)) → a ≡ b
  ok-injective e = cc

  caught_pair :
      {a b c d : List ℕ}
      → ◌≡◌ {A = Option (List ℕ × List ℕ)} (some (a, b)) (some (c, d))
      → (a ≡ c) × (b ≡ d)
  caught_pair e = (cc, cc)

  module _ {Cert Key Priv : Type 0} (suite : Suite Cert Key Priv) where
    encrypted :
        (pt aad key iv ct tag : List ℕ)
        → (with_aes evp suite).encrypt key iv aad pt ≡ some (ct, tag)
        → (gcm.cipher_text key iv pt ≡ ct) × (gcm.tag key iv aad (gcm.cipher_text key iv pt) ≡ tag)
    unfolding with_aes
    encrypted pt aad key iv ct tag e = caught_pair (sym (ap caught (encrypts pt aad key iv)) ∙ e)

    decrypted :
        (key iv aad pt ct tag : List ℕ)
        → (with_aes evp suite).decrypt key iv aad ct tag ≡ some pt
        → (tag ≡ gcm.tag key iv aad ct) × (gcm.plain_text key iv ct ≡ pt)
    unfolding with_aes
    decrypted key iv aad pt ct tag e =
        let done = joined-some (aes_gcm_decrypt evp ct aad key iv tag) pt e in
        let right = decrypts_only pt ct aad key iv tag done in
        (right, ok-injective (sym (decrypts ct aad key iv tag right) ∙ done))

    -- With OpenSSL as it is documented, and enough memory, `aes_gcm_encrypt` and `aes_gcm_decrypt`
    -- are what the theorems on the secure channel ask of them, whatever the other functions are: a
    -- text that was encrypted is decrypted under the same key, initial value and additional data,
    -- only such a text is, and it keeps its length, with a tag of 16 bytes.
    pub with_aes-Gcm : Gcm (with_aes evp suite)
    unfolding with_aes
    with_aes-Gcm = record {
      back = λ {key} {iv} {aad} {pt} {ct} {tag} e.
          let (same, made) = encrypted pt aad key iv ct tag e in
          let right = sym made ∙ ap (gcm.tag key iv aad) same in
          ap (λ r. joined (caught r)) (decrypts ct aad key iv tag right)
          ∙ ap some (ap (gcm.plain_text key iv) (sym same) ∙ gcm.there_and_back key iv pt);
      only = λ {key} {iv} {aad} {pt} {ct} {tag} e.
          let (right, text) = decrypted key iv aad pt ct tag e in
          let same = ap (gcm.cipher_text key iv) (sym text) ∙ gcm.back_and_there key iv ct in
          ap caught (encrypts pt aad key iv) ∙ rw (same, ← right) refl;
      size = λ {key} {iv} {aad} {pt} {ct} {tag} e.
          let (same, made) = encrypted pt aad key iv ct tag e in
          (
            rw (← same) (gcm.same_length key iv pt),
            rw (← made) (gcm.tag_length key iv aad (gcm.cipher_text key iv pt)),
          );
    }
