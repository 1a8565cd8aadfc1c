-- ===== src/Secure/Crypto/Tests.antt =====
-- The functions of src/security/crypto.cpp with a small cipher in place of AES, whose tag is a sum.
use four_in_a_row.Base.{
  ℕ, ◌+◌, ◌≡◌, refl, ap, ◌∙◌, inl, inr, true, none, some, List, [], ◌∷◌, ◌++◌, if◌then◌else◌,
  length-replicate, replicate, Bool-cases,
}
use four_in_a_row.Base.Int.{ℤ, pos}
use four_in_a_row.Wire.Result.{ok}
use four_in_a_row.Secure.Transport.{Gcm}
use four_in_a_row.Secure.Sums.{sums, total, same_bytes, same_bytes-true, same_bytes_refl}
use four_in_a_row.Secure.Crypto.{positive}
use four_in_a_row.Secure.Crypto.Aes.{Cipher, Out, null, buffer, aes_gcm_decrypt}
use four_in_a_row.Secure.Crypto.Certificates.{hmac}
use four_in_a_row.Secure.Crypto.Sealing.{Aead, Documented, with_aes, with_aes-Gcm}

-- What a context has been given.
record Ctx : Type 0 where
  key : List ℕ
  iv : List ℕ
  aad : List ℕ
  text : List ℕ
  tag : List ℕ

abbrev given : List ℕ → List ℕ → List ℕ → List ℕ → List ℕ → Ctx
given key iv aad text tag = record { key = key; iv = iv; aad = aad; text = text; tag = tag }

abbrev sum_tag : List ℕ → List ℕ → List ℕ → List ℕ → List ℕ
sum_tag key iv aad text = replicate 16 (total key + total iv + total aad + total text)

abbrev feed : Ctx → Out → List ℕ → ℤ × Ctx × List ℕ
feed ctx null bs = (pos 1, record ctx { aad = ctx.aad ++ bs }, [])
feed ctx buffer bs = (pos 1, record ctx { text = ctx.text ++ bs }, bs)

abbrev sum_of : Ctx → List ℕ
sum_of ctx = sum_tag ctx.key ctx.iv ctx.aad ctx.text

abbrev small : Cipher Ctx
small = record {
  ctx_new = some (given [] [] [] [] []);
  encrypt_init = λ ctx key iv. (pos 1, given key iv [] [] []);
  encrypt_update = feed;
  encrypt_final = λ ctx. (pos 1, ctx, []);
  get_tag = λ ctx n. (pos 1, sum_of ctx);
  decrypt_init = λ ctx key iv. (pos 1, given key iv [] [] []);
  decrypt_update = feed;
  set_tag = λ ctx n tag. (pos 1, record ctx { tag = tag });
  decrypt_final = λ ctx. (if same_bytes ctx.tag (sum_of ctx) then pos 1 else pos 0, ctx, []);
}

abbrev small_aead : Aead
small_aead = record {
  cipher_text = λ key iv text. text;
  plain_text = λ key iv text. text;
  tag = sum_tag;
  there_and_back = λ key iv text. refl;
  back_and_there = λ key iv text. refl;
  same_length = λ key iv text. refl;
  tag_length =
      λ key iv aad text. length-replicate 16 (total key + total iv + total aad + total text);
}

-- The final call on a right tag, and what a positive result says.
accepts : (ctx : Ctx) → ctx.tag ≡ sum_of ctx → positive (small.decrypt_final ctx).0 ≡ true
accepts ctx e = rw (e, same_bytes_refl (sum_of ctx)) refl

accepts_only : (ctx : Ctx) → positive (small.decrypt_final ctx).0 ≡ true → ctx.tag ≡ sum_of ctx
accepts_only ctx good = elim (Bool-cases (same_bytes ctx.tag (sum_of ctx))) [
  | inl same ↦ same_bytes-true ctx.tag (sum_of ctx) same
  | inr other ↦ let f = (rw other at good) in absurd (cc)
]

module _ {ctx : Ctx} {key iv aad text tag : List ℕ} (e : ctx ≡ given key iv aad text tag) where
  accepted_tag : ctx.tag ≡ tag
  accepted_tag = ap (λ c. c.tag) e

  accepted_sum : sum_of ctx ≡ sum_tag key iv aad text
  accepted_sum = ap sum_of e

small-Documented : Documented small small_aead
small-Documented = record {
  Encrypting = λ ctx key iv aad text. ctx ≡ given key iv aad text [];
  Decrypting = λ ctx key iv aad text. ctx ≡ given key iv aad text [];
  Expecting = λ ctx key iv aad text tag. ctx ≡ given key iv aad text tag;
  new_ctx = (given [] [] [] [] [], refl);
  encrypt_init = λ ctx key iv. (refl, refl);
  encrypt_aad = λ aad e. (refl, rw e refl);
  encrypt_text = λ text e. (refl, rw e refl, refl);
  encrypt_final = λ e. (refl, e, refl);
  get_tag = λ e. (refl, rw e refl);
  decrypt_init = λ ctx key iv. (refl, refl);
  decrypt_aad = λ aad e. (refl, rw e refl);
  decrypt_text = λ text e. (refl, rw e refl, refl);
  set_tag = λ tag e. (refl, rw e refl);
  right_tag = λ {ctx} e right. (accepts ctx (rw e right), refl);
  only_right_tag = λ {ctx} e good. rw (← accepted_tag e) (accepts_only ctx good ∙ accepted_sum e);
}

with_aes-Gcm_example : Gcm (with_aes small sums)
with_aes-Gcm_example = with_aes-Gcm small small_aead small-Documented sums

-- A changed byte is refused.
tampered :
    aes_gcm_decrypt small (2 ∷ []) [] (7 ∷ []) (9 ∷ []) (sum_tag (7 ∷ []) (9 ∷ []) [] (1 ∷ []))
    ≡ ok none
unfolding aes_gcm_decrypt
tampered = refl

-- Of a longer message `hmac` sees eight bytes.
same_hmac :
    hmac (λ key msg. msg) (1 ∷ 2 ∷ 3 ∷ 4 ∷ 5 ∷ 6 ∷ 7 ∷ 8 ∷ 9 ∷ []) []
    ≡ hmac (λ key msg. msg) (1 ∷ 2 ∷ 3 ∷ 4 ∷ 5 ∷ 6 ∷ 7 ∷ 8 ∷ []) []
unfolding hmac
same_hmac = refl
