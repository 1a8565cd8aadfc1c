-- ===== src/Secure/Keeps.antt =====
-- What the methods of src/security/secure_socket_wrapper.cpp do to the certificate and the flag of the
-- peer.
use four_in_a_row.Base.{
  ℕ, ◌≡◌, refl, sym, ◌∙◌, ap, ◌⊎◌, inl, inr, Bool, true, false, Option, none, some, List, [], ◌∷◌,
  Bool-cases, arith,
}
use four_in_a_row.Wire.Result.{Result, ok, failed, raised, fault, >>=-eq-ok}
use four_in_a_row.Wire.Message.{Message, client_verify_message, secure_message}
use four_in_a_row.Secure.{Suite, Channel, decrypt_msg, counted, handle_msg, hand_over}
use four_in_a_row.Secure.Handshake.{
  Role, client, server, generate_keys, make_signature, check_signature, with_signature,
  send_server_hello, send_client_verify, handle_client_hello, handle_server_hello,
  handle_client_verify,
}
use four_in_a_row.Secure.Thrown.{
  Buffers, with_buffers, after_keys, after_check, left_by_server_hello, left_by_client_hello,
}
use four_in_a_row.Secure.Authentic.{generate_keys-same, check_signature-Verified}

module _ {Cert Key Priv : Type 0} (suite : Suite Cert Key Priv) where
  abbrev pub Known : Channel Cert Key Priv → Type 0
  Known c = (cert : Cert) × (c.other_cert ≡ some cert)

  -- The certificate stays, and only a peer with a certificate becomes authenticated.
  abbrev pub Keeps : Channel Cert Key Priv → Channel Cert Key Priv → Type 0
  Keeps c c' =
      (c'.other_cert ≡ c.other_cert)
      × (c'.peer_authenticated ≡ true → (c.peer_authenticated ≡ true) ⊎ Known c)

  pub same_flag :
      (c c' : Channel Cert Key Priv)
      → c'.other_cert ≡ c.other_cert
      → c'.peer_authenticated ≡ c.peer_authenticated
      → Keeps c c'
  same_flag c c' e f = (e, λ g. inl (sym f ∙ g))

  Keeps-trans : (c k d : Channel Cert Key Priv) → Keeps c k → Keeps k d → Keeps c d
  Keeps-trans c k d (e, f) (e', f') = (
    e' ∙ e,
    λ now. elim (f' now) [ inl before ↦ f before | inr (cert, h) ↦ inr (cert, sym e ∙ h) ],
  )

  with_signature-same :
      (send : Message Cert Key → Bool) (c c' : Channel Cert Key Priv) (s : Option (List ℕ))
      (m : List ℕ → Message Cert Key) (o : Option (Message Cert Key)) (b : Bool)
      → with_signature suite send c s m ≡ ok (c', o, b)
      → c' ≡ c
  with_signature-same send c c' none m o b e = ground arith
  with_signature-same send c c' (some []) m o b e = ground arith
  with_signature-same send c c' (some (d ∷ ds)) m o b e = ground arith

  pub send_client_verify-same :
      (send : Message Cert Key → Bool) (c c' : Channel Cert Key Priv)
      (o : Option (Message Cert Key)) (b : Bool)
      → send_client_verify suite send c ≡ ok (c', o, b)
      → c' ≡ c
  unfolding send_client_verify
  send_client_verify-same send c c' o b e =
      let (ds, _, f) = >>=-eq-ok (make_signature suite client c) _ e in
      with_signature-same send c c' ds client_verify_message o b f

  pub client_hello-Keeps :
      (send : Message Cert Key → Bool) (c c' : Channel Cert Key Priv) (key : Key)
      (nonce sv_nonce : ℕ) (eph : Priv) (o : Option (Message Cert Key)) (b : Bool)
      → handle_client_hello suite send c key nonce sv_nonce eph ≡ ok (c', o, b)
      → Keeps c c'
  unfolding handle_client_hello send_server_hello
  client_hello-Keeps send c c' key nonce sv_nonce eph o b e =
      let (k, keys, f) =
        >>=-eq-ok
          (generate_keys suite server (record c {
            cl_nonce = nonce;
            other_eph_key = some key;
            sv_nonce = sv_nonce;
            my_eph_key = some eph;
          }))
          _ e in
      let (ds, _, g) = >>=-eq-ok (make_signature suite server k) _ f in
      let same = with_signature-same send k c' ds _ o b g in
      let (flag, cert) = generate_keys-same suite server _ k keys in same_flag c c' (cc) (cc)

  pub server_hello-Keeps :
      (send : Message Cert Key → Bool) (c c' : Channel Cert Key Priv) (key : Key) (nonce : ℕ)
      (ds : List ℕ) (o : Option (Message Cert Key)) (b : Bool)
      → handle_server_hello suite send c key nonce ds ≡ ok (c', o, b)
      → Keeps c c'
  unfolding handle_server_hello
  server_hello-Keeps send c c' key nonce ds o b e =
      let (k, keys, f) =
        >>=-eq-ok
          (generate_keys suite client (record c { sv_nonce = nonce; other_eph_key = some key })) _
          e in
      let (good, checked, g) = >>=-eq-ok (check_signature suite ds client k) _ f in
      let (flag, cert) = generate_keys-same suite client _ k keys in
      elim (Bool-cases good) [
        | inl pass ↦
            let v = check_signature-Verified suite client k ds (rw pass at checked) in
            let same = send_client_verify-same send _ c' o b (rw pass at g) in
            (ap (λ d. d.other_cert) same ∙ cert, λ now. inr (v.cert, sym cert ∙ v.known))
        | inr bad ↦ let h = (rw bad at g) in same_flag c c' (ground arith) (ground arith)
      ]

  pub client_verify-Keeps :
      (c c' : Channel Cert Key Priv) (ds : List ℕ) (b : Bool)
      → handle_client_verify suite c ds ≡ ok (c', b)
      → Keeps c c'
  unfolding handle_client_verify
  client_verify-Keeps c c' ds b e =
      let (good, checked, g) = >>=-eq-ok (check_signature suite ds server c) _ e in
      elim (Bool-cases good) [
        | inl pass ↦
            let v = check_signature-Verified suite server c ds (rw pass at checked) in
            let h = (rw pass at g) in (ground arith, λ now. inr (v.cert, v.known))
        | inr bad ↦ let h = (rw bad at g) in same_flag c c' (ground arith) (ground arith)
      ]

  after_check-Keeps :
      (k : Channel Cert Key Priv) (ds : List ℕ) (r : Result Bool)
      → check_signature suite ds client k ≡ r
      → Keeps k (after_check suite k r)
  after_check-Keeps k ds (ok true) e =
      let v = check_signature-Verified suite client k ds e in (refl, λ now. inr (v.cert, v.known))
  after_check-Keeps k ds (ok false) e = same_flag k k refl refl
  after_check-Keeps k ds failed e = same_flag k k refl refl
  after_check-Keeps k ds raised e = same_flag k k refl refl
  after_check-Keeps k ds fault e = same_flag k k refl refl

  -- The keys leave the certificate and the flag alone, and so what comes before the throw is what
  -- `later` does.
  after_keys-Keeps :
      (role : Role) (b : Buffers) (c : Channel Cert Key Priv)
      (later : Channel Cert Key Priv → Channel Cert Key Priv)
      → ((k : Channel Cert Key Priv) → Keeps k (later k))
      → (r : Result (Channel Cert Key Priv)) → generate_keys suite role c ≡ r
      → Keeps c (after_keys suite b c later r)
  after_keys-Keeps role b c later keeps (ok k) e =
      let (flag, cert) = generate_keys-same suite role c k e in
      Keeps-trans c k (later k) (same_flag c k cert flag) (keeps k)
  after_keys-Keeps role b c later keeps failed e = same_flag c (with_buffers suite b c) refl refl
  after_keys-Keeps role b c later keeps raised e = same_flag c (with_buffers suite b c) refl refl
  after_keys-Keeps role b c later keeps fault e = same_flag c (with_buffers suite b c) refl refl

  pub left_by_server_hello-Keeps :
      (b : Buffers) (c : Channel Cert Key Priv) (key : Key) (nonce : ℕ) (ds : List ℕ)
      → Keeps c (left_by_server_hello suite b c key nonce ds)
  unfolding left_by_server_hello
  left_by_server_hello-Keeps b c key nonce ds =
      after_keys-Keeps client b (record c { sv_nonce = nonce; other_eph_key = some key })
        (λ k. after_check suite k (check_signature suite ds client k))
        (λ k. after_check-Keeps k ds _ refl) _ refl

  pub left_by_client_hello-Keeps :
      (b : Buffers) (c : Channel Cert Key Priv) (key : Key) (nonce sv_nonce : ℕ) (eph : Priv)
      → Keeps c (left_by_client_hello suite b c key nonce sv_nonce eph)
  unfolding left_by_client_hello
  left_by_client_hello-Keeps b c key nonce sv_nonce eph =
      after_keys-Keeps server b
        (record c {
          cl_nonce = nonce;
          other_eph_key = some key;
          sv_nonce = sv_nonce;
          my_eph_key = some eph;
        })
        (λ k. k) (λ k. same_flag k k refl refl) _ refl

  counted-Keeps :
      (c : Channel Cert Key Priv) (r : Result (Message Cert Key)) → Keeps c (counted suite c r).0
  counted-Keeps c (ok m) = same_flag c (counted suite c (ok m)).0 refl refl
  counted-Keeps c failed = same_flag c c refl refl
  counted-Keeps c raised = same_flag c c refl refl
  counted-Keeps c fault = same_flag c c refl refl

  pub handle_msg-Keeps :
      (c : Channel Cert Key Priv) (o : Option (Message Cert Key)) → Keeps c (handle_msg suite c o).0
  unfolding handle_msg
  handle_msg-Keeps c none = same_flag c c refl refl
  handle_msg-Keeps c (some (secure_message ct tag)) = counted-Keeps c (decrypt_msg suite c ct tag)
  handle_msg-Keeps c (some _) = same_flag c c refl refl

  pub hand_over-Keeps :
      (c c' : Channel Cert Key Priv) (send : Message Cert Key → Bool)
      (sm o : Option (Message Cert Key)) (b : Bool)
      → hand_over suite c send sm ≡ (c', o, b)
      → Keeps c c'
  hand_over-Keeps c c' send none o b e = same_flag c c' (ground arith) (ground arith)
  hand_over-Keeps c c' send (some sm) o b e = elim (Bool-cases (send sm)) [
    | inl sent ↦ let f = (rw sent at e) in same_flag c c' (ground arith) (ground arith)
    | inr lost ↦ let f = (rw lost at e) in same_flag c c' (ground arith) (ground arith)
  ]
