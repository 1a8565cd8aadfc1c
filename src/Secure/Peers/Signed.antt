-- ===== src/Secure/Peers/Signed.antt =====
-- Who stands behind a wrapper of src/security/secure_socket_wrapper.cpp after a call that succeeds.
use four_in_a_row.Base.{
  ℕ, ◌≡◌, refl, sym, ap, ◌∙◌, inl, inr, Bool, true, Option, none, some, List, Bool-cases,
}
use four_in_a_row.Wire.Result.{Result, ok, >>=-eq-ok}
use four_in_a_row.Wire.Message.{
  Message, MessageType, client_hello_message, server_hello_message, client_verify_message,
}
use four_in_a_row.Secure.{Suite, Channel, init, set_other_cert}
use four_in_a_row.Secure.Handshake.{
  Role, client, server, generate_keys, msg_to_sign, build_msg_to_sign, check_signature,
  send_client_hello, handle_server_hello, handle_client_verify,
}
use four_in_a_row.Secure.Authentic.{Verified, generate_keys-same, check_signature-Verified}
use four_in_a_row.Secure.Receive.{receive_msg}
use four_in_a_row.Secure.Keeps.{client_hello-Keeps, send_client_verify-same}
use four_in_a_row.Secure.Peers.{
  succeeds, from_option, accept_client, of_sent, answer_hello, answer_server, check_verify,
}
use four_in_a_row.Secure.Peers.Standing.{
  of_sent-succeeds, of_checked-succeeds, session, Session, standing, receive_msg-standing,
}

module _ {Cert Key Priv : Type 0} (suite : Suite Cert Key Priv) where
  -- The certificate of the peer is the one given, and the store trusts it.
  pub record Holds (cert : Cert) (c : Channel Cert Key Priv) : Type 0 where
    pub has : c.other_cert ≡ some cert
    pub trusted : suite.trusted cert ≡ true

  pub Holds-same :
      (cert : Cert) (c d : Channel Cert Key Priv)
      → d.other_cert ≡ c.other_cert
      → Holds cert c
      → Holds cert d
  Holds-same cert c d e h = record { has = e ∙ h.has; trusted = h.trusted }

  pub set_other_cert-Holds :
      (c : Channel Cert Key Priv) (cert : Cert)
      → (set_other_cert suite c cert).1 ≡ true
      → Holds cert (set_other_cert suite c cert).0
  unfolding set_other_cert
  set_other_cert-Holds c cert e = elim (Bool-cases (suite.trusted cert)) [
    | inl good ↦ rw good (record { has = refl; trusted = good })
    | inr bad ↦ let f = (rw bad at e) in absurd (cc)
  ]

  pub accept_client-Holds :
      (my_cert : Cert) (key : Priv) (cert : Cert) (s : Channel Cert Key Priv)
      → from_option (accept_client suite my_cert key cert) ≡ succeeds s
      → Holds cert s
  unfolding accept_client
  accept_client-Holds my_cert key cert s e =
      let q = set_other_cert suite (init suite my_cert key) cert in
      elim (Bool-cases q.1) [
        | inl good ↦
            let same : q.0 ≡ s = let f = (rw good at e) in cc in
            rw (← same) (set_other_cert-Holds _ cert good)
        | inr bad ↦ let f = (rw bad at e) in absurd (cc)
      ]

  pub answer_hello-cert :
      (send : Message Cert Key → Bool) (nonce : ℕ) (eph : Priv) (s c : Channel Cert Key Priv)
      (m : Message Cert Key)
      → answer_hello suite send nonce eph s m ≡ succeeds c
      → c.other_cert ≡ s.other_cert
  answer_hello-cert send nonce eph s c (client_hello_message key n a b) e =
      let (o, done) = of_sent-succeeds suite _ c e in
      (client_hello-Keeps suite send s c key n nonce eph o true done).0
  answer_hello-cert send nonce eph s c _ e = absurd (cc)

  -- The public half of a key pair that is there.
  abbrev public_of : Option Priv → Option Key
  public_of mine = elim mine [ none ↦ none | some k ↦ some (suite.public k) ]

  session_msg : Role → Session suite → Result (List ℕ)
  session_msg server (cert, my_id, other_id, cl_nonce, sv_nonce, mine, theirs) =
      msg_to_sign suite other_id my_id cl_nonce sv_nonce theirs (public_of mine)
  session_msg client (cert, my_id, other_id, cl_nonce, sv_nonce, mine, theirs) =
      msg_to_sign suite my_id other_id cl_nonce sv_nonce (public_of mine) theirs

  msg_of_session :
      (role : Role) (c : Channel Cert Key Priv)
      → build_msg_to_sign suite role c ≡ session_msg role (session suite c)
  unfolding build_msg_to_sign session_msg
  msg_of_session client c = refl
  msg_of_session server c = refl

  Verified-same :
      (role : Role) (c d : Channel Cert Key Priv) (ds : List ℕ)
      → session suite d ≡ session suite c
      → Verified suite role c ds
      → Verified suite role d ds
  Verified-same role c d ds e v = record {
    cert = v.cert;
    known = ap (λ q. q.0) e ∙ v.known;
    msg = v.msg;
    built = msg_of_session role d ∙ ap (session_msg role) e ∙ sym (msg_of_session role c) ∙ v.built;
    verified = v.verified;
  }

  -- The peer is authenticated: the store trusts the certificate given, which the wrapper holds, and
  -- the certificate verifies the signature of the names, nonces and keys of the wrapper.
  pub record Signed (role : Role) (cert : Cert) (c : Channel Cert Key Priv) : Type 0 where
    pub in_now : c.peer_authenticated ≡ true
    pub holds : Holds cert c
    pub ds : List ℕ
    pub signed : Verified suite role c ds

  handle_client_verify-Signed :
      (cert : Cert) (s c : Channel Cert Key Priv) (ds : List ℕ)
      → Holds cert s
      → handle_client_verify suite s ds ≡ ok (c, true)
      → Signed server cert c
  unfolding handle_client_verify
  handle_client_verify-Signed cert s c ds h e =
      let (good, checked, g) = >>=-eq-ok (check_signature suite ds server s) _ e in
      elim (Bool-cases good) [
        | inl pass ↦
            let same : record s { peer_authenticated = true } ≡ c = let f = (rw pass at g) in cc in
            rw (← same) (record {
              in_now = refl;
              holds = record { has = h.has; trusted = h.trusted };
              ds = ds;
              signed =
                  Verified-same server s _ ds refl
                    (check_signature-Verified suite server s ds (rw pass at checked));
            })
        | inr bad ↦ let f = (rw bad at g) in absurd (cc)
      ]

  pub send_client_hello-cert :
      (send : Message Cert Key → Bool) (c c' : Channel Cert Key Priv) (nonce : ℕ) (eph : Priv)
      → of_sent suite (send_client_hello suite send c nonce eph) ≡ succeeds c'
      → c'.other_cert ≡ c.other_cert
  unfolding send_client_hello
  send_client_hello-cert send c c' nonce eph e =
      let (o, done) = of_sent-succeeds suite (send_client_hello suite send c nonce eph) c' e in cc

  handle_server_hello-Signed :
      (send : Message Cert Key → Bool) (cert : Cert) (c c' : Channel Cert Key Priv) (key : Key)
      (nonce : ℕ) (ds : List ℕ) (o : Option (Message Cert Key))
      → Holds cert c
      → handle_server_hello suite send c key nonce ds ≡ ok (c', o, true)
      → Signed client cert c'
  unfolding handle_server_hello
  handle_server_hello-Signed send cert c c' key nonce ds o h e =
      let (k, keys, f) =
        >>=-eq-ok
          (generate_keys suite client (record c { sv_nonce = nonce; other_eph_key = some key })) _
          e in
      let (good, checked, g) = >>=-eq-ok (check_signature suite ds client k) _ f in
      let (_, same_cert) = generate_keys-same suite client _ k keys in
      elim (Bool-cases good) [
        | inl pass ↦
            let same = send_client_verify-same suite send _ c' o true (rw pass at g) in
            record {
              in_now = ap (λ d. d.peer_authenticated) same;
              holds = Holds-same cert c c' (ap (λ d. d.other_cert) same ∙ same_cert) h;
              ds = ds;
              signed =
                  Verified-same client k c' ds (ap (session suite) same)
                    (check_signature-Verified suite client k ds (rw pass at checked));
            }
        | inr bad ↦ let f' = (rw bad at g) in absurd (cc)
      ]

  -- Without a certificate of the server no hello of it is accepted.
  handle_server_hello-known :
      (send : Message Cert Key → Bool) (c c' : Channel Cert Key Priv) (key : Key) (nonce : ℕ)
      (ds : List ℕ) (o : Option (Message Cert Key))
      → handle_server_hello suite send c key nonce ds ≡ ok (c', o, true)
      → (cert : Cert) × (c.other_cert ≡ some cert)
  unfolding handle_server_hello
  handle_server_hello-known send c c' key nonce ds o e =
      let (k, keys, f) =
        >>=-eq-ok
          (generate_keys suite client (record c { sv_nonce = nonce; other_eph_key = some key })) _
          e in
      let (good, checked, g) = >>=-eq-ok (check_signature suite ds client k) _ f in
      let (_, same_cert) = generate_keys-same suite client _ k keys in
      elim (Bool-cases good) [
        | inl pass ↦
            let v = check_signature-Verified suite client k ds (rw pass at checked) in
            (v.cert, sym same_cert ∙ v.known)
        | inr bad ↦ let f' = (rw bad at g) in absurd (cc)
      ]

  pub answer_server-known :
      (send : Message Cert Key → Bool) (c c' : Channel Cert Key Priv) (m : Message Cert Key)
      → answer_server suite send c m ≡ succeeds c'
      → (cert : Cert) × (c.other_cert ≡ some cert)
  answer_server-known send c c' (server_hello_message key nonce a b ds) e =
      let (o, done) = of_sent-succeeds suite _ c' e in
      handle_server_hello-known send c c' key nonce ds o done
  answer_server-known send c c' _ e = absurd (cc)

  pub answer_server-Signed :
      (send : Message Cert Key → Bool) (cert : Cert) (c c' : Channel Cert Key Priv)
      (m : Message Cert Key)
      → Holds cert c
      → answer_server suite send c m ≡ succeeds c'
      → Signed client cert c'
  answer_server-Signed send cert c c' (server_hello_message key nonce a b ds) h e =
      let (o, done) = of_sent-succeeds suite _ c' e in
      handle_server_hello-Signed send cert c c' key nonce ds o h done
  answer_server-Signed send cert c c' _ h e = absurd (cc)

  pub check_verify-Signed :
      (send : Message Cert Key → Bool) (cert : Cert) (s c : Channel Cert Key Priv)
      (m : Message Cert Key)
      → Holds cert s
      → check_verify suite send s m ≡ succeeds c
      → Signed server cert c
  check_verify-Signed send cert s c (client_verify_message ds) h e =
      handle_client_verify-Signed cert s c ds h (of_checked-succeeds suite _ c e)
  check_verify-Signed send cert s c _ h e = absurd (cc)

  pub receive_msg-Holds :
      (cert : Cert) (types : List MessageType) (c : Channel Cert Key Priv)
      (rs : List (Result (Message Cert Key)))
      → Holds cert c
      → Holds cert (receive_msg suite types c rs).0
  receive_msg-Holds cert types c rs h =
      Holds-same cert c _ (ap (λ q. q.0.0) (receive_msg-standing suite types c rs)) h

  -- What keeps the standing keeps that the peer has signed.
  pub Signed-same :
      (role : Role) (cert : Cert) (c d : Channel Cert Key Priv)
      → standing suite d ≡ standing suite c
      → Signed role cert c
      → Signed role cert d
  Signed-same role cert c d e g =
      let same = ap (λ q. q.0) e in
      record {
        in_now = ap (λ q. q.1) e ∙ g.in_now;
        holds = Holds-same cert c d (ap (λ q. q.0) same) g.holds;
        ds = g.ds;
        signed = Verified-same role c d g.ds same g.signed;
      }
