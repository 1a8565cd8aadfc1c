-- ===== src/Secure/Guard.antt =====
-- What `handleMsg` of src/security/secure_socket_wrapper.cpp lets through.
use four_in_a_row.Base.{
  ℕ, ◌+◌, ◌%◌, ◌^◌, ◌≡◌, refl, sym, ◌∙◌, ◌⊎◌, inl, inr, Bool, true, false, not, Option, none, some,
  List, ltb, ◌==◌, if◌then◌else◌, length, Bool-cases, arith,
}
use four_in_a_row.Wire.Result.{Result, ok, failed, raised, fault}
use four_in_a_row.Wire.Message.{
  Message, secure, secure_message, client_hello_message, server_hello_message,
  client_verify_message, certificate_request_message, certificate_message,
}
use four_in_a_row.Wire.Message.Read.{read_message, tag_size}
use four_in_a_row.Secure.{
  Suite, Channel, make_aad, update_iv, opened, decrypt_msg, read_plain, counted, only_if,
  handle_msg, max_sec_msg_size, aad_size,
}
use four_in_a_row.Secure.Transport.{Gcm}

module _ {Cert Key Priv : Type 0} where
  -- The messages that are handed on as they came, and when.
  abbrev pub InClear : Channel Cert Key Priv → Message Cert Key → Type 0
  InClear c (client_hello_message key nonce my_id other_id) =
      (c.cl_nonce ≡ 0) × (c.peer_authenticated ≡ false)
  InClear c (server_hello_message key nonce my_id other_id ds) = c.peer_authenticated ≡ false
  InClear c (client_verify_message ds) = c.peer_authenticated ≡ false
  InClear c (certificate_message cert) = Unit {0}
  InClear c certificate_request_message = Unit {0}
  InClear c _ = ⊥

  abbrev pub with_count : Channel Cert Key Priv → Channel Cert Key Priv
  with_count c = record c { recv_seq_num = (c.recv_seq_num + 1) % 2 ^ 64 }

module _ {Cert Key Priv : Type 0} (suite : Suite Cert Key Priv) (gcm : Gcm suite) where
  -- A message that the peer made with the key and for the place of this one.
  pub record Genuine (c : Channel Cert Key Priv) (ct tag : List ℕ) (m : Message Cert Key)
      : Type 0 where
    pub authenticated : c.peer_authenticated ≡ true
    pub pt : List ℕ
    pub made :
        suite.encrypt c.recv_key
          (update_iv c.recv_seq_num c.recv_iv_static)
          (make_aad secure (length ct + tag_size + aad_size))
          pt
        ≡ some (ct, tag)
    pub content : read_message (suite.ssl) pt (length ct) ≡ ok m

  counted-ok :
      (c c' : Channel Cert Key Priv) (r : Result (Message Cert Key)) (m : Message Cert Key)
      → counted suite c r ≡ (c', ok m)
      → (r ≡ ok m) × (c' ≡ with_count c)
  counted-ok c c' (ok n) m e = (ground arith, ground arith)
  counted-ok c c' failed m e = absurd (ground arith)
  counted-ok c c' raised m e = absurd (ground arith)
  counted-ok c c' fault m e = absurd (ground arith)

  read_plain-ok :
      (len : ℕ) (o : Option (List ℕ)) (m : Message Cert Key)
      → read_plain suite len o ≡ ok m
      → (pt : List ℕ) × (o ≡ some pt) × (read_message (suite.ssl) pt len ≡ ok m)
  read_plain-ok len none m e = absurd (cc)
  read_plain-ok len (some pt) m e = elim (Bool-cases (length pt == 0)) [
    | inl z ↦ let f = (rw z at e) in absurd (cc)
    | inr n ↦ (pt, refl, rw n at e)
  ]

  opened-some :
      (c : Channel Cert Key Priv) (ct tag pt : List ℕ)
      → opened suite c ct tag ≡ some pt
      → suite.decrypt c.recv_key
          (update_iv c.recv_seq_num c.recv_iv_static)
          (make_aad secure (length ct + tag_size + aad_size))
          ct
          tag
        ≡ some pt
  unfolding opened
  opened-some c ct tag pt e = e

  past_tests :
      {A : Type 0} (a b : Bool) (x y z : A)
      → a ≡ true
      → b ≡ false
      → (if not a then x else if b then y else z) ≡ z
  past_tests a b x y z e f = rw (e, f) refl

  decrypt_msg-Genuine :
      (c : Channel Cert Key Priv) (ct tag : List ℕ) (m : Message Cert Key)
      → decrypt_msg suite c ct tag ≡ ok m
      → Genuine c ct tag m
  unfolding decrypt_msg
  decrypt_msg-Genuine c ct tag m e = elim (Bool-cases c.peer_authenticated) [
    | inr out ↦ let f = (rw out at e) in absurd (cc)
    | inl inside ↦ elim (Bool-cases (ltb max_sec_msg_size (length ct))) [
      | inl big ↦ let f = (rw (inside, big) at e) in absurd (cc)
      | inr small ↦
          let (pt, o, read) =
            read_plain-ok (length ct) (opened suite c ct tag) m
              (sym (past_tests _ _ _ _ _ inside small) ∙ e) in
          record {
            authenticated = inside;
            pt = pt;
            made = gcm.only (opened-some c ct tag pt o);
            content = read;
          }
    ]
  ]

  only_if-ok :
      (c c' : Channel Cert Key Priv) (test : Bool) (n m : Message Cert Key)
      → ◌≡◌ {A = Channel Cert Key Priv × Result (Message Cert Key)}
          (c, only_if suite test n)
          (c', ok m)
      → (test ≡ true) × (n ≡ m) × (c' ≡ c)
  only_if-ok c c' true n m e = (refl, ground arith, ground arith)
  only_if-ok c c' false n m e = absurd (ground arith)

  abbrev pub HandedOn :
      Channel Cert Key Priv → Message Cert Key → Message Cert Key → Channel Cert Key Priv → Type 0
  HandedOn c raw m c' =
      ((raw ≡ m) × InClear c m × (c' ≡ c))
      ⊎ ((ct : List ℕ) × (tag : List ℕ) × (raw ≡ secure_message ct tag)
          × Genuine c ct tag m
          × (c' ≡ with_count c))

  -- What `handleMsg` hands on came either in clear, and is then a message of the handshake that the
  -- peer may still send, or the transport of a certificate, and the wrapper stays as it is; or it
  -- came encrypted, after the peer has been authenticated, as the very text that the key and the
  -- counter of this place give, and is counted.
  pub handle_msg_guards :
      (c c' : Channel Cert Key Priv) (raw m : Message Cert Key)
      → handle_msg suite c (some raw) ≡ (c', ok m)
      → HandedOn c raw m c'
  unfolding handle_msg
  handle_msg_guards c c' (secure_message ct tag) m e =
      let (r, same) = counted-ok c c' (decrypt_msg suite c ct tag) m e in
      inr (ct, tag, refl, decrypt_msg-Genuine c ct tag m r, same)
  handle_msg_guards c c' (client_hello_message key nonce my_id other_id) m e =
      let (t, n, same) = only_if-ok c c' _ _ m e in inl (n, rw (← n) (ground (arith, t)), same)
  handle_msg_guards c c' (server_hello_message key nonce my_id other_id ds) m e =
      let (t, n, same) = only_if-ok c c' _ _ m e in inl (n, rw (← n) (ground (arith, t)), same)
  handle_msg_guards c c' (client_verify_message ds) m e =
      let (t, n, same) = only_if-ok c c' _ _ m e in inl (n, rw (← n) (ground (arith, t)), same)
  handle_msg_guards c c' (certificate_message cert) m e =
      let n : certificate_message cert ≡ m = ground arith in inl (n, rw (← n) tt, ground arith)
  handle_msg_guards c c' certificate_request_message m e =
      let n : certificate_request_message ≡ m = ground arith in inl (n, rw (← n) tt, ground arith)
  handle_msg_guards c c' _ m e = absurd (ground arith)
