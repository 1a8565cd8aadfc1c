-- ===== src/Secure/Agreement.antt =====
-- The handshake of src/security/secure_socket_wrapper.cpp between two sides.
use four_in_a_row.Base.{
  ℕ, not, ◌&&◌, ◌≡◌, refl, Bool, true, false, Option, none, some, List, ◌==◌, arith,
}
use four_in_a_row.Wire.Result.{Result, ok, failed, ◌>>=◌}
use four_in_a_row.Wire.Message.{
  Message, client_hello_message, server_hello_message, client_verify_message,
}
use four_in_a_row.Secure.{Suite, Channel, handle_msg}
use four_in_a_row.Secure.Signing.{
  Signer, Encodes, both_sign, msg_to_sign-ok, keyed, generate_keys-ok, make_signature-ok,
  check_signature-ok, with_signature-some,
}
use four_in_a_row.Secure.Transport.{InStep}
use four_in_a_row.Secure.Handshake.{
  client, server, shared_secret, build_msg_to_sign, Sent, send_client_hello, send_server_hello,
  send_client_verify, handle_client_hello, handle_server_hello, handle_client_verify,
}

module _ {Cert Key Priv : Type 0} (suite : Suite Cert Key Priv) where
  -- A message that went out, when the side that sent it goes on.
  abbrev gone : Channel Cert Key Priv × Option (Message Cert Key) × Bool → Option (Message Cert Key)
  gone (c, o, true) = o
  gone (c, o, false) = none

  -- The handlers on what `receiveMsg` returns.
  abbrev on_client_hello : Channel Cert Key Priv × Result (Message Cert Key) → ℕ → Priv → Sent suite
  on_client_hello (s, ok (client_hello_message key nonce a b)) sv_nonce eph =
      handle_client_hello suite (λ m. true) s key nonce sv_nonce eph
  on_client_hello (s, _) sv_nonce eph = failed

  abbrev on_server_hello : Channel Cert Key Priv × Result (Message Cert Key) → Sent suite
  on_server_hello (c, ok (server_hello_message key nonce a b ds)) =
      handle_server_hello suite (λ m. true) c key nonce ds
  on_server_hello (c, _) = failed

  abbrev on_client_verify :
      Channel Cert Key Priv × Result (Message Cert Key) → Result (Channel Cert Key Priv × Bool)
  on_client_verify (s, ok (client_verify_message ds)) = handle_client_verify suite s ds
  on_client_verify (s, _) = failed

  abbrev finished :
      Channel Cert Key Priv
      → Channel Cert Key Priv × Bool
      → Result (Channel Cert Key Priv × Channel Cert Key Priv)
  finished c (s, true) = ok (c, s)
  finished c (s, false) = failed

  -- `handshakeClient` of one side and `handshakeServer` of the other, with every message delivered
  -- by `handleMsg`.
  unfoldable pub handshake :
      Channel Cert Key Priv
      → Channel Cert Key Priv
      → ℕ
      → Priv
      → ℕ
      → Priv
      → Result (Channel Cert Key Priv × Channel Cert Key Priv)
  handshake c s cl_nonce cl_eph sv_nonce sv_eph = do
    hello ← send_client_hello suite (λ m. true) c cl_nonce cl_eph
    answer ← on_client_hello (handle_msg suite s (gone hello)) sv_nonce sv_eph
    proof ← on_server_hello (handle_msg suite hello.0 (gone answer))
    last ← on_client_verify (handle_msg suite answer.0 (gone proof))
    finished proof.0 last

  -- Two sides before the handshake: each has the other's certificate and name, the key pairs agree
  -- and the counters match.
  pub record Prepared (c s : Channel Cert Key Priv) (cl_eph sv_eph : Priv) : Type 0 where
    pub fresh : s.cl_nonce ≡ 0
    pub client_out : c.peer_authenticated ≡ false
    pub server_out : s.peer_authenticated ≡ false
    pub client_name : s.other_id ≡ c.my_id
    pub server_name : s.my_id ≡ c.other_id
    pub sent : c.send_seq_num ≡ s.recv_seq_num
    pub received : s.send_seq_num ≡ c.recv_seq_num
    pub client_cert : Cert
    pub server_cert : Cert
    pub has_client_cert : s.other_cert ≡ some client_cert
    pub has_server_cert : c.other_cert ≡ some server_cert
    pub client_signer : Signer suite client_cert c.my_priv_key
    pub server_signer : Signer suite server_cert s.my_priv_key
    pub client_key : Encodes suite (suite.public cl_eph)
    pub server_key : Encodes suite (suite.public sv_eph)
    pub secret : List ℕ
    pub client_secret : suite.derive cl_eph (suite.public sv_eph) ≡ ok secret
    pub server_secret : suite.derive sv_eph (suite.public cl_eph) ≡ ok secret
    pub kdf : List ℕ → ℕ → List ℕ
    pub derived : (info : List ℕ) (n : ℕ) → suite.hkdf_one_info secret info n ≡ ok (kdf info n)

  module _ (c s : Channel Cert Key Priv) (n k : ℕ) (cl_eph sv_eph : Priv)
      (p : Prepared c s cl_eph sv_eph) where
    abbrev server_end : Channel Cert Key Priv
    server_end = keyed suite p.kdf server (record s {
      cl_nonce = n;
      other_eph_key = some (suite.public cl_eph);
      sv_nonce = k;
      my_eph_key = some sv_eph;
    })

    abbrev client_start : Channel Cert Key Priv
    client_start = record c { cl_nonce = n; my_eph_key = some cl_eph }

    abbrev client_keyed : Channel Cert Key Priv
    client_keyed =
        keyed suite p.kdf client
          (record client_start { sv_nonce = k; other_eph_key = some (suite.public sv_eph) })

    abbrev client_end : Channel Cert Key Priv
    client_end = record client_keyed { peer_authenticated = true }

    abbrev common : List ℕ
    common = both_sign suite c.my_id c.other_id n k p.client_key.der p.server_key.der

    server_msg : build_msg_to_sign suite server server_end ≡ ok common
    unfolding build_msg_to_sign
    server_msg =
        rw (p.client_name, p.server_name)
          (msg_to_sign-ok suite c.my_id c.other_id n k _ _ p.client_key p.server_key)

    client_msg :
        (q : Bool)
        → build_msg_to_sign suite client (record client_keyed { peer_authenticated = q })
          ≡ ok common
    unfolding build_msg_to_sign
    client_msg q = msg_to_sign-ok suite c.my_id c.other_id n k _ _ p.client_key p.server_key

    server_answers :
        handle_client_hello suite (λ m. true) s (suite.public cl_eph) n k sv_eph
        ≡ ok (
          server_end,
          some (
              server_hello_message
                (suite.public sv_eph)
                k
                s.my_id
                s.other_id
                (p.server_signer.ds common)),
          true,
        )
    unfolding handle_client_hello send_server_hello shared_secret
    server_answers =
        rw
          (
            generate_keys-ok suite server
                (record s {
                  cl_nonce = n;
                  other_eph_key = some (suite.public cl_eph);
                  sv_nonce = k;
                  my_eph_key = some sv_eph;
                })
                p.secret p.kdf p.server_secret p.derived,
            make_signature-ok suite server server_end common p.server_cert p.server_signer
                server_msg,
          )
          (with_signature-some suite server_end (p.server_signer.ds common) _
            (p.server_signer.some_ds common))

    client_answers :
        handle_server_hello suite
          (λ m. true)
          client_start
          (suite.public sv_eph)
          k
          (p.server_signer.ds common)
        ≡ ok (client_end, some (client_verify_message (p.client_signer.ds common)), true)
    unfolding handle_server_hello send_client_verify shared_secret
    client_answers =
        rw
          (
            generate_keys-ok suite client
                (record client_start { sv_nonce = k; other_eph_key = some (suite.public sv_eph) })
                p.secret p.kdf p.client_secret p.derived,
            check_signature-ok suite client client_keyed common p.server_cert s.my_priv_key
                p.server_signer p.has_server_cert (client_msg client_keyed.peer_authenticated),
            make_signature-ok suite client client_end common p.client_cert p.client_signer
                (client_msg true),
          )
          (with_signature-some suite client_end (p.client_signer.ds common) _
            (p.client_signer.some_ds common))

    server_accepts :
        handle_client_verify suite server_end (p.client_signer.ds common)
        ≡ ok (record server_end { peer_authenticated = true }, true)
    unfolding handle_client_verify
    server_accepts =
        rw
          (check_signature-ok suite server server_end common p.client_cert c.my_priv_key
            p.client_signer p.has_client_cert server_msg)
          refl

    server_step :
        on_client_hello
          (handle_msg suite s
            (some (client_hello_message (suite.public cl_eph) n c.my_id c.other_id)))
          k
          sv_eph
        ≡ ok (
          server_end,
          some (
              server_hello_message
                (suite.public sv_eph)
                k
                s.my_id
                s.other_id
                (p.server_signer.ds common)),
          true,
        )
    unfolding handle_msg
    server_step =
        let open_test : (s.cl_nonce == 0 && not s.peer_authenticated) ≡ true =
          ground (arith, p.fresh, p.server_out) in
        rw open_test server_answers

    client_step :
        on_server_hello (
          handle_msg suite client_start (
            some (
              server_hello_message
                (suite.public sv_eph)
                k
                s.my_id
                s.other_id
                (p.server_signer.ds common))))
        ≡ ok (client_end, some (client_verify_message (p.client_signer.ds common)), true)
    unfolding handle_msg
    client_step =
        let open_test : not c.peer_authenticated ≡ true = ground (arith, p.client_out) in
        rw open_test client_answers

    server_last_step :
        on_client_verify
          (handle_msg suite server_end (some (client_verify_message (p.client_signer.ds common))))
        ≡ ok (record server_end { peer_authenticated = true }, true)
    unfolding handle_msg
    server_last_step =
        let open_test : not s.peer_authenticated ≡ true = ground (arith, p.server_out) in
        rw open_test server_accepts

    -- When two sides begin with each other's certificates and names, fresh, with key pairs that agree
    -- on a secret and equal counters, the handshake ends without an error on both sides, and then
    -- each side is in step with the other, in both directions.
    pub handshake_agrees :
        (c' : Channel Cert Key Priv) × (s' : Channel Cert Key Priv) × (handshake c s n cl_eph k
            sv_eph
          ≡ ok (c', s'))
        × InStep suite c' s'
        × InStep suite s' c'
    unfolding handshake send_client_hello
    handshake_agrees = (
      client_end,
      record server_end { peer_authenticated = true },
      rw (server_step, client_step, server_last_step) refl,
      record { sender = refl; receiver = refl; key = refl; iv = refl; counter = p.sent },
      record { sender = refl; receiver = refl; key = refl; iv = refl; counter = p.received },
    )
