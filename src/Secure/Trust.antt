-- ===== src/Secure/Trust.antt =====
-- The certificate of the peer through every run of src/security/secure_socket_wrapper.cpp.
use four_in_a_row.Base.{
  ℕ, ◌≡◌, refl, sym, ◌∙◌, inl, inr, Bool, true, Option, some, List, Bool-cases, arith,
}
use four_in_a_row.Wire.Result.{ok, raised, >>=-eq-ok}
use four_in_a_row.Wire.Message.{Message}
use four_in_a_row.Secure.{Suite, Channel, init, set_other_cert, encrypt_msg, handle_msg, send_msg}
use four_in_a_row.Secure.Handshake.{
  send_client_hello, handle_client_hello, handle_server_hello, handle_client_verify,
}
use four_in_a_row.Secure.Thrown.{Buffers, left_by_server_hello, left_by_client_hello}
use four_in_a_row.Secure.Keeps.{
  Known, Keeps, same_flag, client_hello-Keeps, server_hello-Keeps, client_verify-Keeps,
  handle_msg-Keeps, hand_over-Keeps, left_by_server_hello-Keeps, left_by_client_hello-Keeps,
}

module _ {Cert Key Priv : Type 0} (suite : Suite Cert Key Priv) where
  -- One call of a method of the class: it returns, or one of the calls below it throws. What a method
  -- that ends outside the memory leaves behind is no longer looked at.
  pub data Step (c : Channel Cert Key Priv) : Channel Cert Key Priv → Type 0 where
    certified : (cert : Cert) → Step c (set_other_cert suite c cert).0
    message_handled : (o : Option (Message Cert Key)) → Step c (handle_msg suite c o).0
    message_sent :
        {c' : Channel Cert Key Priv} (m : Message Cert Key) (send : Message Cert Key → Bool)
        (o : Option (Message Cert Key)) (b : Bool)
        → send_msg suite c m send ≡ ok (c', o, b)
        → Step c c'
    hello_sent :
        {c' : Channel Cert Key Priv} (nonce : ℕ) (eph : Priv) (send : Message Cert Key → Bool)
        (o : Option (Message Cert Key)) (b : Bool)
        → send_client_hello suite send c nonce eph ≡ ok (c', o, b)
        → Step c c'
    client_hello_handled :
        {c' : Channel Cert Key Priv} (key : Key) (nonce sv_nonce : ℕ) (eph : Priv)
        (send : Message Cert Key → Bool) (o : Option (Message Cert Key)) (b : Bool)
        → handle_client_hello suite send c key nonce sv_nonce eph ≡ ok (c', o, b)
        → Step c c'
    server_hello_handled :
        {c' : Channel Cert Key Priv} (key : Key) (nonce : ℕ) (ds : List ℕ)
        (send : Message Cert Key → Bool) (o : Option (Message Cert Key)) (b : Bool)
        → handle_server_hello suite send c key nonce ds ≡ ok (c', o, b)
        → Step c c'
    client_verify_handled :
        {c' : Channel Cert Key Priv} (ds : List ℕ) (b : Bool)
        → handle_client_verify suite c ds ≡ ok (c', b)
        → Step c c'
    client_hello_thrown :
        (bufs : Buffers) (key : Key) (nonce sv_nonce : ℕ) (eph : Priv)
        (send : Message Cert Key → Bool)
        → handle_client_hello suite send c key nonce sv_nonce eph ≡ raised
        → Step c (left_by_client_hello suite bufs c key nonce sv_nonce eph)
    server_hello_thrown :
        (bufs : Buffers) (key : Key) (nonce : ℕ) (ds : List ℕ) (send : Message Cert Key → Bool)
        → handle_server_hello suite send c key nonce ds ≡ raised
        → Step c (left_by_server_hello suite bufs c key nonce ds)
    -- `get_ecdh_key` throws, in `sendClientHello` or after a hello of the client
    no_key_to_send : (nonce : ℕ) → Step c (record c { cl_nonce = nonce })
    no_key_to_answer :
        (key : Key) (nonce sv_nonce : ℕ)
        → Step c (record c { cl_nonce = nonce; other_eph_key = some key; sv_nonce = sv_nonce })
    -- `encryptMsg` or a check of a signature throws
    nothing_done : Step c c

  pub data Steps (c : Channel Cert Key Priv) : Channel Cert Key Priv → Type 0 where
    here : Steps c c
    then_step : {c' c'' : Channel Cert Key Priv} → Steps c c' → Step c' c'' → Steps c c''

  pub record Trusting (c : Channel Cert Key Priv) : Type 0 where
    pub trusted : (cert : Cert) → c.other_cert ≡ some cert → suite.trusted cert ≡ true
    pub known : c.peer_authenticated ≡ true → Known suite c

  Keeps-Trusting : (c c' : Channel Cert Key Priv) → Keeps suite c c' → Trusting c → Trusting c'
  Keeps-Trusting c c' (e, f) t = record {
    trusted = λ cert g. t.trusted cert (sym e ∙ g);
    known = λ g. elim (f g) [
      | inl before ↦ let (cert, h) = t.known before in (cert, e ∙ h)
      | inr (cert, h) ↦ (cert, e ∙ h)
    ];
  }

  set_other_cert-Trusting :
      (c : Channel Cert Key Priv) (cert : Cert)
      → Trusting c
      → Trusting (set_other_cert suite c cert).0
  unfolding set_other_cert
  set_other_cert-Trusting c cert t = elim (Bool-cases (suite.trusted cert)) [
    | inl good ↦ rw good (record {
      trusted = λ other e. let same : cert ≡ other = cc in rw (← same) good;
      known = λ now. (cert, refl);
    })
    | inr bad ↦ rw bad t
  ]

  Step-Trusting : (c c' : Channel Cert Key Priv) → Step c c' → Trusting c → Trusting c'
  unfolding send_msg send_client_hello
  Step-Trusting c c' (certified cert) t = set_other_cert-Trusting c cert t
  Step-Trusting c c' (message_handled o) t = Keeps-Trusting c c' (handle_msg-Keeps suite c o) t
  Step-Trusting c c' (message_sent m send o b e) t =
      let (sm, _, f) = >>=-eq-ok (encrypt_msg suite c m) _ e in
      Keeps-Trusting c c' (hand_over-Keeps suite c c' send sm o b (cc)) t
  Step-Trusting c c' (hello_sent nonce eph send o b e) t =
      Keeps-Trusting c c' (same_flag suite c c' (ground arith) (ground arith)) t
  Step-Trusting c c' (client_hello_handled key nonce sv_nonce eph send o b e) t =
      Keeps-Trusting c c' (client_hello-Keeps suite send c c' key nonce sv_nonce eph o b e) t
  Step-Trusting c c' (server_hello_handled key nonce ds send o b e) t =
      Keeps-Trusting c c' (server_hello-Keeps suite send c c' key nonce ds o b e) t
  Step-Trusting c c' (client_verify_handled ds b e) t =
      Keeps-Trusting c c' (client_verify-Keeps suite c c' ds b e) t
  Step-Trusting c c' (client_hello_thrown bufs key nonce sv_nonce eph send e) t =
      Keeps-Trusting c c' (left_by_client_hello-Keeps suite bufs c key nonce sv_nonce eph) t
  Step-Trusting c c' (server_hello_thrown bufs key nonce ds send e) t =
      Keeps-Trusting c c' (left_by_server_hello-Keeps suite bufs c key nonce ds) t
  Step-Trusting c c' (no_key_to_send nonce) t =
      Keeps-Trusting c c' (same_flag suite c c' refl refl) t
  Step-Trusting c c' (no_key_to_answer key nonce sv_nonce) t =
      Keeps-Trusting c c' (same_flag suite c c' refl refl) t
  Step-Trusting c c' nothing_done t = t

  Steps-Trusting : {c c' : Channel Cert Key Priv} → Steps c c' → Trusting c → Trusting c'
  Steps-Trusting here t = t
  Steps-Trusting (then_step run step) t = Step-Trusting _ _ step (Steps-Trusting run t)

  -- In every run from a new wrapper, whatever arrives, in whatever order its methods are called and
  -- whichever of them throw and are caught,
  -- the peer is taken as authenticated only when a certificate of the peer is there, which the store
  -- trusts.
  pub authenticated-trusted :
      (cert : Cert) (key : Priv) (c : Channel Cert Key Priv)
      → Steps (init suite cert key) c
      → c.peer_authenticated ≡ true
      → (other : Cert) × (c.other_cert ≡ some other) × (suite.trusted other ≡ true)
  unfolding init
  authenticated-trusted cert key c run now =
      let start : Trusting (init suite cert key) = record {
        trusted = λ other e. absurd (cc);
        known = λ e. absurd (cc);
      } in
      let t = Steps-Trusting run start in
      let (other, e) = t.known now in (other, e, t.trusted other e)
