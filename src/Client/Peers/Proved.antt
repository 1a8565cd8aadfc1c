-- ===== src/Client/Peers/Proved.antt =====
-- With whom waitForPeer and connectToPeer of src/client/multi_player.cpp connect the user.
use four_in_a_row.Base.{
  refl, ap, sym, ◌∙◌, ℕ, zero, suc, ◌+◌, ◌≡◌, inl, inr, Bool, true, none, some, List, [], ◌∷◌,
  Bool-cases,
}
use four_in_a_row.Wire.Result.{Result}
use four_in_a_row.Wire.Message.{
  Message, start_game_message, client_hello, server_hello, client_verify, start_game_peer,
}
use four_in_a_row.Secure.{Suite, Channel, init, set_other_cert, send_msg}
use four_in_a_row.Secure.Handshake.{client, server, send_client_hello}
use four_in_a_row.Secure.Receive.{receive_msg}
use four_in_a_row.Secure.Peers.{
  succeeds, fails, crashes, ◌>>=◌, from_option, accept_client, connect_server, of_sent, on_message,
  answer_hello, answer_server, check_verify, handshake_server, handshake_client,
}
use four_in_a_row.Client.Peers.{wait_for_peer, try_connect, connect_to_peer, max_retries}
use four_in_a_row.Secure.Peers.Standing.{
  bind-succeeds, of_sent-succeeds, on_message-succeeds, receive_msg-standing, send_msg-standing,
}
use four_in_a_row.Secure.Peers.Signed.{
  Holds, Signed, Holds-same, set_other_cert-Holds, accept_client-Holds, answer_hello-cert,
  send_client_hello-cert, answer_server-Signed, answer_server-known, check_verify-Signed,
  receive_msg-Holds, Signed-same,
}

module _ {Cert Key Priv : Type 0} (suite : Suite Cert Key Priv) where
  try_connect-Holds :
      (cert : Cert) (connects : ℕ → Bool) (n k : ℕ) (c d : Channel Cert Key Priv)
      → try_connect suite (some cert) connects n k c ≡ succeeds d
      → Holds suite cert d
  unfolding try_connect connect_server
  try_connect-Holds cert connects zero k c d e = absurd (cc)
  try_connect-Holds cert connects (suc n) k c d e =
      let q = set_other_cert suite c cert in
      elim (Bool-cases q.1) [
        | inr bad ↦ try_connect-Holds cert connects n (k + 1) q.0 d (rw bad at e)
        | inl good ↦ elim (Bool-cases (connects k)) [
          | inr down ↦ try_connect-Holds cert connects n (k + 1) q.0 d (rw (good, down) at e)
          | inl up ↦
              let same : q.0 ≡ d = let f = (rw (good, up) at e) in cc in
              rw (← same) (set_other_cert-Holds suite c cert good)
        ]
      ]

  try_connect_unknown :
      (connects : ℕ → Bool) (n k : ℕ) (c d : Channel Cert Key Priv)
      → try_connect suite none connects n k c ≡ succeeds d
      → d.other_cert ≡ c.other_cert
  unfolding try_connect connect_server
  try_connect_unknown connects zero k c d e = absurd (cc)
  try_connect_unknown connects (suc n) k c d e = elim (Bool-cases (connects k)) [
    | inl up ↦ let same : c ≡ d = let f = (rw up at e) in cc in rw same refl
    | inr down ↦ try_connect_unknown connects n (k + 1) c d (rw down at e)
  ]

  module _ (send : Message Cert Key → Bool) (cert : Cert) where
    handshake_server-Signed :
        (s c : Channel Cert Key Priv) (hellos verifies : List (Result (Message Cert Key)))
        (nonce : ℕ) (eph : Priv)
        → Holds suite cert s
        → handshake_server suite send s hellos verifies nonce eph ≡ succeeds c
        → Signed suite server cert c
    unfolding handshake_server
    handshake_server-Signed s c hellos verifies nonce eph h e =
        let hello = receive_msg suite (client_hello ∷ []) s hellos in
        let (s', first, rest) =
          bind-succeeds (on_message suite fails (answer_hello suite send nonce eph) hello) _ e in
        let (m, answered) =
          on_message-succeeds suite fails (answer_hello suite send nonce eph) hello s' (λ f. cc)
            first in
        let h' =
          Holds-same suite cert hello.0 s'
            (answer_hello-cert suite send nonce eph hello.0 s' m answered)
            (receive_msg-Holds suite cert _ s hellos h) in
        let verify = receive_msg suite (client_verify ∷ []) s' verifies in
        let (m', checked) =
          on_message-succeeds suite crashes (check_verify suite send) verify c (λ f. cc) rest in
        check_verify-Signed suite send cert verify.0 c m'
          (receive_msg-Holds suite cert _ s' verifies h') checked

    handshake_client-Signed :
        (c c' : Channel Cert Key Priv) (hellos : List (Result (Message Cert Key))) (nonce : ℕ)
        (eph : Priv)
        → Holds suite cert c
        → handshake_client suite send c hellos nonce eph ≡ succeeds c'
        → Signed suite client cert c'
    unfolding handshake_client
    handshake_client-Signed c c' hellos nonce eph h e =
        let (d, sent, rest) =
          bind-succeeds (of_sent suite (send_client_hello suite send c nonce eph)) _ e in
        let h' =
          Holds-same suite cert c d (send_client_hello-cert suite send c d nonce eph sent) h in
        let hello = receive_msg suite (server_hello ∷ []) d hellos in
        let (m, answered) =
          on_message-succeeds suite fails (answer_server suite send) hello c' (λ f. cc) rest in
        answer_server-Signed suite send cert hello.0 c' m
          (receive_msg-Holds suite cert _ d hellos h') answered

    -- Whatever arrives, `waitForPeer` returns only a wrapper that holds the certificate it was given
    -- for the peer, which the store trusts and which verifies a signature of the names, the nonces
    -- and the keys of the wrapper, as its peer had to sign them, and whose peer is authenticated.
    pub wait_for_peer_proves :
        (binds : Bool) (my_cert : Cert) (key : Priv)
        (hellos verifies starts : List (Result (Message Cert Key))) (nonce : ℕ) (eph : Priv)
        (c : Channel Cert Key Priv)
        → wait_for_peer suite send binds my_cert key cert hellos verifies starts nonce eph
          ≡ succeeds c
        → Signed suite server cert c
    unfolding wait_for_peer
    wait_for_peer_proves binds my_cert key hellos verifies starts nonce eph c e =
        elim (Bool-cases binds) [
          | inr refused ↦ let f = (rw refused at e) in absurd (cc)
          | inl bound ↦
              let (s', first, rest) =
                bind-succeeds
                  (from_option (accept_client suite my_cert key cert)
                    >>= (λ s. handshake_server suite send s hellos verifies nonce eph))
                  _ (rw bound at e) in
              let (s, accepted, shaken) =
                bind-succeeds (from_option (accept_client suite my_cert key cert)) _ first in
              let signed =
                handshake_server-Signed s s' hellos verifies nonce eph
                  (accept_client-Holds suite my_cert key cert s accepted) shaken in
              let start = receive_msg suite (start_game_peer ∷ []) s' starts in
              let (m, started) =
                on_message-succeeds suite fails (λ d m. succeeds d) start c (λ f. cc) rest in
              let same : start.0 ≡ c = cc in
              rw (← same) (
                Signed-same suite server cert s' start.0 (receive_msg-standing suite _ s' starts)
                  signed)
        ]

    -- Whatever arrives, `connectToPeer` with the certificate of the peer returns only a wrapper that
    -- holds this certificate, which the store trusts and which verifies a signature of the names, the
    -- nonces and the keys of the wrapper, as its peer had to sign them, and whose peer is
    -- authenticated.
    pub connect_to_peer_proves :
        (my_cert : Cert) (key : Priv) (connects : ℕ → Bool)
        (hellos : List (Result (Message Cert Key))) (nonce : ℕ) (eph : Priv)
        (c : Channel Cert Key Priv)
        → connect_to_peer suite send my_cert key (some cert) connects hellos nonce eph ≡ succeeds c
        → Signed suite client cert c
    unfolding connect_to_peer
    connect_to_peer_proves my_cert key connects hellos nonce eph c e =
        let tries = try_connect suite (some cert) connects max_retries 0 (init suite my_cert key) in
        let (d', first, sent) =
          bind-succeeds (tries >>= (λ d. handshake_client suite send d hellos nonce eph)) _ e in
        let (d, connected, shaken) = bind-succeeds tries _ first in
        let signed =
          handshake_client-Signed d d' hellos nonce eph
            (try_connect-Holds cert connects max_retries 0 _ d connected) shaken in
        let (o, done) = of_sent-succeeds suite (send_msg suite d' start_game_message send) c sent in
        Signed-same suite client cert d' c
          (send_msg-standing suite d' c start_game_message send o true done) signed

  module _ (send : Message Cert Key → Bool) where
    -- Without a certificate nobody is connected to.
    pub connect_to_peer_unknown :
        (my_cert : Cert) (key : Priv) (connects : ℕ → Bool)
        (hellos : List (Result (Message Cert Key))) (nonce : ℕ) (eph : Priv)
        (c : Channel Cert Key Priv)
        → ¬ (connect_to_peer suite send my_cert key none connects hellos nonce eph ≡ succeeds c)
    unfolding connect_to_peer handshake_client init
    connect_to_peer_unknown my_cert key connects hellos nonce eph c e =
        let start = init suite my_cert key in
        let tries = try_connect suite none connects max_retries 0 start in
        let (d', first, sent) =
          bind-succeeds (tries >>= (λ d. handshake_client suite send d hellos nonce eph)) _ e in
        let (d, connected, shaken) = bind-succeeds tries _ first in
        let (d1, helloed, rest) =
          bind-succeeds (of_sent suite (send_client_hello suite send d nonce eph)) _ shaken in
        let hello = receive_msg suite (server_hello ∷ []) d1 hellos in
        let (m, answered) =
          on_message-succeeds suite fails (answer_server suite send) hello d' (λ f. cc) rest in
        let (other, known) = answer_server-known suite send hello.0 d' m answered in
        let same =
          ap (λ q. q.0.0) (receive_msg-standing suite (server_hello ∷ []) d1 hellos)
          ∙ send_client_hello-cert suite send d d1 nonce eph helloed
          ∙ try_connect_unknown connects max_retries 0 start d connected in
        let clash : none ≡ some other = sym same ∙ known in absurd (cc)
