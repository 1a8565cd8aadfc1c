-- ===== src/Secure/Peers.antt =====
-- One side of a connection: connectServer, acceptClient, handshakeClient and handshakeServer of
-- src/security/secure_socket_wrapper.cpp, with what the socket answers while each call waits.
pub mod Standing
pub mod Signed
use four_in_a_row.Base.{
  ℕ, ◌≡◌, refl, sym, ap, ◌∙◌, inl, inr, Bool, true, false, Option, none, some, List, [], ◌∷◌, ◌==◌,
  if◌then◌else◌, Bool-cases,
}
use four_in_a_row.Wire.Result.{Result, ok, failed, raised, fault}
use four_in_a_row.Wire.Message.{
  Message, MessageType, client_hello, server_hello, client_verify, client_hello_message,
  server_hello_message, client_verify_message, secure_message,
}
use four_in_a_row.Socket.Blocking.{
  Waited, blocked, null, crashed, got, after, receive_loop, has_type,
}
use four_in_a_row.Secure.{Suite, Channel, init, set_other_cert, counted, decrypt_msg, handle_msg}
use four_in_a_row.Secure.Handshake.{
  Sent, client, server, send_client_hello, handle_client_hello, handle_server_hello,
  handle_client_verify,
}
use four_in_a_row.Secure.Receive.{receive_any_msg, receive_msg}

-- How a call ends: with 0 and the wrapper, with an error code or NULL, with a thrown string, at a
-- NULL pointer, or not yet.
pub data Attempt (A : Type 0) : Type 0 where
  succeeds : A → Attempt A
  fails throws crashes waiting : Attempt A

infixl 5 ◌>>=◌
abbrev pub ◌>>=◌ : {A B : Type 0} → Attempt A → (A → Attempt B) → Attempt B
succeeds a >>= f = f a
fails >>= f = fails
throws >>= f = throws
crashes >>= f = crashes
waiting >>= f = waiting

-- A NULL, and the test for it.
abbrev pub from_option : {A : Type 0} → Option A → Attempt A
from_option none = fails
from_option (some a) = succeeds a

module _ {Cert Key Priv : Type 0} (suite : Suite Cert Key Priv) where
  -- `acceptClient` with the certificate of the client, on a new connection.
  unfoldable pub accept_client : Cert → Priv → Cert → Option (Channel Cert Key Priv)
  accept_client my_cert my_priv_key other_cert =
      let q = set_other_cert suite (init suite my_cert my_priv_key) other_cert in
      if q.1 then some q.0 else none

  -- `connectServer` with the certificate of the host, or without one, and whether the socket's own
  -- call succeeds; says whether the result is 0.
  unfoldable pub connect_server :
      Channel Cert Key Priv → Option Cert → Bool → Channel Cert Key Priv × Bool
  connect_server c none connects = (c, connects)
  connect_server c (some cert) connects =
      let q = set_other_cert suite c cert in (q.0, if q.1 then connects else false)

  -- A method that sends a message, and `handleClientVerify`.
  abbrev pub of_sent : Sent suite → Attempt (Channel Cert Key Priv)
  of_sent (ok (c, o, true)) = succeeds c
  of_sent (ok (c, o, false)) = fails
  of_sent failed = fails
  of_sent raised = throws
  of_sent fault = crashes

  abbrev pub of_checked : Result (Channel Cert Key Priv × Bool) → Attempt (Channel Cert Key Priv)
  of_checked (ok (c, true)) = succeeds c
  of_checked (ok (c, false)) = fails
  of_checked failed = fails
  of_checked raised = throws
  of_checked fault = crashes

  -- What is done with the message that `receiveMsg` returns, and with NULL.
  abbrev pub on_message :
      Attempt (Channel Cert Key Priv)
      → (Channel Cert Key Priv → Message Cert Key → Attempt (Channel Cert Key Priv))
      → Channel Cert Key Priv × Waited (Message Cert Key)
      → Attempt (Channel Cert Key Priv)
  on_message absent use_it (c, got m) = use_it c m
  on_message absent use_it (c, null) = absent
  on_message absent use_it (c, crashed) = crashes
  on_message absent use_it (c, blocked) = waiting

  module _ (send : Message Cert Key → Bool) where
    abbrev pub answer_hello :
        ℕ → Priv → Channel Cert Key Priv → Message Cert Key → Attempt (Channel Cert Key Priv)
    answer_hello sv_nonce eph s (client_hello_message key nonce my_id other_id) =
        of_sent (handle_client_hello suite send s key nonce sv_nonce eph)
    answer_hello sv_nonce eph s m = fails

    abbrev pub answer_server :
        Channel Cert Key Priv → Message Cert Key → Attempt (Channel Cert Key Priv)
    answer_server c (server_hello_message key nonce my_id other_id ds) =
        of_sent (handle_server_hello suite send c key nonce ds)
    answer_server c m = fails

    -- `handleClientVerify` does not test for NULL.
    abbrev pub check_verify :
        Channel Cert Key Priv → Message Cert Key → Attempt (Channel Cert Key Priv)
    check_verify s (client_verify_message ds) = of_checked (handle_client_verify suite s ds)
    check_verify s m = crashes

    unfoldable pub handshake_server :
        Channel Cert Key Priv
        → List (Result (Message Cert Key))
        → List (Result (Message Cert Key))
        → ℕ
        → Priv
        → Attempt (Channel Cert Key Priv)
    handshake_server s hellos verifies sv_nonce eph =
        on_message fails (answer_hello sv_nonce eph)
          (receive_msg suite (client_hello ∷ []) s hellos)
        >>= λ s'.
            on_message crashes check_verify (receive_msg suite (client_verify ∷ []) s' verifies)

    unfoldable pub handshake_client :
        Channel Cert Key Priv
        → List (Result (Message Cert Key))
        → ℕ
        → Priv
        → Attempt (Channel Cert Key Priv)
    handshake_client c hellos nonce eph =
        of_sent (send_client_hello suite send c nonce eph) >>= λ c'.
        on_message fails answer_server (receive_msg suite (server_hello ∷ []) c' hellos)
