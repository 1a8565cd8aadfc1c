-- ===== src/Secure/Receive.antt =====
-- How src/security/secure_socket_wrapper.cpp waits for a message: receiveAnyMsg and receiveMsg.
use four_in_a_row.Base.{
  ℕ, ◌≢◌, ◌≡◌, refl, Bool, false, not, ◌&&◌, none, some, List, [], ◌∷◌, ◌++◌, ◌==◌, if◌then◌else◌,
  map, All, arith,
}
use four_in_a_row.Wire.Result.{Result, ok, failed, raised, fault}
use four_in_a_row.Wire.Message.{
  Message, MessageType, secure_message, client_hello_message, server_hello_message,
  client_verify_message, certificate_request_message, certificate_message,
}
use four_in_a_row.Socket.Blocking.{Waited, null, got, receive_loop, has_type}
use four_in_a_row.Secure.{Suite, Channel, decrypt_msg, handle_msg}
use four_in_a_row.Secure.Guard.{InClear}

module _ {Cert Key Priv : Type 0} (suite : Suite Cert Key Priv) where
  -- `handleMsg` behind the socket's own `receiveAnyMsg`.
  abbrev pub receive_any_msg :
      Channel Cert Key Priv
      → Result (Message Cert Key)
      → Channel Cert Key Priv × Result (Message Cert Key)
  receive_any_msg c (ok m) = handle_msg suite c (some m)
  receive_any_msg c failed = handle_msg suite c none
  receive_any_msg c raised = (c, raised)
  receive_any_msg c fault = (c, fault)

  unfoldable pub receive_msg :
      List MessageType
      → Channel Cert Key Priv
      → List (Result (Message Cert Key))
      → Channel Cert Key Priv × Waited (Message Cert Key)
  receive_msg types c rs = receive_loop receive_any_msg (has_type types) c rs

  -- A message that may not come before the peer is authenticated.
  abbrev pub Unwanted : Channel Cert Key Priv → Message Cert Key → Type 0
  Unwanted c m = InClear c m → ⊥

  refused : {A : Type 0} (b : Bool) (x y : A) → b ≡ false → (if not b then x else y) ≡ x
  refused b x y e = rw e refl

  decrypt_msg_refused :
      (c : Channel Cert Key Priv) (ct tag : List ℕ)
      → c.peer_authenticated ≡ false
      → decrypt_msg suite c ct tag ≡ failed
  unfolding decrypt_msg
  decrypt_msg_refused c ct tag out = refused c.peer_authenticated _ _ out

  dropped :
      (c : Channel Cert Key Priv) (m : Message Cert Key)
      → c.peer_authenticated ≡ false
      → Unwanted c m
      → handle_msg suite c (some m) ≡ (c, failed)
  unfolding handle_msg
  dropped c (secure_message ct tag) out u = rw (decrypt_msg_refused c ct tag out) refl
  dropped c (client_hello_message key nonce my_id other_id) out u =
      let second : c.cl_nonce ≢ 0 = λ z. u (z, out) in
      let test : (c.cl_nonce == 0 && not c.peer_authenticated) ≡ false = ground (arith, second) in
      rw test refl
  dropped c (server_hello_message key nonce my_id other_id ds) out u = absurd (u out)
  dropped c (client_verify_message ds) out u = absurd (u out)
  dropped c (certificate_message cert) out u = absurd (u tt)
  dropped c certificate_request_message out u = absurd (u tt)
  dropped c _ out u = refl

  receive_msg_drops :
      (types : List MessageType) (c : Channel Cert Key Priv) (ms : List (Message Cert Key))
      (rs : List (Result (Message Cert Key)))
      → c.peer_authenticated ≡ false
      → All (Unwanted c) ms
      → receive_msg types c (map ok ms ++ rs) ≡ receive_msg types c rs
  unfolding receive_msg receive_loop
  receive_msg_drops types c [] rs out u = refl
  receive_msg_drops types c (m ∷ ms) rs out u =
      rw (dropped c m out u.0) (receive_msg_drops types c ms rs out u.1)

  -- A side that has not authenticated its peer lets every message pass that has no place before
  -- that, encrypted ones included, and stays as it is; the first message that `handleMsg` hands on
  -- ends the wait: it is returned when its type is one of those waited for, otherwise NULL is.
  pub receive_msg_first :
      (types : List MessageType) (c c' : Channel Cert Key Priv) (ms : List (Message Cert Key))
      (raw m : Message Cert Key) (rs : List (Result (Message Cert Key)))
      → c.peer_authenticated ≡ false
      → All (Unwanted c) ms
      → handle_msg suite c (some raw) ≡ (c', ok m)
      → receive_msg types c (map ok ms ++ (ok raw ∷ rs))
        ≡ (c', if has_type types m then got m else null)
  unfolding receive_msg receive_loop
  receive_msg_first types c c' ms raw m rs out u e =
      rw (receive_msg_drops types c ms (ok raw ∷ rs) out u, e) refl
