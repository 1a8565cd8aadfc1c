-- ===== src/Secure/Delivery.antt =====
-- A message from `sendMsg` of src/security/secure_socket_wrapper.cpp through the socket of
-- src/network/socket_wrapper.cpp to `receiveAnyMsg` on the other side.
use four_in_a_row.Base.{ℕ, ◌≤◌, ◌≡◌, Bool, true, some, List, ◌++◌, length, take, drop}
use four_in_a_row.Wire.Result.{ok}
use four_in_a_row.Wire.Fields.{SslLaws}
use four_in_a_row.Wire.Layout.{WellFormed}
use four_in_a_row.Wire.Message.{Message}
use four_in_a_row.Socket.Blocking.{
  send_msg as socket_send, receive_any_msg as socket_receive, receive_any_msg-send_msg,
}
use four_in_a_row.Secure.{Suite, Channel, send_msg}
use four_in_a_row.Secure.Receive.{receive_any_msg}
use four_in_a_row.Secure.Transport.{Gcm, InStep, handle_msg-send_msg, send_msg-WellFormed}

module _ {Cert Key Priv : Type 0} (suite : Suite Cert Key Priv) (gcm : Gcm suite)
    (laws : SslLaws (suite.ssl)) where
  -- Between two sides that are in step, a well-formed message that `sendMsg` encrypts, and whose
  -- packet, of at most 8192 bytes, the socket sends, is the message that `receiveAnyMsg` returns on
  -- the other side, wherever the stream goes on and whatever lies in the buffer; and the sides are in
  -- step again.
  pub receive_any_msg-delivered :
      (s s' r : Channel Cert Key Priv) (m sm : Message Cert Key) (send : Message Cert Key → Bool)
      (sent : List ℕ → Bool) (pkt stale more : List ℕ)
      → InStep suite s r
      → WellFormed m
      → send_msg suite s m send ≡ ok (s', some sm, true)
      → socket_send (suite.ssl) sent sm ≡ ok (some pkt, true)
      → length pkt ≤ 8192
      → let stream = pkt ++ more in
        let q = receive_any_msg suite r (
          socket_receive
            (suite.ssl)
            stale
            (some (take 2 stream))
            (λ n. some (take n (drop 2 stream)))) in
        (q.1 ≡ ok m) × InStep suite s' q.0
  receive_any_msg-delivered s s' r m sm send sent pkt stale more step v h packed short =
      let good = send_msg-WellFormed suite gcm laws s s' r m sm send step v h in
      let arrives =
        receive_any_msg-send_msg (suite.ssl) laws sent sm pkt stale more true good packed short in
      rw arrives (handle_msg-send_msg suite gcm laws s s' r m sm send step v h)
