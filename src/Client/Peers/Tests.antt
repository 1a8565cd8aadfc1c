-- ===== src/Client/Peers/Tests.antt =====
-- waitForPeer and connectToPeer of src/client/multi_player.cpp for the two sides of a game.
use four_in_a_row.Base.{◌≡◌, refl, true, some, [], ◌∷◌, ◌==◌}
use four_in_a_row.Wire.Result.{ok}
use four_in_a_row.Wire.Fields.{c_str}
use four_in_a_row.Wire.Message.{get_type, server_hello_message}
use four_in_a_row.Wire.Message.Write.{write, write_type, write_start_game}
use four_in_a_row.Wire.Message.Read.{read_message, read_body}
use four_in_a_row.Wire.Buffer.{write_uint8, read_uint8}
use four_in_a_row.Socket.Blocking.{receive_loop}
use four_in_a_row.Secure.{
  init, set_other_cert, update_iv, send_msg, handle_msg, encrypt_msg, sealed, make_aad, decrypt_msg,
  opened,
}
use four_in_a_row.Secure.Handshake.{
  client, server, send_client_hello, generate_keys, check_signature, build_msg_to_sign, msg_to_sign,
  put_key, signed_name, send_client_verify, send_server_hello, make_signature, hkdf, shared_secret,
  handle_server_hello, handle_client_hello, handle_client_verify,
}
use four_in_a_row.Secure.Receive.{receive_msg}
use four_in_a_row.Secure.Peers.{
  succeeds, fails, accept_client, connect_server, handshake_server, handshake_client,
}
use four_in_a_row.Secure.Peers.Signed.{Signed}
use four_in_a_row.Secure.Sums.{sums}
use four_in_a_row.Client.Peers.{wait_for_peer, try_connect, connect_to_peer}
use four_in_a_row.Client.Peers.Proved.{wait_for_peer_proves, connect_to_peer_proves}
use four_in_a_row.Client.Peers.Sides.{connected, hello_back, joined, hello, verify, start}

-- The first `connect` fails.
connects :
    connect_to_peer sums (λ m. true) 98 98 (some 99) (λ k. k == 1) hello_back 1 5
    ≡ succeeds connected
unfolding connect_to_peer try_connect connect_server handshake_client init set_other_cert
    send_client_hello handle_server_hello generate_keys check_signature build_msg_to_sign
    msg_to_sign put_key signed_name c_str send_client_verify make_signature hkdf shared_secret
    receive_msg receive_loop handle_msg get_type send_msg encrypt_msg sealed write write_start_game
    write_type write_uint8 make_aad update_iv
connects = refl

connect_to_peer_proves_example : Signed sums client 99 connected
connect_to_peer_proves_example =
    connect_to_peer_proves sums (λ m. true) 99 98 98 (λ k. k == 1) hello_back 1 5 connected connects

-- A signature of something else.
refuses :
    connect_to_peer sums
      (λ m. true)
      98
      98
      (some 99)
      (λ k. true)
      (ok (server_hello_message 6 2 (99 ∷ []) (98 ∷ []) (311 ∷ [])) ∷ [])
      1
      5
    ≡ fails
unfolding connect_to_peer try_connect connect_server handshake_client init set_other_cert
    send_client_hello handle_server_hello generate_keys check_signature build_msg_to_sign
    msg_to_sign put_key signed_name c_str hkdf shared_secret receive_msg receive_loop handle_msg
    get_type
refuses = refl

waits : wait_for_peer sums (λ m. true) true 99 99 98 hello verify start 2 6 ≡ succeeds joined
unfolding wait_for_peer accept_client handshake_server init set_other_cert handle_client_hello
    send_server_hello handle_client_verify generate_keys check_signature build_msg_to_sign
    msg_to_sign put_key signed_name c_str make_signature hkdf shared_secret receive_msg receive_loop
    handle_msg get_type decrypt_msg opened read_message read_body read_uint8 make_aad update_iv
waits = refl

wait_for_peer_proves_example : Signed sums server 98 joined
wait_for_peer_proves_example =
    wait_for_peer_proves sums (λ m. true) 98 true 99 99 hello verify start 2 6 joined waits
