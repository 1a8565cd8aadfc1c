-- ===== src/Secure/Tests.antt =====
-- The theorems on src/security/secure_socket_wrapper.cpp at one client and one server.
use four_in_a_row.Base.{ℕ, ◌+◌, ◌≡◌, ◌≢◌, refl, true, some, List, [], ◌∷◌, replicate, arith}
use four_in_a_row.Wire.Result.{ok}
use four_in_a_row.Wire.Fields.{c_str}
use four_in_a_row.Wire.Message.{
  Message, server_hello, server_hello_message, get_type, client_verify_message, move_message,
  secure_message,
}
use four_in_a_row.Wire.Message.Write.{write, write_secure, write_move, write_type}
use four_in_a_row.Wire.Buffer.{write_buf, write_uint8, read_uint8}
use four_in_a_row.Wire.Message.Read.{read_message, read_body, read_move}
use four_in_a_row.Secure.{
  Channel, init, set_other_cert, update_iv, send_msg, handle_msg, encrypt_msg, sealed, make_aad,
  decrypt_msg, opened,
}
use four_in_a_row.Secure.Transport.{InStep, handle_msg-send_msg}
use four_in_a_row.Secure.Guard.{HandedOn, handle_msg_guards}
use four_in_a_row.Secure.Agreement.{Prepared, handshake, handshake_agrees}
use four_in_a_row.Secure.Handshake.{
  client, server, send_client_hello, generate_keys, check_signature, build_msg_to_sign, msg_to_sign,
  put_key, signed_name, send_client_verify, make_signature, hkdf, shared_secret, key_label,
  iv_label, handle_server_hello, handle_client_verify,
}
use four_in_a_row.Secure.Authentic.{Verified, client_authenticates, server_authenticates}
use four_in_a_row.Base.{◌++◌, take, drop}
use four_in_a_row.Socket.{frame}
use four_in_a_row.Socket.Blocking.{send_msg as socket_send, receive_any_msg as socket_receive}
use four_in_a_row.Secure.Delivery.{receive_any_msg-delivered}
use four_in_a_row.Secure.Receive.{receive_any_msg, receive_msg, receive_msg_first}
use four_in_a_row.Secure.Trust.{
  Steps, here, then_step, certified, hello_sent, server_hello_handled, authenticated-trusted,
}
use four_in_a_row.Socket.Blocking.{got}
use four_in_a_row.Secure.Iv.{update_iv_ne}
use four_in_a_row.Secure.Sums.{
  sums, total, a_client, a_server, tag_of, sums-SslLaws, sums-Gcm, key-Signer, key-Encodes,
}

a_Prepared : Prepared sums a_client a_server 5 6
unfolding init set_other_cert
a_Prepared = record {
  fresh = refl;
  client_out = refl;
  server_out = refl;
  client_name = refl;
  server_name = refl;
  sent = refl;
  received = refl;
  client_cert = 98;
  server_cert = 99;
  has_client_cert = refl;
  has_server_cert = refl;
  client_signer = key-Signer 98;
  server_signer = key-Signer 99;
  client_key = key-Encodes 5;
  server_key = key-Encodes 6;
  secret = 11 ∷ [];
  client_secret = refl;
  server_secret = refl;
  kdf = λ info n. replicate n (11 + total info);
  derived = λ info n. refl;
}

handshake_agrees_example :
    (c' : Channel ℕ ℕ ℕ) × (s' : Channel ℕ ℕ ℕ) × (handshake sums a_client a_server 1 5 2 6
      ≡ ok (c', s'))
    × InStep sums c' s'
    × InStep sums s' c'
handshake_agrees_example = handshake_agrees sums a_client a_server 1 2 5 6 a_Prepared

update_iv_ne_example : update_iv 255 (replicate 12 7) ≢ update_iv 256 (replicate 12 7)
update_iv_ne_example =
    update_iv_ne (replicate 12 7) 255 256 (omega arith) (omega arith) (omega arith) (omega arith)

-- Two sides that have shared a key.
abbrev sending : Channel ℕ ℕ ℕ
sending = record a_client {
  peer_authenticated = true;
  send_key = 1 ∷ 2 ∷ [];
  send_iv_static = replicate 12 7;
  send_seq_num = 300;
}

abbrev receiving : Channel ℕ ℕ ℕ
receiving = record a_server {
  peer_authenticated = true;
  recv_key = 1 ∷ 2 ∷ [];
  recv_iv_static = replicate 12 7;
  recv_seq_num = 300;
}

in_step : InStep sums sending receiving
in_step = record { sender = refl; receiver = refl; key = refl; iv = refl; counter = refl }

abbrev a_move : Message ℕ ℕ
a_move = move_message 3

abbrev sealed_move : Message ℕ ℕ
sealed_move = secure_message (5 ∷ 3 ∷ []) (tag_of (1 ∷ 2 ∷ []) (update_iv 300 (replicate 12 7)))

handle_msg-send_msg_example :
    let q = handle_msg sums receiving (some sealed_move) in
    (q.1 ≡ ok a_move) × InStep sums (record sending { send_seq_num = 301 }) q.0
unfolding send_msg encrypt_msg sealed update_iv make_aad write write_move write_type write_uint8
handle_msg-send_msg_example =
    handle_msg-send_msg sums sums-Gcm sums-SslLaws sending (record sending { send_seq_num = 301 })
      receiving a_move sealed_move (λ m. true) in_step (omega arith) refl

handle_msg_guards_example :
    HandedOn sums sums-Gcm receiving sealed_move a_move (record receiving { recv_seq_num = 301 })
unfolding handle_msg decrypt_msg opened update_iv make_aad read_message read_body read_move
    read_uint8
handle_msg_guards_example =
    handle_msg_guards sums sums-Gcm receiving (record receiving { recv_seq_num = 301 }) sealed_move
      a_move refl

-- The two sides after the hello of the client.
abbrev waiting_server : Channel ℕ ℕ ℕ
waiting_server = record a_server {
  cl_nonce = 1;
  sv_nonce = 2;
  my_eph_key = some 6;
  other_eph_key = some 5;
}

abbrev waiting_client : Channel ℕ ℕ ℕ
waiting_client = record a_client { cl_nonce = 1; my_eph_key = some 5 }

server_authenticated : Verified sums server waiting_server (309 ∷ [])
unfolding handle_client_verify check_signature build_msg_to_sign msg_to_sign put_key signed_name
    c_str init set_other_cert
server_authenticated =
    let checked : handle_client_verify sums waiting_server (309 ∷ [])
        ≡ ok (record waiting_server { peer_authenticated = true }, true) =
      refl in
    server_authenticates sums waiting_server (record waiting_server { peer_authenticated = true })
      (309 ∷ []) true refl checked refl

abbrev material : List ℕ → ℕ → List ℕ
material label n = replicate n (14 + total label)

abbrev ready_client : Channel ℕ ℕ ℕ
ready_client = record waiting_client {
  sv_nonce = 2;
  other_eph_key = some 6;
  send_key = material (key_label client) 16;
  recv_key = material (key_label server) 16;
  send_iv_static = material (iv_label client) 12;
  recv_iv_static = material (iv_label server) 12;
}

client_authenticated :
    (k : Channel ℕ ℕ ℕ) × (generate_keys sums client
        (record waiting_client { sv_nonce = 2; other_eph_key = some 6 })
      ≡ ok k)
    × Verified sums client k (310 ∷ [])
unfolding handle_server_hello generate_keys check_signature build_msg_to_sign msg_to_sign put_key
    signed_name c_str init set_other_cert send_client_verify make_signature hkdf shared_secret
client_authenticated =
    client_authenticates sums waiting_client (record ready_client { peer_authenticated = true }) 6 2
      (310 ∷ []) (some (client_verify_message (309 ∷ []))) true (λ m. true) refl refl refl

authenticates_run : Steps sums (init sums 98 98) (record ready_client { peer_authenticated = true })
unfolding init set_other_cert send_client_hello handle_server_hello generate_keys check_signature
    build_msg_to_sign msg_to_sign put_key signed_name c_str send_client_verify make_signature hkdf
    shared_secret
authenticates_run =
    then_step
      (then_step (then_step here (certified 99))
        (hello_sent {c' = waiting_client} 1 5 (λ m. true) _ true refl))
      (server_hello_handled {c' = record ready_client { peer_authenticated = true }} 6 2 (310 ∷ [])
        (λ m. true) (some (client_verify_message (309 ∷ []))) true refl)

authenticated-trusted_example : (other : ℕ) × (some 99 ≡ some other) × (true ≡ true)
unfolding init set_other_cert
authenticated-trusted_example =
    authenticated-trusted sums 98 98 (record ready_client { peer_authenticated = true })
      authenticates_run refl

-- A move and an encrypted message come before the hello of the server.
receive_msg_first_example :
    receive_msg sums (server_hello ∷ []) waiting_client (
      ok a_move
      ∷ ok sealed_move
      ∷ ok (server_hello_message 6 2 (99 ∷ []) (98 ∷ []) (310 ∷ []))
      ∷ [])
    ≡ (waiting_client, got (server_hello_message 6 2 (99 ∷ []) (98 ∷ []) (310 ∷ [])))
unfolding init set_other_cert handle_msg get_type
receive_msg_first_example =
    receive_msg_first sums (server_hello ∷ []) waiting_client waiting_client
      (a_move ∷ sealed_move ∷ []) (server_hello_message 6 2 (99 ∷ []) (98 ∷ []) (310 ∷ []))
      (server_hello_message 6 2 (99 ∷ []) (98 ∷ []) (310 ∷ [])) [] refl ((λ e. e), ((λ e. e), tt))
      refl

abbrev move_packet : List ℕ
move_packet = 0 ∷ 21 ∷ 0 ∷ 5 ∷ 3 ∷ tag_of (1 ∷ 2 ∷ []) (update_iv 300 (replicate 12 7))

receive_any_msg-delivered_example :
    let stream = move_packet ++ (0 ∷ 3 ∷ []) in
    let q = receive_any_msg sums receiving (
      socket_receive
        (sums.ssl)
        (9 ∷ [])
        (some (take 2 stream))
        (λ n. some (take n (drop 2 stream)))) in
    (q.1 ≡ ok a_move) × InStep sums (record sending { send_seq_num = 301 }) q.0
unfolding send_msg encrypt_msg sealed update_iv make_aad write write_move write_type write_uint8
    socket_send frame write_secure write_buf
receive_any_msg-delivered_example =
    receive_any_msg-delivered sums sums-Gcm sums-SslLaws sending
      (record sending { send_seq_num = 301 }) receiving a_move sealed_move (λ m. true) (λ p. true)
      move_packet (9 ∷ []) (0 ∷ 3 ∷ []) in_step (omega arith) refl refl (omega arith)
