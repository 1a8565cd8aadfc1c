-- ===== src/Client/Peers/Sides.antt =====
-- The two sides of a game for the tests of src/client/multi_player.cpp and src/client/client.cpp.
use four_in_a_row.Base.{ℕ, ◌+◌, true, some, List, [], ◌∷◌, replicate}
use four_in_a_row.Wire.Result.{Result, ok}
use four_in_a_row.Wire.Message.{
  Message, client_hello_message, server_hello_message, client_verify_message, secure_message,
}
use four_in_a_row.Secure.{Channel, update_iv}
use four_in_a_row.Secure.Handshake.{client, server, key_label, iv_label}
use four_in_a_row.Secure.Sums.{total, tag_of, a_client, a_server}

abbrev pub material : List ℕ → ℕ → List ℕ
material label n = replicate n (14 + total label)

abbrev pub connected : Channel ℕ ℕ ℕ
connected = record a_client {
  cl_nonce = 1;
  sv_nonce = 2;
  my_eph_key = some 5;
  other_eph_key = some 6;
  send_key = material (key_label client) 16;
  recv_key = material (key_label server) 16;
  send_iv_static = material (iv_label client) 12;
  recv_iv_static = material (iv_label server) 12;
  peer_authenticated = true;
  send_seq_num = 1;
}

abbrev pub hello_back : List (Result (Message ℕ ℕ))
hello_back = ok (server_hello_message 6 2 (99 ∷ []) (98 ∷ []) (310 ∷ [])) ∷ []

abbrev pub joined : Channel ℕ ℕ ℕ
joined = record a_server {
  cl_nonce = 1;
  sv_nonce = 2;
  my_eph_key = some 6;
  other_eph_key = some 5;
  send_key = material (key_label server) 16;
  recv_key = material (key_label client) 16;
  send_iv_static = material (iv_label server) 12;
  recv_iv_static = material (iv_label client) 12;
  peer_authenticated = true;
  recv_seq_num = 1;
}

abbrev pub hello : List (Result (Message ℕ ℕ))
hello = ok (client_hello_message 5 1 (98 ∷ []) (99 ∷ [])) ∷ []

abbrev pub verify : List (Result (Message ℕ ℕ))
verify = ok (client_verify_message (309 ∷ [])) ∷ []

abbrev pub start : List (Result (Message ℕ ℕ))
start =
    ok (
      secure_message (4 ∷ [])
        (tag_of (material (key_label client) 16) (update_iv 0 (material (iv_label client) 12))))
    ∷ []
