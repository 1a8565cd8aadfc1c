-- ===== src/Wire/Message/Read.antt =====
-- The `read` methods of src/network/messages.cpp, and `readMessage`.
-- The memory begins at `buffer[0]`, and `len` is the length that the caller names. A method starts
-- at the index 1. `malloc` is taken to succeed.
use four_in_a_row.Base.{ℕ, ◌+◌, ◌-◌, ◌*◌, ◌%◌, ◌^◌, min, none, some, List, [], ◌∷◌, leb, get_elem?}
use four_in_a_row.Wire.Result.{Result, ok, failed, fault, ◌>>=◌, ◌>>◌, fail_if}
use four_in_a_row.Wire.Buffer.{
  Cursor, read_bytes, read_uint8, read_uint16, read_uint32, read_bool, read_buf,
}
use four_in_a_row.Wire.Fields.{Ssl, read_username, read_sock_addr, buf_to_der, max_username_length}
use four_in_a_row.Wire.Message.{
  MessageType, secure, client_hello, server_hello, client_verify, start_game_peer, move, register,
  challenge, game_end, users_list, users_list_req, challenge_fwd, challenge_resp, game_start,
  game_cancel, cert_req, certificate, message_types, Message, secure_message, client_hello_message,
  server_hello_message, client_verify_message, start_game_message, move_message, register_message,
  challenge_message, game_end_message, users_list_message, users_list_request_message,
  challenge_forward_message, challenge_response_message, game_start_message, game_cancel_message,
  certificate_request_message, certificate_message,
}
use four_in_a_row.Wire.Message.Write.{max_users}

abbrev pub tag_size : ℕ
tag_size = 16

-- The result of a read whose cursor is no longer of use.
abbrev pub finish {ℓ κ} : {A : Type ℓ} {B : Type κ} → (A → B) → Result (A × Cursor) → Result B
finish f r = r >>= λ p. ok (f p.0)

-- `ct_size` is a `uint16_t`, so a message shorter than 17 bytes makes it wrap.
unfoldable pub ct_size : ℕ → ℕ
ct_size len = (2 ^ 16 + len - 1 - tag_size) % 2 ^ 16

unfoldable pub maxsize : ℕ → ℕ
maxsize len = min ((max_username_length + 1) * max_users) (len - 1)

module _ {Cert Key : Type 0} where
  unfoldable pub read_move : Cursor → Result (Message Cert Key)
  read_move c = finish move_message (read_uint8 c)

  unfoldable pub read_register : Cursor → Result (Message Cert Key)
  read_register c = finish register_message (read_username c)

  unfoldable pub read_challenge : Cursor → Result (Message Cert Key)
  read_challenge c = finish challenge_message (read_username c)

  -- The `string` is made of all the bytes, zeros included.
  unfoldable pub read_users_list : Cursor → Result (Message Cert Key)
  unfolding maxsize
  read_users_list c = do
    fail_if (leb (maxsize c.len) 0)
    finish users_list_message (read_bytes (maxsize c.len) c)

  unfoldable pub read_users_list_request : Cursor → Result (Message Cert Key)
  read_users_list_request c = finish users_list_request_message (read_uint32 c)

  unfoldable pub read_challenge_forward : Cursor → Result (Message Cert Key)
  read_challenge_forward c = finish challenge_forward_message (read_username c)

  unfoldable pub read_challenge_response : Cursor → Result (Message Cert Key)
  read_challenge_response c = do
    (response, c1) ← read_bool c
    (port, c2) ← read_uint16 c1
    finish (λ username. challenge_response_message username response port) (read_username c2)

  unfoldable pub read_game_cancel : Cursor → Result (Message Cert Key)
  read_game_cancel c = finish game_cancel_message (read_username c)

  unfoldable pub read_secure : Cursor → Result (Message Cert Key)
  unfolding ct_size
  read_secure c = do
    (ct, c1) ← read_buf (ct_size c.len) c
    finish (secure_message ct) (read_buf tag_size c1)

  unfoldable pub read_client_verify : Cursor → Result (Message Cert Key)
  read_client_verify c = do
    (ds_size, c1) ← read_uint32 c
    finish client_verify_message (read_buf ds_size c1)

module _ {Cert Key : Type 0} (ssl : Ssl Cert Key) where
  unfoldable pub read_game_start : Cursor → Result (Message Cert Key)
  read_game_start c = do
    (addr, c1) ← read_sock_addr c
    (username, c2) ← read_username c1
    finish (game_start_message username addr) (buf_to_der ssl.d2i_x509 c2)

  unfoldable pub read_client_hello : Cursor → Result (Message Cert Key)
  read_client_hello c = do
    (nonce, c1) ← read_uint32 c
    (my_id, c2) ← read_username c1
    (other_id, c3) ← read_username c2
    finish (λ eph_key. client_hello_message eph_key nonce my_id other_id)
        (buf_to_der ssl.d2i_pubkey c3)

  unfoldable pub read_server_hello : Cursor → Result (Message Cert Key)
  read_server_hello c = do
    (nonce, c1) ← read_uint32 c
    (my_id, c2) ← read_username c1
    (other_id, c3) ← read_username c2
    (ds_size, c4) ← read_uint32 c3
    (ds, c5) ← read_buf ds_size c4
    finish (λ eph_key. server_hello_message eph_key nonce my_id other_id ds)
        (buf_to_der ssl.d2i_pubkey c5)

  unfoldable pub read_certificate : Cursor → Result (Message Cert Key)
  read_certificate c = finish certificate_message (buf_to_der ssl.d2i_x509 c)

  -- The virtual method `read` of the object that the `switch` made.
  unfoldable pub read_body : MessageType → Cursor → Result (Message Cert Key)
  read_body secure c = read_secure c
  read_body client_hello c = read_client_hello c
  read_body server_hello c = read_server_hello c
  read_body client_verify c = read_client_verify c
  read_body start_game_peer c = ok start_game_message
  read_body move c = read_move c
  read_body register c = read_register c
  read_body challenge c = read_challenge c
  read_body game_end c = ok game_end_message
  read_body users_list c = read_users_list c
  read_body users_list_req c = read_users_list_request c
  read_body challenge_fwd c = read_challenge_forward c
  read_body challenge_resp c = read_challenge_response c
  read_body game_start c = read_game_start c
  read_body game_cancel c = read_game_cancel c
  read_body cert_req c = ok certificate_request_message
  read_body certificate c = read_certificate c

  -- `failed` is the result NULL.
  unfoldable pub read_message : List ℕ → ℕ → Result (Message Cert Key)
  read_message [] len = fault
  read_message (b ∷ mem) len = elim (get_elem? message_types b) [
    | none ↦ failed
    | some t ↦ read_body t (record { len = len; pos = 1; rest = mem })
  ]
