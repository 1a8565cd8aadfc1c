-- ===== src/Wire/Message/Write.antt =====
-- The `write` methods of src/network/messages.cpp. `failed` is their result 0, and otherwise they
-- return the number of the bytes written.
use four_in_a_row.Base.{
  ℕ, ◌+◌, ◌-◌, ◌*◌, ◌/◌, Bool, List, [], ◌++◌, ltb, length, take, replicate, min,
}
use four_in_a_row.Wire.Result.{Result, ok, ◌>>=◌, ◌>>◌, fail_if}
use four_in_a_row.Wire.Buffer.{
  Writer, write_uint8, write_uint16, write_uint32, write_bool, write_buf,
}
use four_in_a_row.Wire.Fields.{
  SockAddr, Ssl, c_str, write_username, write_sock_addr, der_to_buf, max_username_length,
}
use four_in_a_row.Wire.Message.{
  MessageType, secure, client_hello, server_hello, client_verify, start_game_peer, move, register,
  challenge, game_end, users_list, users_list_req, challenge_fwd, challenge_resp, game_start,
  game_cancel, cert_req, certificate, type_code, Message, secure_message, client_hello_message,
  server_hello_message, client_verify_message, start_game_message, move_message, register_message,
  challenge_message, game_end_message, users_list_message, users_list_request_message,
  challenge_forward_message, challenge_response_message, game_start_message, game_cancel_message,
  certificate_request_message, certificate_message,
}

abbrev pub max_msg_size : ℕ
max_msg_size = 8192

abbrev pub max_users : ℕ
max_users = 1024

-- One step of a `write` method: a field at the index `i`, with `MAX_MSG_SIZE - i` bytes of room.
unfoldable pub emit : List ℕ → Writer → Result (List ℕ)
emit out w = do bs ← w (max_msg_size - length out); ok (out ++ bs)

-- The step with which each of them begins.
unfoldable pub write_type : MessageType → Result (List ℕ)
unfolding emit
write_type t = emit [] (write_uint8 (type_code t))

unfoldable pub write_start_game : Result (List ℕ)
write_start_game = write_type start_game_peer

unfoldable pub write_move : ℕ → Result (List ℕ)
write_move col = do out ← write_type move; emit out (write_uint8 col)

unfoldable pub write_register : List ℕ → Result (List ℕ)
write_register username = do out ← write_type register; emit out (write_username username)

unfoldable pub write_challenge : List ℕ → Result (List ℕ)
write_challenge username = do out ← write_type challenge; emit out (write_username username)

unfoldable pub write_game_end : Result (List ℕ)
write_game_end = write_type game_end

-- The size of the list, rounded up to whole names of 17 bytes.
unfoldable pub padded_size : ℕ → ℕ
padded_size strsize =
    (strsize + max_username_length) / (max_username_length + 1) * (max_username_length + 1)

-- `strncpy` stores zeros behind the end of the C string, and `memset` goes on from there.
unfoldable pub write_users_list : List ℕ → Result (List ℕ)
write_users_list usernames =
    let strsize = min (length usernames) ((max_username_length + 1) * max_users) in
    do
      out ← write_type users_list
      fail_if (ltb (max_msg_size - length out) (padded_size strsize))
      ok (
          out
          ++ take strsize (c_str usernames)
          ++ replicate (strsize - length (c_str usernames)) 0
          ++ replicate (padded_size strsize - strsize + 1) 0)

unfoldable pub write_users_list_request : ℕ → Result (List ℕ)
write_users_list_request n = do out ← write_type users_list_req; emit out (write_uint32 n)

unfoldable pub write_challenge_forward : List ℕ → Result (List ℕ)
write_challenge_forward username = do
  out ← write_type challenge_fwd
  emit out (write_username username)

unfoldable pub write_challenge_response : List ℕ → Bool → ℕ → Result (List ℕ)
write_challenge_response username response port = do
  out ← write_type challenge_resp
  out' ← emit out (write_bool response)
  out'' ← emit out' (write_uint16 port)
  emit out'' (write_username username)

unfoldable pub write_game_cancel : List ℕ → Result (List ℕ)
write_game_cancel username = do out ← write_type game_cancel; emit out (write_username username)

unfoldable pub write_secure : List ℕ → List ℕ → Result (List ℕ)
write_secure ct tag = do
  out ← write_type secure
  out' ← emit out (write_buf ct)
  emit out' (write_buf tag)

unfoldable pub write_client_verify : List ℕ → Result (List ℕ)
write_client_verify ds = do
  out ← write_type client_verify
  out' ← emit out (write_uint32 (length ds))
  emit out' (write_buf ds)

unfoldable pub write_certificate_request : Result (List ℕ)
write_certificate_request = write_type cert_req

module _ {Cert Key : Type 0} (ssl : Ssl Cert Key) where
  unfoldable pub write_game_start : List ℕ → SockAddr → Cert → Result (List ℕ)
  write_game_start username addr cert = do
    out ← write_type game_start
    out' ← emit out (write_sock_addr addr)
    out'' ← emit out' (write_username username)
    emit out'' (der_to_buf (ssl.i2d_x509 cert))

  unfoldable pub write_client_hello : Key → ℕ → List ℕ → List ℕ → Result (List ℕ)
  write_client_hello eph_key nonce my_id other_id = do
    out ← write_type client_hello
    o1 ← emit out (write_uint32 nonce)
    o2 ← emit o1 (write_username my_id)
    o3 ← emit o2 (write_username other_id)
    emit o3 (der_to_buf (ssl.i2d_pubkey eph_key))

  unfoldable pub write_server_hello : Key → ℕ → List ℕ → List ℕ → List ℕ → Result (List ℕ)
  write_server_hello eph_key nonce my_id other_id ds = do
    out ← write_type server_hello
    o1 ← emit out (write_uint32 nonce)
    o2 ← emit o1 (write_username my_id)
    o3 ← emit o2 (write_username other_id)
    o4 ← emit o3 (write_uint32 (length ds))
    o5 ← emit o4 (write_buf ds)
    emit o5 (der_to_buf (ssl.i2d_pubkey eph_key))

  unfoldable pub write_certificate : Cert → Result (List ℕ)
  write_certificate cert = do
    out ← write_type certificate
    emit out (der_to_buf (ssl.i2d_x509 cert))

  -- The virtual method `write`.
  unfoldable pub write : Message Cert Key → Result (List ℕ)
  write (secure_message ct tag) = write_secure ct tag
  write (client_hello_message key nonce my_id other_id) =
      write_client_hello key nonce my_id other_id
  write (server_hello_message key nonce my_id other_id ds) =
      write_server_hello key nonce my_id other_id ds
  write (client_verify_message ds) = write_client_verify ds
  write start_game_message = write_start_game
  write (move_message col) = write_move col
  write (register_message username) = write_register username
  write (challenge_message username) = write_challenge username
  write game_end_message = write_game_end
  write (users_list_message usernames) = write_users_list usernames
  write (users_list_request_message n) = write_users_list_request n
  write (challenge_forward_message username) = write_challenge_forward username
  write (challenge_response_message username response port) =
      write_challenge_response username response port
  write (game_start_message username addr cert) = write_game_start username addr cert
  write (game_cancel_message username) = write_game_cancel username
  write certificate_request_message = write_certificate_request
  write (certificate_message cert) = write_certificate cert
