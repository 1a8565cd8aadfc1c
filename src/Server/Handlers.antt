-- ===== src/Server/Handlers.antt =====
-- The other handlers of src/server/server.cpp, `handleMessage` and the body of `worker`.
pub mod Registration
use four_in_a_row.Base.{ℕ, ◌-◌, ◌^◌, Bool, true, false, not, Option, none, some, ltb, if◌then◌else◌}
use four_in_a_row.Base.Int.{ℤ, pos, negsuc}
use four_in_a_row.Wire.Message.{
  Message, client_hello_message, client_verify_message, register_message, challenge_message,
  game_end_message, users_list_message, users_list_request_message, challenge_response_message,
  certificate_request_message, certificate_message,
}
use four_in_a_row.Server.Map.{Name, name_key, name_eq, find}
use four_in_a_row.Server.User.{
  User, UserState, just_connected, securely_connected, available, challenged, playing, disconnected,
}
use four_in_a_row.Server.UserList.{Users, add, exists_name, get_by_fd, list_available_from_to}
use four_in_a_row.Server.World.{
  World, Env, M, send_msg, send_plain, set_other_cert, client_hello, client_verify, ◌>>=◌, ◌>>◌,
  return, user, on_users, put_state, put_username, lock, unlock, yield_user, call,
}
use four_in_a_row.Server.Challenge.{handle_challenge}
use four_in_a_row.Server.Response.{handle_challenge_response}

-- The `uint32_t` offset of the request as the `int` that the list is asked with.
unfoldable pub to_int : ℕ → ℤ
to_int n = if ltb n (2 ^ 31) then pos n else negsuc (2 ^ 32 - n - 1)

-- What `SecureSocketWrapper::handleMsg` does with a message: it hands one on, returns NULL, or
-- throws.
pub data Decoded (Cert Key : Type 0) : Type 0 where
  message : Message Cert Key → Decoded Cert Key
  nothing : Decoded Cert Key
  thrown : Decoded Cert Key

module _ {Cert Key : Type 0} (env : Env Cert) where
  -- `getCert` of the user's socket is the certificate of the server, and the test refuses the
  -- name that it holds.
  unfoldable pub handle_register : ℕ → Name → M Cert Key Bool
  handle_register u username = if name_eq username env.server_name then return false else (do
    put_username u username
    taken ← on_users (λ s. (s, exists_name s username))
    if taken
        then (do put_state u disconnected; return false)
        else (do put_state u available; added ← on_users (λ s. add s u); return true))

  unfoldable pub handle_game_end : ℕ → M Cert Key Bool
  handle_game_end u = do put_state u available; return true

  unfoldable pub handle_users_list_request : ℕ → ℕ → M Cert Key Bool
  unfolding to_int
  handle_users_list_request u n = do
    usernames ← on_users (λ s. (s, list_available_from_to s (to_int n)))
    call env (send_msg u (users_list_message usernames))

  -- The result of `setOtherCert` is not looked at.
  unfoldable pub handle_client_hello : ℕ → Name → Message Cert Key → M Cert Key Bool
  handle_client_hello u username chm = elim (find username env.cert_map) [
    | none ↦ return false
    | some cert ↦ (do known ← call env (set_other_cert u cert); call env (client_hello u chm))
  ]

  unfoldable pub handle_client_verify : ℕ → Message Cert Key → M Cert Key Bool
  handle_client_verify u cvm = do
    checked ← call env (client_verify u cvm)
    if checked
        then (do put_state u securely_connected; return true)
        else (do put_state u disconnected; return false)

  unfoldable pub handle_certificate_request : ℕ → M Cert Key Bool
  handle_certificate_request u = do
    sent ← call env (send_plain u (certificate_message env.server_cert))
    if sent then return true else (do put_state u disconnected; return false)

  -- The two nested `switch`es; what a state does not expect is only logged.
  unfoldable pub dispatch : UserState → ℕ → Message Cert Key → M Cert Key Bool
  unfolding handle_register handle_game_end handle_users_list_request handle_client_hello
      handle_client_verify handle_certificate_request
  dispatch just_connected u (client_hello_message key nonce my_id other_id) =
      handle_client_hello u my_id (client_hello_message key nonce my_id other_id)
  dispatch just_connected u (client_verify_message ds) =
      handle_client_verify u (client_verify_message ds)
  dispatch just_connected u certificate_request_message = handle_certificate_request u
  dispatch securely_connected u (register_message username) = handle_register u username
  dispatch available u (challenge_message username) = handle_challenge env u username
  dispatch available u (users_list_request_message n) = handle_users_list_request u n
  dispatch challenged u (challenge_response_message username response listen_port) =
      handle_challenge_response env u response listen_port
  dispatch playing u game_end_message = handle_game_end u
  dispatch _ u m = return true

  -- With NULL the function returns at once, and the user stays locked.
  unfoldable pub handle_message : ℕ → Decoded Cert Key → M Cert Key Bool
  unfolding dispatch
  handle_message u nothing = do lock u; return false
  handle_message u thrown = do lock u; unlock u; return false
  handle_message u (message m) = do
    lock u
    me ← user u
    res ← dispatch me.state u m
    unlock u
    return res

  -- One round of the loop of `worker`, on a message from the descriptor of the user found.
  unfoldable pub serve : Option ℕ → Decoded Cert Key → M Cert Key (Unit {0})
  unfolding handle_message
  serve none raw = return tt
  serve (some u) raw = do
    good ← handle_message u raw
    (if good then return tt else put_state u disconnected)
    yield_user u

  unfoldable pub worker_round : ℕ → Decoded Cert Key → M Cert Key (Unit {0})
  unfolding serve
  worker_round fd raw = do found ← on_users (λ s. get_by_fd s fd); serve found raw
