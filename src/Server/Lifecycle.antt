-- ===== src/Server/Lifecycle.antt =====
-- The life of a user's connection: the states of src/server/user.h under `handleMessage` of
-- src/server/server.cpp.
use four_in_a_row.Base.{
  ℕ, ◌≡◌, refl, subst, inl, inr, List, [], ◌∷◌, length, Bool-cases, Option-cases,
}
use four_in_a_row.Wire.Message.{
  Message, client_hello_message, client_verify_message, register_message, challenge_message,
  game_end_message, users_list_request_message, challenge_response_message,
  certificate_request_message, certificate_message,
}
use four_in_a_row.Server.Map.{Name, name_eq, find, name_key}
use four_in_a_row.Server.User.{
  UserState, deref, just_connected, securely_connected, available, challenged, playing,
  disconnected,
}
use four_in_a_row.Server.UserList.{add, exists_name}
use four_in_a_row.Server.World.{
  World, Env, put_username, call, set_other_cert, client_verify, send_plain,
}
use four_in_a_row.Server.Frames.{heap_of, lock-Quiet}
use four_in_a_row.Server.Links.{Named}
use four_in_a_row.Server.Moves.{
  Among, Step, ◌>->◌, stay, put_state-Named, put_state-Step, put_state_unnamed-Step, call-Step,
  put_username-Step, add-Step, lock-Step, unlock-Step,
}
use four_in_a_row.Server.States.{handle_challenge-Step, handle_response-Step}
use four_in_a_row.Server.Handlers.{
  Decoded, message, nothing, thrown, handle_register, handle_game_end, handle_users_list_request,
  handle_client_hello, handle_client_verify, handle_certificate_request, dispatch, handle_message,
}

-- The states that one message can take a user to.
abbrev pub next : UserState → List UserState
next just_connected = securely_connected ∷ disconnected ∷ []
next securely_connected = available ∷ disconnected ∷ []
next available = challenged ∷ []
next challenged = available ∷ playing ∷ disconnected ∷ []
next playing = available ∷ []
next disconnected = []

module _ {Cert Key : Type 0} (env : Env Cert) (u : ℕ) where
  handle_register-Step :
      (w : World Cert Key) (name : Name)
      → (deref (heap_of w) u).state ≡ securely_connected
      → Step u (next securely_connected) w (handle_register env u name w).1
  unfolding handle_register add
  handle_register-Step w name me =
      let new = λ (n : Named (deref (heap_of w) u).state). subst Named me n in
      elim (Bool-cases (name_eq name env.server_name)) [
        | inl e ↦ rw e stay
        | inr e ↦ elim (Bool-cases (exists_name (put_username u name w).1.users name)) [
          | inl e' ↦
              rw (e, e')
                (put_username-Step u name new >-> put_state-Step u disconnected (inr (inl refl)) tt)
          | inr e' ↦
              rw (e, e')
                (put_username-Step u name new
                  >-> put_state-Step u available (inl refl) tt
                  >-> add-Step (put_state-Named u available _ tt))
        ]
      ]

  handle_client_hello-Step :
      (w : World Cert Key) (name : Name) (m : Message Cert Key)
      → Step u (next just_connected) w (handle_client_hello env u name m w).1
  unfolding handle_client_hello
  handle_client_hello-Step w name m = elim (Option-cases (find name env.cert_map)) [
    | inl e ↦ rw (e, handle_client_hello) stay
    | inr (cert, e) ↦
        rw (e, handle_client_hello) (call-Step env (set_other_cert u cert) >-> call-Step env _)
  ]

  handle_client_verify-Step :
      (w : World Cert Key) (m : Message Cert Key)
      → (deref (heap_of w) u).state ≡ just_connected
      → Step u (next just_connected) w (handle_client_verify env u m w).1
  unfolding handle_client_verify call
  handle_client_verify-Step w m me = elim (Bool-cases (env.succeeds (length w.calls))) [
    | inl e ↦ rw e (
        call-Step env (client_verify u m)
        >-> put_state_unnamed-Step u securely_connected (inl refl) (λ n. subst Named me n))
    | inr e ↦
        rw e
          (call-Step env (client_verify u m) >-> put_state-Step u disconnected (inr (inl refl)) tt)
  ]

  handle_certificate_request-Step :
      (w : World Cert Key) → Step u (next just_connected) w (handle_certificate_request env u w).1
  unfolding handle_certificate_request call
  handle_certificate_request-Step w = elim (Bool-cases (env.succeeds (length w.calls))) [
    | inl e ↦ rw e (call-Step env (send_plain u (certificate_message env.server_cert)))
    | inr e ↦ rw e (
        call-Step env (send_plain u (certificate_message env.server_cert))
        >-> put_state-Step u disconnected (inr (inl refl)) tt)
  ]

  dispatch-Step :
      (s : UserState) (m : Message Cert Key) (w : World Cert Key)
      → (deref (heap_of w) u).state ≡ s
      → Step u (next s) w (dispatch env s u m w).1
  unfolding dispatch handle_game_end handle_users_list_request
  dispatch-Step just_connected (client_hello_message key nonce my_id other_id) w me =
      handle_client_hello-Step w my_id _
  dispatch-Step just_connected (client_verify_message ds) w me = handle_client_verify-Step w _ me
  dispatch-Step just_connected certificate_request_message w me = handle_certificate_request-Step w
  dispatch-Step securely_connected (register_message username) w me =
      handle_register-Step w username me
  dispatch-Step available (challenge_message username) w me = handle_challenge-Step env u w username
  dispatch-Step available (users_list_request_message n) w me = call-Step env _
  dispatch-Step challenged (challenge_response_message username response port) w me =
      handle_response-Step env u w response port
  dispatch-Step playing game_end_message w me = put_state-Step u available (inl refl) tt
  dispatch-Step _ _ w me = stay

  pub handle_message-Step :
      (w : World Cert Key) (raw : Decoded Cert Key)
      → Step u (next (deref (heap_of w) u).state) w (handle_message env u raw w).1
  unfolding handle_message
  handle_message-Step w nothing = lock-Step u
  handle_message-Step w thrown = lock-Step u >-> unlock-Step u
  handle_message-Step w (message m) =
      let same = (lock-Quiet u w).states u in
      rw same (lock-Step u >-> dispatch-Step _ m _ same >-> unlock-Step u)

  -- Whatever is received from a user, and whatever the other users are doing, `handleMessage`
  -- leaves the user's state as it is or takes it to one of the states that `next` lists.
  pub handle_message_moves :
      (w : World Cert Key) (raw : Decoded Cert Key)
      → let s = (deref w.users.heap u).state in
        Among (next s) s (deref (handle_message env u raw w).1.users.heap u).state
  handle_message_moves w raw = (handle_message-Step w raw).goes
