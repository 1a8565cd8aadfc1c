-- ===== src/Server/Challenge.antt =====
-- `handleChallengeMessage` of src/server/server.cpp.
use four_in_a_row.Base.{ℕ, Bool, true, not, Option, none, some, ◌==◌, if◌then◌else◌}
use four_in_a_row.Wire.Message.{challenge_forward_message, game_cancel_message}
use four_in_a_row.Server.Map.{Name}
use four_in_a_row.Server.User.{state_eq, available, challenged, disconnected}
use four_in_a_row.Server.UserList.{get_by_name}
use four_in_a_row.Server.World.{
  Env, M, send_msg, ◌>>=◌, ◌>>◌, return, user, on_users, put_state, put_opponent, double_lock,
  leave, call,
}

module _ {Cert Key : Type 0} (env : Env Cert) where
  -- `GameCancelMessage cancel_msg(name)`, sent to the user `p`.
  unfoldable pub send_cancel : ℕ → Name → M Cert Key Bool
  send_cancel p name = call env (send_msg p (game_cancel_message name))

  -- Both users are available: forward the challenge, and mark them until there is a response.
  unfoldable pub forward_challenge : ℕ → ℕ → Name → M Cert Key Bool
  unfolding send_cancel
  forward_challenge u c chlg_username = do
    challenger ← user u
    sent ← call env (send_msg c (challenge_forward_message challenger.username))
    if sent
        then (do
          put_state u challenged
          other ← user c
          put_opponent u other.username
          put_state c challenged
          put_opponent c challenger.username
          return true)
        else (do put_state c disconnected; send_cancel u chlg_username)

  -- What is done with both users locked.
  unfoldable pub challenge_user : ℕ → ℕ → Name → M Cert Key Bool
  unfolding forward_challenge send_cancel
  challenge_user u c chlg_username = do
    double_lock u c
    me ← user u
    other ← user c
    if not (state_eq me.state available)
        then leave u c true
        else if not (state_eq other.state available)
        then (do res ← send_cancel u chlg_username; leave u c res)
        else (do res ← forward_challenge u c chlg_username; leave u c res)

  -- A user who challenges himself, or a name that nobody has, gets a cancel.
  unfoldable pub challenge_found : ℕ → Name → Option ℕ → M Cert Key Bool
  unfolding challenge_user send_cancel
  challenge_found u chlg_username none = send_cancel u chlg_username
  challenge_found u chlg_username (some c) =
      if c == u then send_cancel u chlg_username else challenge_user u c chlg_username

  unfoldable pub handle_challenge : ℕ → Name → M Cert Key Bool
  unfolding challenge_found
  handle_challenge u chlg_username = do
    found ← on_users (λ s. get_by_name s chlg_username)
    challenge_found u chlg_username found
