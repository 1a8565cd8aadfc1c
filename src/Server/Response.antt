-- ===== src/Server/Response.antt =====
-- `handleChallengeResponseMessage` of src/server/server.cpp.
use four_in_a_row.Base.{ℕ, Bool, true, false, not, none, some, ◌==◌, if◌then◌else◌}
use four_in_a_row.Wire.Message.{game_start_message}
use four_in_a_row.Server.Map.{Name, name_key, find}
use four_in_a_row.Server.User.{state_eq, available, challenged, playing, disconnected}
use four_in_a_row.Server.UserList.{get_by_name}
use four_in_a_row.Server.World.{
  Env, M, send_msg, ◌>>=◌, ◌>>◌, return, user, on_users, put_state, double_lock, leave, call,
}
use four_in_a_row.Server.Challenge.{send_cancel}

module _ {Cert Key : Type 0} (env : Env Cert) where
  -- Tell `p` of the end of the game that `name` does not play: available if that works.
  unfoldable pub cancel_or_drop : ℕ → Name → M Cert Key Bool
  unfolding send_cancel
  cancel_or_drop p name = do
    sent ← send_cancel env p name
    put_state p (if sent then available else disconnected)
    return sent

  -- Both messages have been sent, with the results `res_u == 0` and `res_opp == 0`. In the
  -- third case the code leaves `res` as it is.
  unfoldable pub settle : ℕ → ℕ → Bool → Bool → M Cert Key Bool
  unfolding cancel_or_drop
  settle u opponent true true = do put_state u playing; put_state opponent playing; return true
  settle u opponent false false = do
    put_state opponent disconnected
    put_state u disconnected
    return false
  settle u opponent false true = do
    me ← user u
    sent ← cancel_or_drop opponent me.username
    return env.uninitialised
  settle u opponent true false = do other ← user opponent; cancel_or_drop u other.username

  -- Send each player the address and the certificate of the other.
  unfoldable pub start_game : ℕ → ℕ → ℕ → Cert → Cert → M Cert Key Bool
  unfolding settle
  start_game u opponent listen_port opp_cert u_cert = do
    other ← user opponent
    me ← user u
    let opp_addr = record (env.address opponent) { sin_port = 0 }
    let u_addr = record (env.address u) { sin_port = listen_port }
    res_u ← call env (send_msg u (game_start_message other.username opp_addr opp_cert))
    res_opp ← call env (send_msg opponent (game_start_message me.username u_addr u_cert))
    settle u opponent res_u res_opp

  -- An accepted challenge, with both users locked.
  unfoldable pub accept : ℕ → ℕ → ℕ → M Cert Key Bool
  unfolding start_game send_cancel
  accept u opponent listen_port = do
    me ← user u
    other ← user opponent
    if not (state_eq me.state challenged)
        then leave u opponent true
        else if not (state_eq other.state challenged)
        then (do res ← send_cancel env u other.username; leave u opponent res)
        else elim (find other.username env.cert_map) [
          | none ↦ leave u opponent false
          | some opp_cert ↦ elim (find me.username env.cert_map) [
            | none ↦ leave u opponent false
            | some u_cert ↦ (do
              res ← start_game u opponent listen_port opp_cert u_cert
              leave u opponent res)
          ]
        ]

  -- A rejected challenge: `res` is never set.
  unfoldable pub reject : ℕ → ℕ → M Cert Key Bool
  unfolding cancel_or_drop
  reject u opponent = do
    put_state u available
    me ← user u
    sent ← cancel_or_drop opponent me.username
    leave u opponent env.uninitialised

  unfoldable pub handle_challenge_response : ℕ → Bool → ℕ → M Cert Key Bool
  unfolding accept reject send_cancel
  handle_challenge_response u response listen_port = do
    me ← user u
    found ← on_users (λ s. get_by_name s me.opponent_username)
    elim found [
      | none ↦ (do put_state u available; send_cancel env u me.opponent_username)
      | some opponent ↦
          if opponent == u
          then (do put_state u available; send_cancel env u me.opponent_username)
          else (do
            double_lock u opponent
            if response then accept u opponent listen_port else reject u opponent)
    ]
