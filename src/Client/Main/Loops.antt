-- ===== src/Client/Main/Loops.antt =====
-- The two loops of `main` of src/client/client.cpp.
use four_in_a_row.Base.{
  ℕ, Bool, true, false, ◌&&◌, Option, none, some, List, [], ◌∷◌, ◌++◌, ◌==◌, if◌then◌else◌,
}
use four_in_a_row.Wire.Result.{Result}
use four_in_a_row.Wire.Message.{Message, game_end_message}
use four_in_a_row.Secure.{Suite, Channel}
use four_in_a_row.Secure.Peers.{Attempt, succeeds, fails, throws, crashes, waiting}
use four_in_a_row.Client.{Asked, waits, end_of_input, answer, Turn, my_turn, their_turn}
use four_in_a_row.Client.Lobby.{Link, Mode, exit_ok, connection_error, generic_error, fatal_error}
use four_in_a_row.Client.Peers.{wait_for_peer, connect_to_peer}
use four_in_a_row.Client.Main.{
  Task, to_server, to_peer, for_peer, offline, quits, carry_on, task_of, exit_code,
}

-- A game that has been played: whose turn it was first, and the wrapper of the connection.
pub record Played (Cert Key Priv : Type 0) : Type 0 where
  pub turn : Turn
  pub sw : Channel Cert Key Priv

-- What happens outside in one round of the inner loop: what `serverLobby` ends with, whether the
-- port can be bound and which `connect` succeeds, what the other side sends during the waits, the
-- nonce and the key pair, and the results of the games.
pub record Round (Cert Key Priv : Type 0) : Type 0 where
  pub lobby : Link Cert Key → Attempt (Link Cert Key × Mode Cert)
  pub binds : Bool
  pub connects : ℕ → Bool
  pub hellos : List (Result (Message Cert Key))
  pub verifies : List (Result (Message Cert Key))
  pub starts : List (Result (Message Cert Key))
  pub nonce : ℕ
  pub eph : Priv
  pub play_with_player : Turn → Channel Cert Key Priv → ℕ
  pub offline_result : ℕ

module _ {Cert Key Priv : Type 0} (suite : Suite Cert Key Priv) (send : Message Cert Key → Bool)
    (cert : Cert) (key : Priv) where
  -- What the `switch` leaves: `ret`, `loopLobby`, and the game, if one was played.
  abbrev pub Switched : Type 0
  Switched = ℕ × Bool × List (Played Cert Key Priv)

  abbrev pub game : Round Cert Key Priv → Turn → Attempt (Channel Cert Key Priv) → Attempt Switched
  game r turn (succeeds sw) =
      succeeds (r.play_with_player turn sw, true, (record { turn = turn; sw = sw }) ∷ [])
  game r turn fails = succeeds (exit_code connection_error, true, [])
  game r turn throws = throws
  game r turn crashes = crashes
  game r turn waiting = waiting

  -- OpenSSL refuses a certificate that is NULL, so nobody is accepted.
  unfoldable pub switch : Round Cert Key Priv → Task Cert → Attempt Switched
  unfolding wait_for_peer connect_to_peer
  switch r (for_peer port (some other)) =
      game r my_turn
        (wait_for_peer suite send r.binds cert key other r.hellos r.verifies r.starts r.nonce r.eph)
  switch r (for_peer port none) = succeeds (exit_code connection_error, true, [])
  switch r (to_peer other) =
      game r their_turn
        (connect_to_peer suite send cert key other r.connects r.hellos r.nonce r.eph)
  switch r offline = succeeds (r.offline_result, false, [])
  switch r (quits code) = succeeds (exit_code code, false, [])
  switch r (to_server other) = succeeds (exit_code fatal_error, false, [])
  switch r carry_on = succeeds (exit_code exit_ok, true, [])

  -- A round of the inner loop: `ret`, `loopLobby`, the object `server` and the games.
  abbrev pub Turned : Type 0
  Turned = ℕ × Bool × Option (Link Cert Key) × List (Played Cert Key Priv)

  -- `signalGameEnd` goes out only after a result 0 in a lobby that goes on; its result is not
  -- looked at.
  abbrev pub told : ℕ → Bool → Link Cert Key → Link Cert Key
  told ret loop_lobby l =
      if loop_lobby && (ret == 0) && l.connected
      then record l { log = game_end_message ∷ l.log }
      else l

  -- The `catch` clause is left with GENERIC_ERROR.
  abbrev pub after_switch : Option (Link Cert Key) → Attempt Switched → Attempt Turned
  after_switch none (succeeds (ret, loop_lobby, games)) = succeeds (ret, loop_lobby, none, games)
  after_switch (some l) (succeeds (ret, loop_lobby, games)) =
      succeeds (ret, loop_lobby, some (told ret loop_lobby l), games)
  after_switch server throws = succeeds (exit_code generic_error, false, server, [])
  after_switch server fails = fails
  after_switch server crashes = crashes
  after_switch server waiting = waiting

  abbrev pub in_lobby :
      Round Cert Key Priv → Link Cert Key → Attempt (Link Cert Key × Mode Cert) → Attempt Turned
  in_lobby r l (succeeds (l', mode)) = after_switch (some l') (switch r (task_of mode))
  in_lobby r l throws = succeeds (exit_code generic_error, false, some l, [])
  in_lobby r l fails = fails
  in_lobby r l crashes = crashes
  in_lobby r l waiting = waiting

  unfoldable pub turn_of : Round Cert Key Priv → Option (Link Cert Key) → Task Cert → Attempt Turned
  unfolding switch
  turn_of r none task = after_switch none (switch r task)
  turn_of r (some l) task = in_lobby r l (r.lobby l)

  -- The condition of the inner loop.
  abbrev pub goes_round : Bool → Option (Link Cert Key) → Bool
  goes_round loop_lobby none = false
  goes_round loop_lobby (some l) = loop_lobby && l.connected

  -- How a loop ends, with the games played until then.
  abbrev pub Ended : Type 0
  Ended = List (Played Cert Key Priv) × Attempt ℕ

  abbrev pub after_turn : (Option (Link Cert Key) → Ended) → Attempt Turned → Ended
  after_turn again (succeeds (ret, loop_lobby, server, games)) =
      let rest = again server in
      if goes_round loop_lobby server then (games ++ rest.0, rest.1) else (games, succeeds ret)
  after_turn again fails = ([], fails)
  after_turn again throws = ([], throws)
  after_turn again crashes = ([], crashes)
  after_turn again waiting = ([], waiting)

  unfoldable pub inner_loop :
      List (Round Cert Key Priv) → Option (Link Cert Key) → Task Cert → Ended
  unfolding turn_of
  inner_loop [] server task = ([], waiting)
  inner_loop (r ∷ rs) server task =
      after_turn (λ server'. inner_loop rs server' task) (turn_of r server task)

  -- `new Server` for a choice of a server.
  abbrev pub server_for : Task Cert → Option (Link Cert Key)
  server_for (to_server other) = some (record { connected = false; log = [] })
  server_for task = none

  abbrev pub after_inner : Ended → Ended → Ended
  after_inner rest (games, succeeds ret) =
      if ret == exit_code fatal_error then (games, succeeds ret) else (games ++ rest.0, rest.1)
  after_inner rest (games, end) = (games, end)

  abbrev pub on_prompt : (Task Cert → Ended) → Asked (Task Cert) → Ended
  on_prompt run (answer (quits exit_ok)) = ([], succeeds 0)
  on_prompt run (answer task) = run task
  on_prompt run waits = ([], waiting)
  on_prompt run end_of_input = ([], waiting)

  -- The outer loop, over the choices that the prompt ends with and the rounds after each.
  unfoldable pub main_loop : List (Asked (Task Cert) × List (Round Cert Key Priv)) → Ended
  unfolding inner_loop
  main_loop [] = ([], waiting)
  main_loop ((chosen, rounds) ∷ more) =
      let rest = main_loop more in
      on_prompt (λ task. after_inner rest (inner_loop rounds (server_for task) task)) chosen
