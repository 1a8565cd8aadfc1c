-- ===== src/Client/Main/Games.antt =====
-- With whom `main` of src/client/client.cpp lets the user play.
use four_in_a_row.Base.{
  ◌≡◌, refl, inl, inr, Bool, Option, none, some, List, [], ◌∷◌, ◌++◌, All, Bool-cases, ◌==◌,
}
use four_in_a_row.Wire.Message.{Message}
use four_in_a_row.Secure.{Suite, Channel}
use four_in_a_row.Secure.Handshake.{Role, client, server}
use four_in_a_row.Secure.Peers.{Attempt, succeeds, fails, throws, crashes, waiting}
use four_in_a_row.Secure.Peers.Signed.{Signed}
use four_in_a_row.Client.{Asked, waits, end_of_input, answer, Turn, my_turn, their_turn}
use four_in_a_row.Client.Lobby.{Link, Mode, exit_ok, connection_error, generic_error, fatal_error}
use four_in_a_row.Client.Peers.Proved.{
  wait_for_peer_proves, connect_to_peer_proves, connect_to_peer_unknown,
}
use four_in_a_row.Client.Main.{
  Task, to_server, to_peer, for_peer, offline, quits, carry_on, task_of, exit_code,
}
use four_in_a_row.Client.Main.Loops.{
  Played, Round, Switched, Turned, Ended, game, switch, after_switch, in_lobby, turn_of, after_turn,
  goes_round, inner_loop, server_for, after_inner, on_prompt, main_loop,
}

All-append : {A : Type 0} (P : A → Type 0) (xs ys : List A) → All P xs → All P ys → All P (xs ++ ys)
All-append P [] ys h k = k
All-append P (x ∷ xs) ys h k = (h.0, All-append P xs ys h.1 k)

-- Who waits for the peer has the first turn, and was the server of the handshake.
abbrev pub role_of : Turn → Role
role_of my_turn = server
role_of their_turn = client

module _ {Cert Key Priv : Type 0} (suite : Suite Cert Key Priv) where
  -- The peer of the game has signed the handshake with the key of a certificate that the store trusts.
  abbrev pub Vouched : Played Cert Key Priv → Type 0
  Vouched g = (other : Cert) × Signed suite (role_of g.turn) other g.sw

  module _ (send : Message Cert Key → Bool) (cert : Cert) (key : Priv) where
    abbrev InSwitch : Attempt (Switched suite send cert key) → Type 0
    InSwitch (succeeds (ret, loop_lobby, games)) = All Vouched games
    InSwitch fails = Unit
    InSwitch throws = Unit
    InSwitch crashes = Unit
    InSwitch waiting = Unit

    game-InSwitch :
        (r : Round Cert Key Priv) (turn : Turn) (a : Attempt (Channel Cert Key Priv))
        → ((sw : Channel Cert Key Priv)
            → a ≡ succeeds sw
            → (other : Cert) × Signed suite (role_of turn) other sw)
        → InSwitch (game suite send cert key r turn a)
    game-InSwitch r turn (succeeds sw) h = (h sw refl, tt)
    game-InSwitch r turn fails h = tt
    game-InSwitch r turn throws h = tt
    game-InSwitch r turn crashes h = tt
    game-InSwitch r turn waiting h = tt

    switch-InSwitch :
        (r : Round Cert Key Priv) (task : Task Cert) → InSwitch (switch suite send cert key r task)
    unfolding switch
    switch-InSwitch r (for_peer port (some other)) = game-InSwitch r my_turn _ (λ sw e. (
      other,
      wait_for_peer_proves suite send other r.binds cert key r.hellos r.verifies r.starts r.nonce
          r.eph sw e,
    ))
    switch-InSwitch r (for_peer port none) = tt
    switch-InSwitch r (to_peer (some other)) = game-InSwitch r their_turn _ (λ sw e. (
      other,
      connect_to_peer_proves suite send other cert key r.connects r.hellos r.nonce r.eph sw e,
    ))
    switch-InSwitch r (to_peer none) = game-InSwitch r their_turn _ (λ sw e.
        absurd (connect_to_peer_unknown suite send cert key r.connects r.hellos r.nonce r.eph sw e))
    switch-InSwitch r offline = tt
    switch-InSwitch r (quits code) = tt
    switch-InSwitch r (to_server other) = tt
    switch-InSwitch r carry_on = tt

    abbrev InTurn : Attempt (Turned suite send cert key) → Type 0
    InTurn (succeeds (ret, loop_lobby, l, games)) = All Vouched games
    InTurn fails = Unit
    InTurn throws = Unit
    InTurn crashes = Unit
    InTurn waiting = Unit

    after_switch-InTurn :
        (l : Option (Link Cert Key)) (a : Attempt (Switched suite send cert key))
        → InSwitch a
        → InTurn (after_switch suite send cert key l a)
    after_switch-InTurn none (succeeds (ret, loop_lobby, games)) h = h
    after_switch-InTurn (some l) (succeeds (ret, loop_lobby, games)) h = h
    after_switch-InTurn none throws h = tt
    after_switch-InTurn none fails h = tt
    after_switch-InTurn none crashes h = tt
    after_switch-InTurn none waiting h = tt
    after_switch-InTurn (some l) throws h = tt
    after_switch-InTurn (some l) fails h = tt
    after_switch-InTurn (some l) crashes h = tt
    after_switch-InTurn (some l) waiting h = tt

    in_lobby-InTurn :
        (r : Round Cert Key Priv) (l : Link Cert Key) (a : Attempt (Link Cert Key × Mode Cert))
        → InTurn (in_lobby suite send cert key r l a)
    in_lobby-InTurn r l (succeeds (l', mode)) =
        after_switch-InTurn (some l') _ (switch-InSwitch r (task_of mode))
    in_lobby-InTurn r l throws = tt
    in_lobby-InTurn r l fails = tt
    in_lobby-InTurn r l crashes = tt
    in_lobby-InTurn r l waiting = tt

    turn_of-InTurn :
        (r : Round Cert Key Priv) (l : Option (Link Cert Key)) (task : Task Cert)
        → InTurn (turn_of suite send cert key r l task)
    unfolding turn_of
    turn_of-InTurn r none task = after_switch-InTurn none _ (switch-InSwitch r task)
    turn_of-InTurn r (some l) task = in_lobby-InTurn r l (r.lobby l)

    after_turn-Vouched :
        (again : Option (Link Cert Key) → Ended suite send cert key)
        (a : Attempt (Turned suite send cert key))
        → InTurn a
        → ((l : Option (Link Cert Key)) → All Vouched (again l).0)
        → All Vouched (after_turn suite send cert key again a).0
    after_turn-Vouched again (succeeds (ret, loop_lobby, l, games)) h rest =
        elim (Bool-cases (goes_round suite send cert key loop_lobby l)) [
          | inl on ↦ rw on (All-append Vouched games (again l).0 h (rest l))
          | inr off ↦ rw off h
        ]
    after_turn-Vouched again fails h rest = tt
    after_turn-Vouched again throws h rest = tt
    after_turn-Vouched again crashes h rest = tt
    after_turn-Vouched again waiting h rest = tt

    inner_loop-Vouched :
        (rs : List (Round Cert Key Priv)) (l : Option (Link Cert Key)) (task : Task Cert)
        → All Vouched (inner_loop suite send cert key rs l task).0
    unfolding inner_loop
    inner_loop-Vouched [] l task = tt
    inner_loop-Vouched (r ∷ rs) l task =
        after_turn-Vouched _ _ (turn_of-InTurn r l task) (λ l'. inner_loop-Vouched rs l' task)

    after_inner-Vouched :
        (rest done : Ended suite send cert key)
        → All Vouched rest.0
        → All Vouched done.0
        → All Vouched (after_inner suite send cert key rest done).0
    after_inner-Vouched rest (games, succeeds ret) h k =
        elim (Bool-cases (ret == exit_code fatal_error)) [
          | inl fatal ↦ rw fatal k
          | inr other ↦ rw other (All-append Vouched games rest.0 k h)
        ]
    after_inner-Vouched rest (games, fails) h k = k
    after_inner-Vouched rest (games, throws) h k = k
    after_inner-Vouched rest (games, crashes) h k = k
    after_inner-Vouched rest (games, waiting) h k = k

    on_prompt-Vouched :
        (run : Task Cert → Ended suite send cert key) (chosen : Asked (Task Cert))
        → ((task : Task Cert) → All Vouched (run task).0)
        → All Vouched (on_prompt suite send cert key run chosen).0
    on_prompt-Vouched run (answer (quits exit_ok)) h = tt
    on_prompt-Vouched run (answer (quits connection_error)) h = h (quits connection_error)
    on_prompt-Vouched run (answer (quits generic_error)) h = h (quits generic_error)
    on_prompt-Vouched run (answer (quits fatal_error)) h = h (quits fatal_error)
    on_prompt-Vouched run (answer (to_server other)) h = h (to_server other)
    on_prompt-Vouched run (answer (to_peer other)) h = h (to_peer other)
    on_prompt-Vouched run (answer (for_peer port other)) h = h (for_peer port other)
    on_prompt-Vouched run (answer offline) h = h offline
    on_prompt-Vouched run (answer carry_on) h = h carry_on
    on_prompt-Vouched run waits h = tt
    on_prompt-Vouched run end_of_input h = tt

    -- Whatever the user chooses, whatever the lobby ends with and whatever arrives, `main` lets the
    -- user play only with a peer that is authenticated under a certificate which the store trusts and
    -- which verifies a signature of the names, the nonces and the keys of the connection.
    pub main_loop-Vouched :
        (inputs : List (Asked (Task Cert) × List (Round Cert Key Priv)))
        → All Vouched (main_loop suite send cert key inputs).0
    unfolding main_loop
    main_loop-Vouched [] = tt
    main_loop-Vouched ((chosen, rounds) ∷ more) =
        let rest = main_loop suite send cert key more in
        let run = λ (task : Task Cert).
          inner_loop suite send cert key rounds (server_for suite send cert key task) task in
        on_prompt-Vouched (λ task. after_inner suite send cert key rest (run task)) chosen
          (λ task.
            after_inner-Vouched rest (run task) (main_loop-Vouched more)
              (inner_loop-Vouched rounds (server_for suite send cert key task) task))
