-- ===== src/Client/Lobby/Answers.antt =====
-- How the lobby of src/client/server_lobby.cpp comes to a game.
use four_in_a_row.Base.{
  ℕ, ◌≤◌, ◌≡◌, refl, sym, subst, ◌∙◌, ap, inl, inr, Bool, true, Option, none, some, List, [], ◌∷◌,
  length, ◌==◌, Bool-cases, arith,
}
use four_in_a_row.Wire.Fields.{c_str}
use four_in_a_row.Wire.Message.{
  Message, MessageType, game_start, game_cancel, challenge_message, challenge_response_message,
  challenge_forward_message, game_start_message,
}
use four_in_a_row.Socket.Ports.{random_port}
use four_in_a_row.Client.{parse_line, Asked, waits, end_of_input, answer}
use four_in_a_row.Client.Lobby.{
  Host, Answer, failure, refusal, start, connect_to_peer, wait_for_peer, Action, accepted, nothing,
  error, quit, same_word, exit_word, list_word, challenge_word, Link, on_reply, get_user_list,
  challenge_peer, reply_peer_challenge, of_challenge, of_list, on_words, do_action, mode_of_action,
  handle_stdin, ask_response, mode_of_answer, on_response, handle_message,
}

module _ {Cert Key : Type 0} (sends : Message Cert Key → Bool)
    (reply : List MessageType → Option (Message Cert Key)) where
  -- The server has started a game with `host`.
  abbrev pub Started : Host Cert → Type 0
  Started host =
      (username : List ℕ) × (reply (game_start ∷ game_cancel ∷ [])
        ≡ some (game_start_message username host.addr host.cert))

  on_reply-Started :
      (o : Option (Message Cert Key)) (host : Host Cert)
      → on_reply sends reply o ≡ start host
      → (username : List ℕ) × (o ≡ some (game_start_message username host.addr host.cert))
  on_reply-Started (some (game_start_message username addr cert)) host e = (username, cc)
  on_reply-Started none host e = absurd (cc)
  on_reply-Started (some m) host e = absurd (cc)

  reply_peer_challenge-start :
      (l : Link Cert Key) (username : List ℕ) (response : Bool) (r : ℕ) (host : Host Cert)
      → (reply_peer_challenge sends reply l username response r).1 ≡ start host
      → (response ≡ true)
        × (sends (challenge_response_message username response (random_port r)) ≡ true)
        × Started host
  unfolding reply_peer_challenge
  reply_peer_challenge-start l username response r host e =
      elim (Bool-cases (sends (challenge_response_message username response (random_port r)))) [
        | inr lost ↦ let f = (rw lost at e) in absurd (cc)
        | inl sent ↦ elim (Bool-cases response) [
          | inr no_thanks ↦ let f = (rw (sent, no_thanks) at e) in absurd (cc)
          | inl good ↦ (good, sent, on_reply-Started _ host (rw (sent, good) at e))
        ]
      ]

  reply_peer_challenge-log :
      (l : Link Cert Key) (username : List ℕ) (response : Bool) (r : ℕ)
      → let q = reply_peer_challenge sends reply l username response r in
        (q.0.log ≡ challenge_response_message username response (random_port r) ∷ l.log)
        × (q.2 ≡ random_port r)
  unfolding reply_peer_challenge
  reply_peer_challenge-log l username response r = (refl, refl)

  mode_of_answer-start :
      (a : Answer Cert) (port port' : ℕ) (host : Host Cert)
      → mode_of_answer sends reply a port ≡ wait_for_peer host port'
      → (a ≡ start host) × (port ≡ port')
  mode_of_answer-start (start h) port port' host e = (cc, cc)
  mode_of_answer-start refusal port port' host e = absurd (cc)
  mode_of_answer-start failure port port' host e = absurd (cc)

  on_response-start :
      (l l' : Link Cert Key) (username : List ℕ) (r port : ℕ) (host : Host Cert) (a : Asked Bool)
      → on_response sends reply l username r a ≡ answer (l', wait_for_peer host port)
      → (a ≡ answer true)
        × (port ≡ random_port r)
        × (l'.log ≡ challenge_response_message username true port ∷ l.log)
        × (sends (challenge_response_message username true port) ≡ true)
        × Started host
  on_response-start l l' username r port host (answer response) e =
      let q = reply_peer_challenge sends reply l username response r in
      let link : q.0 ≡ l' = cc in
      let mode : mode_of_answer sends reply q.1 q.2 ≡ wait_for_peer host port = cc in
      let (started, same) = mode_of_answer-start q.1 q.2 port host mode in
      let (good, sent, by) = reply_peer_challenge-start l username response r host started in
      let (log, own) = reply_peer_challenge-log l username response r in
      let port_same : random_port r ≡ port = sym own ∙ same in
      (
        ap answer good,
        sym port_same,
        sym (ap (λ (x : Link Cert Key). x.log) link) ∙ log ∙ rw (good, port_same) refl,
        subst (λ p. sends (challenge_response_message username true p) ≡ true) port_same
            (subst (λ b. sends (challenge_response_message username b (random_port r)) ≡ true) good
              sent),
        by,
      )
  on_response-start l l' username r port host waits e = absurd (cc)
  on_response-start l l' username r port host end_of_input e = absurd (cc)

  -- After a message from the server the lobby listens for a peer only when the message was a
  -- challenge, the user said yes, the answer with the port on which it listens went out, and the
  -- server then started the game with that peer; the port is between 49152 and 65535.
  pub handle_message_listens :
      (l l' : Link Cert Key) (m : Message Cert Key) (lines : List (Option (List ℕ))) (r port : ℕ)
      (host : Host Cert)
      → handle_message sends reply l m lines r ≡ answer (l', wait_for_peer host port)
      → (username : List ℕ) × (m ≡ challenge_forward_message username)
        × (ask_response sends reply lines ≡ answer true)
        × (l'.log ≡ challenge_response_message username true port ∷ l.log)
        × (sends (challenge_response_message username true port) ≡ true)
        × Started host
        × (49152 ≤ port)
        × (port ≤ 65535)
  unfolding handle_message
  handle_message_listens l l' (challenge_forward_message username) lines r port host e =
      let (yes_said, same, log, sent, started) =
        on_response-start l l' username r port host (ask_response sends reply lines) e in
      (username, refl, yes_said, log, sent, started, omega (arith, same), omega (arith, same))
  handle_message_listens l l' m lines r port host e = absurd (cc)

  challenge_peer-start :
      (l : Link Cert Key) (username : List ℕ) (host : Host Cert)
      → (challenge_peer sends reply l username).1 ≡ start host
      → (sends (challenge_message username) ≡ true) × Started host
  unfolding challenge_peer
  challenge_peer-start l username host e = elim (Bool-cases (sends (challenge_message username))) [
    | inr lost ↦ let f = (rw lost at e) in absurd (cc)
    | inl sent ↦ (sent, on_reply-Started _ host (rw sent at e))
  ]

  challenge_peer-log :
      (l : Link Cert Key) (username : List ℕ)
      → (challenge_peer sends reply l username).0.log ≡ challenge_message username ∷ l.log
  unfolding challenge_peer
  challenge_peer-log l username = refl

  mode_of_action-accepted :
      (a : Action Cert) (host : Host Cert)
      → mode_of_action sends reply a ≡ connect_to_peer host
      → a ≡ accepted host
  mode_of_action-accepted nothing host e = absurd (cc)
  mode_of_action-accepted error host e = absurd (cc)
  mode_of_action-accepted quit host e = absurd (cc)
  mode_of_action-accepted (accepted h) host e = cc

  of_challenge-accepted :
      (a : Answer Cert) (host : Host Cert)
      → of_challenge sends reply a ≡ accepted host
      → a ≡ start host
  of_challenge-accepted refusal host e = absurd (cc)
  of_challenge-accepted failure host e = absurd (cc)
  of_challenge-accepted (start h) host e = cc

  -- The words of a challenge that is accepted.
  abbrev pub Challenged : Link Cert Key → Link Cert Key → List (List ℕ) → Host Cert → Type 0
  Challenged l l' words host =
      (word : List ℕ) × (name : List ℕ) × (words ≡ word ∷ name ∷ [])
      × (same_word (c_str word) challenge_word ≡ true)
      × (l'.log ≡ challenge_message (c_str name) ∷ l.log)
      × (sends (challenge_message (c_str name)) ≡ true)
      × Started host

  of_list-accepted :
      (usernames : List ℕ) (host : Host Cert) → of_list sends reply usernames ≡ accepted host → ⊥
  of_list-accepted [] host e = cc
  of_list-accepted (u ∷ usernames) host e = elim (Bool-cases (length (u ∷ usernames) == 0)) [
    | inl z ↦ let f = (rw z at e) in cc
    | inr n ↦ let f = (rw n at e) in cc
  ]

  one_word :
      (l l' : Link Cert Key) (word : List ℕ) (host : Host Cert)
      → on_words sends reply l (word ∷ []) ≡ (l', accepted host)
      → ⊥
  one_word l l' word host e = elim (Bool-cases (same_word (c_str word) exit_word)) [
    | inl leaves ↦ let f = (rw leaves at e) in cc
    | inr stays ↦ elim (Bool-cases (same_word (c_str word) list_word)) [
      | inl lists ↦
          let f = (rw (stays, lists) at e) in
          of_list-accepted (get_user_list sends reply l).1 host (cc)
      | inr other ↦ let f = (rw (stays, other) at e) in cc
    ]
  ]

  on_words-accepted :
      (l l' : Link Cert Key) (words : List (List ℕ)) (host : Host Cert)
      → on_words sends reply l words ≡ (l', accepted host)
      → Challenged l l' words host
  on_words-accepted l l' [] host e = absurd (cc)
  on_words-accepted l l' (word ∷ []) host e = absurd (one_word l l' word host e)
  on_words-accepted l l' (word ∷ name ∷ []) host e =
      elim (Bool-cases (same_word (c_str word) challenge_word)) [
        | inr other ↦ let f = (rw other at e) in absurd (cc)
        | inl good ↦
            let f = (rw good at e) in
            let q = challenge_peer sends reply l (c_str name) in
            let link : q.0 ≡ l' = cc in
            let taken : of_challenge sends reply q.1 ≡ accepted host = cc in
            let (sent, by) =
              challenge_peer-start l (c_str name) host (of_challenge-accepted q.1 host taken) in
            (
              word,
              name,
              refl,
              good,
              sym (ap (λ (x : Link Cert Key). x.log) link) ∙ challenge_peer-log l (c_str name),
              sent,
              by,
            )
      ]
  on_words-accepted l l' (word ∷ name ∷ more ∷ words) host e = absurd (cc)

  -- After a line from the user the lobby connects to a peer only when the line was a challenge with a
  -- name, the challenge of that name went out, and the server then started the game with that peer.
  pub handle_stdin_connects :
      (l l' : Link Cert Key) (line : Option (List ℕ)) (host : Host Cert)
      → handle_stdin sends reply l line ≡ (l', connect_to_peer host)
      → (text : List ℕ) × (line ≡ some text) × Challenged l l' (parse_line text) host
  unfolding handle_stdin do_action
  handle_stdin_connects l l' none host e = absurd (cc)
  handle_stdin_connects l l' (some text) host e =
      let q = on_words sends reply l (parse_line text) in
      let link : q.0 ≡ l' = cc in
      let taken = mode_of_action-accepted q.1 host (cc) in
      (text, refl, on_words-accepted l l' (parse_line text) host (cc))
