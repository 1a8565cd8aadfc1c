-- ===== src/Client/Lobby/Tests.antt =====
-- The lobby of src/client/server_lobby.cpp when the server starts every game.
use four_in_a_row.Base.{ℕ, ◌≤◌, ◌≡◌, refl, Bool, true, Option, some, List, [], ◌∷◌}
use four_in_a_row.Wire.Fields.{c_str}
use four_in_a_row.Wire.Message.{
  Message, MessageType, game_start_message, challenge_forward_message, challenge_response_message,
  challenge_message,
}
use four_in_a_row.Client.{parse_line, answer}
use four_in_a_row.Client.Lobby.{
  Host, Link, handle_message, handle_stdin, ask_response, reply_peer_challenge, challenge_peer,
  do_action,
}
use four_in_a_row.Client.Lobby.Answers.{
  Started, Challenged, handle_message_listens, handle_stdin_connects,
}

abbrev a_host : Host ℕ
a_host = record { addr = record { s_addr = 2130706433; sin_port = 50000 }; cert = 7 }

abbrev starts : List MessageType → Option (Message ℕ ℕ)
starts types = some (game_start_message (b'b' ∷ []) a_host.addr a_host.cert)

abbrev always : Message ℕ ℕ → Bool
always m = true

abbrev a_link : Link ℕ ℕ
a_link = record { connected = true; log = [] }

abbrev answered : Message ℕ ℕ
answered = challenge_response_message (b'b' ∷ []) true 49153

handle_message_listens_example :
    (username : List ℕ) × (◌≡◌ {A = Message ℕ ℕ}
      (challenge_forward_message (b'b' ∷ []))
      (challenge_forward_message username))
    × (ask_response always starts (some (b'x' ∷ []) ∷ some (b'y' ∷ []) ∷ []) ≡ answer true)
    × (answered ∷ [] ≡ challenge_response_message username true 49153 ∷ [])
    × (always (challenge_response_message username true 49153) ≡ true)
    × Started always starts a_host
    × (49152 ≤ 49153)
    × (49153 ≤ 65535)
unfolding handle_message ask_response reply_peer_challenge parse_line c_str
handle_message_listens_example =
    handle_message_listens always starts a_link (record a_link { log = answered ∷ [] })
      (challenge_forward_message (b'b' ∷ [])) (some (b'x' ∷ []) ∷ some (b'y' ∷ []) ∷ []) 1 49153
      a_host refl

abbrev typed : List ℕ
typed = b'c' ∷ b'h' ∷ b'a' ∷ b'l' ∷ b'l' ∷ b'e' ∷ b'n' ∷ b'g' ∷ b'e' ∷ b' ' ∷ b'b' ∷ []

handle_stdin_connects_example :
    (text : List ℕ) × (◌≡◌ {A = Option (List ℕ)} (some typed) (some text))
    × Challenged always starts a_link
        (record a_link { log = challenge_message (b'b' ∷ []) ∷ [] })
        (parse_line text)
        a_host
unfolding handle_stdin do_action challenge_peer parse_line c_str
handle_stdin_connects_example =
    handle_stdin_connects always starts a_link
      (record a_link { log = challenge_message (b'b' ∷ []) ∷ [] }) (some typed) a_host refl
