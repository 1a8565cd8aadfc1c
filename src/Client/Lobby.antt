-- ===== src/Client/Lobby.antt =====
-- The lobby of a client: src/client/server.cpp and src/client/server_lobby.cpp.
pub mod Answers
mod Tests
use four_in_a_row.Base.{
  ℕ, ◌+◌, Bool, true, false, not, ◌&&◌, ◌||◌, Option, none, some, List, [], ◌∷◌, ◌==◌,
  if◌then◌else◌, length,
}
use four_in_a_row.Wire.Fields.{SockAddr, c_str}
use four_in_a_row.Wire.Message.{
  Message, MessageType, users_list, game_start, game_cancel, challenge_message,
  users_list_request_message, users_list_message, challenge_response_message,
  challenge_forward_message, game_start_message, game_cancel_message, game_end_message,
  register_message, certificate, certificate_message,
}
use four_in_a_row.Socket.Ports.{random_port}
use four_in_a_row.Client.{parse_line, Asked, waits, end_of_input, answer}

-- A SecureHost.
pub record Host (Cert : Type 0) : Type 0 where
  pub addr : SockAddr
  pub cert : Cert

-- The results 1, -1 and 0 of `challengePeer` and `replyPeerChallenge`, the last with `*peerHost`.
pub data Answer (Cert : Type 0) : Type 0 where
  failure refusal : Answer Cert
  start : Host Cert → Answer Cert

pub data ExitCode : Type 0 where
  exit_ok connection_error generic_error fatal_error : ExitCode

-- A ConnectionMode with the fields that belong to its type.
pub data Mode (Cert : Type 0) : Type 0 where
  connect_to_server single_player carry_on : Mode Cert
  connect_to_peer : Host Cert → Mode Cert
  wait_for_peer : Host Cert → ℕ → Mode Cert
  exit : ExitCode → Mode Cert

-- What `doAction` returns: 0, 1, -2 and -1.
pub data Action (Cert : Type 0) : Type 0 where
  nothing error quit : Action Cert
  accepted : Host Cert → Action Cert

abbrev pub same_word : List ℕ → List ℕ → Bool
same_word [] [] = true
same_word [] (d ∷ ds) = false
same_word (c ∷ cs) [] = false
same_word (c ∷ cs) (d ∷ ds) = (c == d) && same_word cs ds

abbrev pub list_word : List ℕ
list_word = b'l' ∷ b'i' ∷ b's' ∷ b't' ∷ []

abbrev pub exit_word : List ℕ
exit_word = b'e' ∷ b'x' ∷ b'i' ∷ b't' ∷ []

abbrev pub challenge_word : List ℕ
challenge_word = b'c' ∷ b'h' ∷ b'a' ∷ b'l' ∷ b'l' ∷ b'e' ∷ b'n' ∷ b'g' ∷ b'e' ∷ []

-- The object `Server`, with the messages given to `sendMsg`, the last one first.
pub record Link (Cert Key : Type 0) : Type 0 where
  pub connected : Bool
  pub log : List (Message Cert Key)

module _ {Cert Key : Type 0} where
  -- With what `sendMsg` answers, and what `receiveMsg` returns for the types that are asked for,
  -- which is NULL or a message of one of them.
  module _ (sends : Message Cert Key → Bool)
      (reply : List MessageType → Option (Message Cert Key)) where
    -- A call of `sendMsg`, after which a failure is noted in `connected`.
    abbrev pub after_send : Link Cert Key → Message Cert Key → Link Cert Key
    after_send l m = record { connected = l.connected && sends m; log = m ∷ l.log }

    abbrev pub usernames_of : Option (Message Cert Key) → List ℕ
    usernames_of (some (users_list_message usernames)) = usernames
    usernames_of (some m) = []
    usernames_of none = []

    abbrev pub on_reply : Option (Message Cert Key) → Answer Cert
    on_reply (some (game_start_message username addr cert)) =
        start (record { addr = addr; cert = cert })
    on_reply (some (game_cancel_message username)) = refusal
    on_reply (some m) = failure
    on_reply none = failure

    unfoldable pub get_user_list : Link Cert Key → Link Cert Key × List ℕ
    get_user_list l =
        let m = users_list_request_message 0 in
        (after_send l m, if sends m then usernames_of (reply (users_list ∷ [])) else [])

    unfoldable pub challenge_peer : Link Cert Key → List ℕ → Link Cert Key × Answer Cert
    challenge_peer l username =
        let m = challenge_message username in
        (
          after_send l m,
          if sends m then on_reply (reply (game_start ∷ game_cancel ∷ [])) else failure,
        )

    -- With a number from `rand`; the port is `*listen_port`.
    unfoldable pub reply_peer_challenge :
        Link Cert Key → List ℕ → Bool → ℕ → Link Cert Key × Answer Cert × ℕ
    reply_peer_challenge l username response r =
        let port = random_port r in
        let m = challenge_response_message username response port in
        (
          after_send l m,
          (if not (sends m)
              then failure
              else if response
              then on_reply (reply (game_start ∷ game_cancel ∷ []))
              else refusal),
          port,
        )

    abbrev pub certificate_of : (Cert → Bool) → Option (Message Cert Key) → Bool
    certificate_of takes (some (certificate_message cert)) = takes cert
    certificate_of takes (some m) = false
    certificate_of takes none = false

    -- With what `setOtherCert` answers; says whether the result is 0.
    unfoldable pub get_server_cert : (Cert → Bool) → Bool
    get_server_cert takes = certificate_of takes (reply (certificate ∷ []))

    -- With the results of `connectServer`, `setOtherCert` and `handshakeClient`, and whether the host
    -- has a certificate; says whether the result is 0.
    unfoldable pub register_to_server :
        Link Cert Key → List ℕ → Bool → Bool → (Cert → Bool) → Bool → Link Cert Key × Bool
    unfolding get_server_cert
    register_to_server l username connects has_cert takes shakes =
        let m = register_message username in
        if connects && (has_cert || get_server_cert takes) && shakes
        then (record { connected = sends m; log = m ∷ l.log }, sends m)
        else (record l { connected = false }, false)

    abbrev pub of_challenge : Answer Cert → Action Cert
    of_challenge refusal = nothing
    of_challenge (start host) = accepted host
    of_challenge failure = error

    abbrev pub of_list : List ℕ → Action Cert
    of_list usernames = if length usernames == 0 then error else nothing

    abbrev pub on_words : Link Cert Key → List (List ℕ) → Link Cert Key × Action Cert
    on_words l (word ∷ []) =
        let q = get_user_list l in
        if same_word (c_str word) exit_word
        then (l, quit)
        else if same_word (c_str word) list_word
        then (q.0, of_list q.1)
        else (l, nothing)
    on_words l (word ∷ name ∷ []) =
        let q = challenge_peer l (c_str name) in
        if same_word (c_str word) challenge_word then (q.0, of_challenge q.1) else (l, nothing)
    on_words l words = (l, nothing)

    unfoldable pub do_action : Link Cert Key → List (List ℕ) → Link Cert Key × Action Cert
    unfolding get_user_list challenge_peer
    do_action l words = on_words l words

    abbrev pub mode_of_action : Action Cert → Mode Cert
    mode_of_action nothing = carry_on
    mode_of_action error = exit connection_error
    mode_of_action (accepted host) = connect_to_peer host
    mode_of_action quit = exit exit_ok

    unfoldable pub handle_stdin : Link Cert Key → Option (List ℕ) → Link Cert Key × Mode Cert
    handle_stdin l none = (l, exit exit_ok)
    handle_stdin l (some line) = let q = do_action l (parse_line line) in (q.0, mode_of_action q.1)

    abbrev pub yes_or_no : List (List ℕ) → Asked Bool → Asked Bool
    yes_or_no (word ∷ []) again =
        if same_word (c_str word) (b'y' ∷ [])
        then answer true
        else if same_word (c_str word) (b'n' ∷ [])
        then answer false
        else again
    yes_or_no words again = again

    -- The end of the input is a no.
    unfoldable pub ask_response : List (Option (List ℕ)) → Asked Bool
    ask_response [] = waits
    ask_response (none ∷ lines) = answer false
    ask_response (some line ∷ lines) =
        let again = ask_response lines in yes_or_no (parse_line line) again

    abbrev pub mode_of_answer : Answer Cert → ℕ → Mode Cert
    mode_of_answer refusal port = carry_on
    mode_of_answer (start host) port = wait_for_peer host port
    mode_of_answer failure port = exit connection_error

    abbrev pub on_response :
        Link Cert Key → List ℕ → ℕ → Asked Bool → Asked (Link Cert Key × Mode Cert)
    on_response l username r (answer response) =
        let q = reply_peer_challenge l username response r in answer (q.0, mode_of_answer q.1 q.2)
    on_response l username r waits = waits
    on_response l username r end_of_input = end_of_input

    -- `handleMessage` on a message that is not NULL, with the lines that the user types.
    unfoldable pub handle_message :
        Link Cert Key
        → Message Cert Key
        → List (Option (List ℕ))
        → ℕ
        → Asked (Link Cert Key × Mode Cert)
    unfolding ask_response reply_peer_challenge
    handle_message l (challenge_forward_message username) lines r =
        on_response l username r (ask_response lines)
    handle_message l m lines r = answer (l, carry_on)
