-- ===== src/Client/Main.antt =====
-- promptChooseConnection of src/client/client.cpp, and serverLobby of src/client/server_lobby.cpp.
pub mod Loops
pub mod Games
mod Tests
use four_in_a_row.Base.{
  ℕ, Bool, true, false, ◌&&◌, Option, none, some, List, [], ◌∷◌, ◌++◌, ◌==◌, if◌then◌else◌,
}
use four_in_a_row.Wire.Result.{Result, ok, failed, raised, fault}
use four_in_a_row.Wire.Fields.{c_str}
use four_in_a_row.Wire.Message.{Message, MessageType, game_end_message}
use four_in_a_row.Secure.{Suite, Channel}
use four_in_a_row.Secure.Peers.{Attempt, succeeds, fails, throws, crashes, waiting}
use four_in_a_row.Client.{parse_line, Asked, waits, end_of_input, answer, Turn, my_turn, their_turn}
use four_in_a_row.Client.Lobby.{
  Link, Mode, ExitCode, exit_ok, connection_error, generic_error, fatal_error, same_word, exit_word,
  handle_message, handle_stdin, after_send, register_to_server,
}
use four_in_a_row.Client.Lobby as lobby
use four_in_a_row.Client.Peers.{wait_for_peer, connect_to_peer}

-- A ConnectionMode as `main` uses it: the address only goes to `connect`, and a certificate that
-- could not be loaded is NULL.
pub data Task (Cert : Type 0) : Type 0 where
  to_server : Option Cert → Task Cert
  to_peer : Option Cert → Task Cert
  for_peer : ℕ → Option Cert → Task Cert
  offline : Task Cert
  quits : ExitCode → Task Cert
  carry_on : Task Cert

abbrev pub task_of : {Cert : Type 0} → Mode Cert → Task Cert
task_of lobby.connect_to_server = to_server none
task_of lobby.single_player = offline
task_of lobby.carry_on = carry_on
task_of (lobby.connect_to_peer host) = to_peer (some host.cert)
task_of (lobby.wait_for_peer host port) = for_peer port (some host.cert)
task_of (lobby.exit code) = quits code

-- The enumerators as the result of `main`.
abbrev pub exit_code : ExitCode → ℕ
exit_code exit_ok = 0
exit_code connection_error = 1
exit_code generic_error = 2
exit_code fatal_error = 3

abbrev pub peer_word : List ℕ
peer_word = b'p' ∷ b'e' ∷ b'e' ∷ b'r' ∷ []

abbrev pub server_word : List ℕ
server_word = b's' ∷ b'e' ∷ b'r' ∷ b'v' ∷ b'e' ∷ b'r' ∷ []

abbrev pub offline_word : List ℕ
offline_word = b'o' ∷ b'f' ∷ b'f' ∷ b'l' ∷ b'i' ∷ b'n' ∷ b'e' ∷ []

-- With `load_cert_file` and `atoi`.
module _ {Cert : Type 0} (load_cert_file : List ℕ → Option Cert) (atoi : List ℕ → ℕ) where
  abbrev pub choice_of : List (List ℕ) → Asked (Task Cert) → Asked (Task Cert)
  choice_of [] again = answer carry_on
  choice_of (word ∷ []) again =
      if same_word (c_str word) offline_word
      then answer offline
      else if same_word (c_str word) exit_word
      then answer (quits exit_ok)
      else again
  choice_of (word ∷ a ∷ []) again = again
  choice_of (word ∷ a ∷ b ∷ []) again =
      if same_word (c_str word) peer_word
      then answer (for_peer (atoi (c_str a)) (load_cert_file (c_str b)))
      else if same_word (c_str word) server_word
      then answer (to_server none)
      else again
  choice_of (word ∷ a ∷ b ∷ c ∷ []) again =
      if same_word (c_str word) peer_word
      then answer (to_peer (load_cert_file (c_str c)))
      else if same_word (c_str word) server_word
      then answer (to_server (load_cert_file (c_str c)))
      else again
  choice_of (word ∷ a ∷ b ∷ c ∷ d ∷ words) again =
      if same_word (c_str word) server_word then answer (to_server none) else again

  unfoldable pub prompt_choose_connection : List (Option (List ℕ)) → Asked (Task Cert)
  unfolding parse_line
  prompt_choose_connection [] = waits
  prompt_choose_connection (none ∷ lines) = answer (quits exit_ok)
  prompt_choose_connection (some line ∷ lines) =
      let again = prompt_choose_connection lines in choice_of (parse_line line) again

-- What wakes `serverLobby`: an error of `select`, a line of the user, or the server, with what
-- `receiveAnyMsg` ends with, the lines that the user types then, and a number from `rand`.
pub data Event (Cert Key : Type 0) : Type 0 where
  select_error : Event Cert Key
  typed : Option (List ℕ) → Event Cert Key
  arrived : Result (Message Cert Key) → List (Option (List ℕ)) → ℕ → Event Cert Key

module _ {Cert Key : Type 0} (sends : Message Cert Key → Bool)
    (reply : List MessageType → Option (Message Cert Key)) where
  abbrev pub of_asked : Asked (Link Cert Key × Mode Cert) → Attempt (Link Cert Key × Mode Cert)
  of_asked (answer q) = succeeds q
  of_asked waits = waiting
  of_asked end_of_input = waiting

  -- One of the two descriptors is ready. NULL from `receiveAnyMsg` is used without a test.
  unfoldable pub on_event : Link Cert Key → Event Cert Key → Attempt (Link Cert Key × Mode Cert)
  unfolding handle_message handle_stdin
  on_event l select_error = succeeds (l, lobby.exit generic_error)
  on_event l (typed line) = succeeds (handle_stdin sends reply l line)
  on_event l (arrived (ok m) lines r) = of_asked (handle_message sends reply l m lines r)
  on_event l (arrived failed lines r) = crashes
  on_event l (arrived raised lines r) = succeeds (l, lobby.exit connection_error)
  on_event l (arrived fault lines r) = crashes

  abbrev pub go_on_with :
      (Link Cert Key → Attempt (Link Cert Key × Mode Cert))
      → Attempt (Link Cert Key × Mode Cert)
      → Attempt (Link Cert Key × Mode Cert)
  go_on_with rest (succeeds (l, lobby.carry_on)) = rest l
  go_on_with rest q = q

  unfoldable pub lobby_loop :
      Link Cert Key → List (Event Cert Key) → Attempt (Link Cert Key × Mode Cert)
  unfolding on_event
  lobby_loop l [] = waiting
  lobby_loop l (e ∷ es) = go_on_with (λ l'. lobby_loop l' es) (on_event l e)

  -- With what a registration comes to, if there is no connection yet.
  unfoldable pub server_lobby :
      (Link Cert Key → Link Cert Key × Bool)
      → Link Cert Key
      → List (Event Cert Key)
      → Attempt (Link Cert Key × Mode Cert)
  unfolding lobby_loop
  server_lobby registers l es =
      let q = registers l in
      if l.connected
      then lobby_loop l es
      else if q.1
      then lobby_loop q.0 es
      else succeeds (q.0, lobby.exit connection_error)
