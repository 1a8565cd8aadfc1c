-- ===== src/Server/Tests.antt =====
-- The theorems on src/server/server.cpp and src/server/user_list.cpp with three users connected.
use four_in_a_row.Base.{ℕ, ◌≡◌, ◌≢◌, refl, true, false, none, some, [], ◌∷◌, ◌++◌, replicate, arith}
use four_in_a_row.Base.Int.{pos}
use four_in_a_row.Wire.Message.{register_message, challenge_message}
use four_in_a_row.Server.Map.{Name, name_key, fd_key, find}
use four_in_a_row.Server.User.{User, UserState, deref, securely_connected, available}
use four_in_a_row.Server.UserList.{Users, list_available_from_to}
use four_in_a_row.Server.UserList.Listing.{
  available_names, joined, list_available_first, list_available_later,
}
use four_in_a_row.Server.World.{World, Env}
use four_in_a_row.Server.Moves.{Among}
use four_in_a_row.Server.Handlers.{message, handle_register, handle_message, worker_round}
use four_in_a_row.Server.Handlers.Registration.{register_accepts, register_taken, register_full}
use four_in_a_row.Server.Lifecycle.{next, handle_message_moves}

abbrev amy : Name
amy = b'a' ∷ b'm' ∷ b'y' ∷ []

abbrev bob : Name
bob = b'b' ∷ b'o' ∷ b'b' ∷ []

abbrev eve : Name
eve = b'e' ∷ b'v' ∷ b'e' ∷ []

abbrev a_user : ℕ → UserState → Name → User
a_user fd state name = record {
  fd = fd;
  state = state;
  username = name;
  opponent_username = [];
  references = 0;
  locked = false;
  freed = false;
}

-- Two registered users and one who has just opened a secure connection.
abbrev three_users : Users
three_users = record {
  heap = a_user 4 available amy ∷ a_user 5 available bob ∷ a_user 6 securely_connected [] ∷ [];
  by_username = (amy, 0) ∷ (bob, 1) ∷ [];
  by_fd = (4, 0) ∷ (5, 1) ∷ (6, 2) ∷ [];
}

abbrev three : World ℕ ℕ
three = record { users = three_users; calls = []; trace = [] }

-- As many descriptors as the list holds.
abbrev crowded : World ℕ ℕ
crowded = record {
  users = record three_users { by_fd = replicate 1024 (4, 0) };
  calls = [];
  trace = [];
}

abbrev env : Env ℕ
env = record {
  succeeds = λ n. true;
  server_name = b's' ∷ [];
  server_cert = 0;
  address = λ p. record { s_addr = 0; sin_port = 0 };
  uninitialised = false;
  cert_map = (amy, 1) ∷ (bob, 2) ∷ [];
}

list_available_first_example :
    list_available_from_to three_users (pos 0)
    ≡ joined 10 (available_names three_users.heap three_users.by_username) ++ 0 ∷ []
list_available_first_example = list_available_first three_users

list_available_later_example : list_available_from_to three_users (pos 1) ≡ 0 ∷ []
list_available_later_example = list_available_later three_users 0

names_listed :
    joined 10 (available_names three_users.heap three_users.by_username)
    ≡ b'a' ∷ b'm' ∷ b'y' ∷ b',' ∷ b'b' ∷ b'o' ∷ b'b' ∷ b',' ∷ []
unfolding deref
names_listed = refl

register_accepts_example :
    let r = handle_register env 2 eve three in
    (r.0 ≡ true)
    × ((deref r.1.users.heap 2).state ≡ available)
    × ((deref r.1.users.heap 2).username ≡ eve)
    × (find eve r.1.users.by_username ≡ some 2)
unfolding find
register_accepts_example =
    register_accepts env 2 eve three (omega arith) (λ e. cc) (λ e. cc) refl (omega arith)

register_taken_example :
    let s = (worker_round env 6 (message (register_message amy)) three).1.users in
    ((deref s.heap 2).freed ≡ true)
    × (find 6 s.by_fd ≡ none)
    × (find amy s.by_username ≡ none)
    × ((g : ℕ) → g ≢ 6 → find g s.by_fd ≡ find g three.users.by_fd)
unfolding find deref
register_taken_example =
    register_taken env 2 0 6 amy three (omega arith) refl refl refl refl (λ e. cc) refl

full_list :
    let r = handle_register env 2 eve crowded in
    (r.0 ≡ true)
    × ((deref r.1.users.heap 2).state ≡ available)
    × (find eve r.1.users.by_username ≡ none)
unfolding find
full_list = register_full env 2 eve crowded (omega arith) (λ e. cc) refl (omega arith)

handle_message_moves_example :
    let s = (deref three.users.heap 0).state in
    Among
      (next s)
      s
      (deref (handle_message env 0 (message (challenge_message bob)) three).1.users.heap 0).state
handle_message_moves_example = handle_message_moves env 0 three (message (challenge_message bob))
