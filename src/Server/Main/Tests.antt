-- ===== src/Server/Main/Tests.antt =====
-- The main thread of src/server/server.cpp with a first client.
use four_in_a_row.Base.{ℕ, ◌≡◌, ◌≢◌, refl, true, false, [], ◌∷◌, arith}
use four_in_a_row.Queue.{start, pulls, taken, push_signal, pull_wait}
use four_in_a_row.Wire.Message.{Message, certificate_request_message, certificate_message}
use four_in_a_row.Server.Map.{find, fd_key, name_key}
use four_in_a_row.Server.User.{deref, new_user, increase_refs, decrease_refs, set_locked}
use four_in_a_row.Server.UserList.{exists_fd, get_by_fd, insert_user, yield}
use four_in_a_row.Server.World.{Env, send_plain, yield_user, lock, unlock, call}
use four_in_a_row.Server.Links.{Linked}
use four_in_a_row.Server.Handlers.{worker_round, Decoded, message, nothing}
use four_in_a_row.Server.Main.{
  is_set, Poll, Select, ready, goes_on, null_pointer, users_of, poll_round, service, work, Step,
  works, Steps, later,
}
use four_in_a_row.Server.Main.Sweep.{Ends}
use four_in_a_row.Server.Main.Pass.{Attended, poll_round_attends}
use four_in_a_row.Server.Main.Run.{found_are_live, poll_round-Steps, Steps-trans}

abbrev env : Env ℕ
env = record {
  succeeds = λ n. true;
  server_name = b's' ∷ [];
  server_cert = 0;
  address = λ p. record { s_addr = 0; sin_port = 0 };
  uninitialised = false;
  cert_map = [];
}

-- The listener is 3, and four threads have not asked for a message yet.
abbrev idle : Poll ℕ ℕ
idle = record {
  world = record {
    users = record { heap = []; by_username = []; by_fd = [] };
    calls = [];
    trace = [];
  };
  message_queue = start 4;
  active_fd_set = 3 ∷ [];
}

abbrev asks : ℕ → Decoded ℕ ℕ
asks i = message certificate_request_message

abbrev asks_again : ℕ → Message ℕ ℕ → Decoded ℕ ℕ
asks_again i m = message m

abbrev knocks : Select ℕ ℕ
knocks = ready (3 ∷ []) 4 asks

abbrev one_client : Poll ℕ ℕ
one_client = record {
  world = record {
    users = record { heap = new_user 4 ∷ []; by_username = []; by_fd = (4, 0) ∷ [] };
    calls = [];
    trace = [];
  };
  message_queue = start 4;
  active_fd_set = 4 ∷ 3 ∷ [];
}

knocks-goes_on : poll_round 3 knocks idle ≡ goes_on one_client
unfolding poll_round is_set exists_fd find insert_user deref
knocks-goes_on = refl

-- The client asks for the certificate.
abbrev writes : Select ℕ ℕ
writes = ready (4 ∷ []) 5 asks

abbrev asked : Poll ℕ ℕ
asked = record one_client {
  message_queue = (push_signal 1000 (start 4) (4, certificate_request_message)).0;
}

writes-goes_on : poll_round 3 writes one_client ≡ goes_on asked
unfolding poll_round is_set exists_fd find get_by_fd deref yield increase_refs decrease_refs
    new_user push_signal
writes-goes_on = refl

-- A thread takes the request out of the queue and serves it.
abbrev answered : Poll ℕ ℕ
answered = record asked {
  world = work env asks_again (taken (pull_wait asked.message_queue).1) asked.world;
  message_queue = (pull_wait asked.message_queue).0;
}

answers : Step 3 env asked answered
unfolding push_signal
answers = works asks_again (pulls (omega arith))

answered-calls : answered.world.calls ≡ send_plain 0 (certificate_message 0) ∷ []
unfolding push_signal pull_wait work worker_round get_by_fd find yield_user deref lock set_locked
    increase_refs new_user call unlock
answered-calls = refl

-- `get` finds nobody, and `getState` is called on NULL.
stranger : service 9 nothing one_client ≡ null_pointer
unfolding service get_by_fd find
stranger = refl

idle-Linked : Linked (users_of idle)
unfolding find
idle-Linked = record { fds = λ g p e. absurd (cc); names = λ n p e. absurd (cc) }

a_run : Steps 3 env idle answered
a_run =
    later
      (Steps-trans 3 (poll_round-Steps 3 env knocks idle knocks-goes_on)
        (poll_round-Steps 3 env writes one_client writes-goes_on))
      answers

found_are_live_example : Linked (users_of answered)
found_are_live_example = found_are_live 3 env a_run idle-Linked

one_client-Linked : Linked (users_of one_client)
one_client-Linked =
    found_are_live 3 env (poll_round-Steps 3 env knocks idle knocks-goes_on) idle-Linked

both_served :
    (i : ℕ) → is_set i (4 ∷ 3 ∷ []) ≡ true → i ≢ 3 → exists_fd (users_of one_client) i ≡ true
unfolding is_set exists_fd find
both_served i on ne = ground (arith, on, ne)

attended : Ends (Attended 3) (poll_round 3 (ready (4 ∷ 3 ∷ []) 5 asks) one_client)
attended =
    poll_round_attends 3 5 (4 ∷ 3 ∷ []) asks one_client one_client-Linked (omega arith) both_served
