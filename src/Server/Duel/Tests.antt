-- ===== src/Server/Duel/Tests.antt =====
-- Amy challenges Bob in src/server/server.cpp, and then nobody.
use four_in_a_row.Base.{ℕ, ◌+◌, true, false, [], ◌∷◌}
use four_in_a_row.Server.Map.{Name, name_key}
use four_in_a_row.Server.User.{User, available}
use four_in_a_row.Server.World.{World, Env}
use four_in_a_row.Server.Duel.Pair.{Pair}

abbrev amy : Name
amy = b'a' ∷ b'm' ∷ b'y' ∷ []

abbrev bob : Name
bob = b'b' ∷ b'o' ∷ b'b' ∷ []

abbrev someone : ℕ → Name → User
someone fd name = record {
  fd = fd;
  state = available;
  username = name;
  opponent_username = [];
  references = 0;
  locked = false;
  freed = false;
}

abbrev two : World ℕ ℕ
two = record {
  users = record {
    heap = someone 4 amy ∷ someone 5 bob ∷ [];
    by_username = (amy, 0) ∷ (bob, 1) ∷ [];
    by_fd = (4, 0) ∷ (5, 1) ∷ [];
  };
  calls = [];
  trace = [];
}

abbrev env : Env ℕ
env = record {
  succeeds = λ n. true;
  server_name = b's' ∷ [];
  server_cert = 0;
  address = λ p. record { s_addr = 10 + p; sin_port = 7 };
  uninitialised = false;
  cert_map = (amy, 1) ∷ (bob, 2) ∷ [];
}
