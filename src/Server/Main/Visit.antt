-- ===== src/Server/Main/Visit.antt =====
-- What the loop of `main` of src/server/server.cpp does about one descriptor.
use four_in_a_row.Server.Map.{fd_key}
