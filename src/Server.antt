-- ===== src/Server.antt =====
-- The game server: src/server/user.h, src/server/user_list.cpp and src/server/server.cpp.
pub mod Map
pub mod User
pub mod UserList
pub mod Heap
pub mod World
pub mod Links
pub mod Safety
pub mod Frames
pub mod Moves
pub mod Challenge
pub mod Response
pub mod Handlers
pub mod States
pub mod Lifecycle
pub mod Main
pub mod Duel
mod Tests
