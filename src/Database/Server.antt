-- ===== src/Database/Server.antt =====
-- Database/database.cpp: the map of result matrices, the two responses, and what `main` does with the
-- content of the receive buffer.
pub mod Defs
pub mod Posts
pub mod Gets
pub mod Served
mod Tests
