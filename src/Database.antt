-- ===== src/Database.antt =====
-- The database: Database/database.cpp and Database/ResultMatrix.h.
pub mod Http
pub mod ResultMatrix
pub mod Server
