-- ===== src/Rpc/Calls.antt =====
-- The calls of gen-cpp/RPCSendMatrixTasks.cpp, from the client to the server and back.
pub mod Parts
pub mod Client
pub mod Server
pub mod Structs
pub mod Each
pub mod Exchange
pub mod Answers
