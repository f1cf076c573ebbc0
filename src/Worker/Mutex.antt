-- ===== src/Worker/Mutex.antt =====
-- The mutual exclusion of Worker/worker.cpp: a worker asks the others over MQTT before it writes to the
-- database (the algorithm of Ricart and Agrawala, with Lamport times).
pub mod Defs
pub mod Requests
pub mod Replies
pub mod System
mod Tests
