-- ===== src/Worker/Mutex/System.antt =====
-- All workers together: Worker/worker.cpp with the messages that are on their way between the workers.
pub mod Defs
pub mod Weights
pub mod Invariant
pub mod Balance
pub mod Local
pub mod Requests
pub mod Steps
pub mod Exclusion
pub mod Deadlock
mod Tests
pub mod Uninterrupted
