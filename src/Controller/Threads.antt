-- ===== src/Controller/Threads.antt =====
-- The threads of Controller/controller.cpp, one for each worker, and the tasks between them.
pub mod Defs
pub mod Balance
pub mod Steps
pub mod Start
pub mod Outcome
mod Tests
