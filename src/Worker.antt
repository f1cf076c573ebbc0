-- ===== src/Worker.antt =====
-- The worker: Worker/RPCImplementation.h and Worker/worker.cpp.
pub mod Handler
pub mod Message
pub mod Write
pub mod Mutex
mod Tests
