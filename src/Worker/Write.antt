-- ===== src/Worker/Write.antt =====
-- `writeToDatabase` of Worker/worker.cpp behind `mqtt_request`: the request to the database, the wait for
-- its response, and what follows from it.
pub mod Defs
pub mod Concludes
mod Tests
