-- ===== src/Database/Http.antt =====
-- `httpParse` of Database/database.cpp: the definitions, that it ends, and that it reads the message
-- that a worker writes and the request of a reader.
pub mod Parse
pub mod Ends
pub mod RoundTrip
pub mod Posted
pub mod Gets
mod Tests
