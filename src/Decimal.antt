-- ===== src/Decimal.antt =====
-- Decimal numbers as the program writes and reads them: `numberToString`, which the worker, the
-- database and its result matrices each have, and `readNumberFromChars` of Database/database.cpp.
pub mod Print
pub mod Read
pub mod RoundTrip
pub mod ReadBack
pub mod Printed
mod Tests
