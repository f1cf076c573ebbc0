-- ===== src/Database/ResultMatrix.antt =====
-- Database/ResultMatrix.h: the values that the workers have stored so far, and how a value is shown.
pub mod Defs
pub mod Cells
pub mod Stores
pub mod Shown
pub mod Sums
pub mod Html
