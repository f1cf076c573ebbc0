-- ===== src/Controller/MatrixData.antt =====
-- Controller/MatrixData.h: `class MatrixData`, in the order of the work: the division of a row into
-- chunks, the tasks made from it, the queue of tasks and the count of stored results.
pub mod Plan
pub mod Tasks
pub mod State
pub mod Fields
pub mod Queue
pub mod Progress
pub mod Initialize
pub mod Tests
