-- ===== src/Controller/MatrixData/Queue.antt =====
-- The queue of tasks of Controller/MatrixData.h: `getNextTask` and `reassignTask`.
pub mod Defs
pub mod Ready
pub mod Steps
