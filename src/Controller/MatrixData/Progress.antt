-- ===== src/Controller/MatrixData/Progress.antt =====
-- The count of stored results of Controller/MatrixData.h: `lastChunk`, `informAboutStoredResult` and
-- `allTasksFinished`.
pub mod Defs
pub mod Count
pub mod Finished
