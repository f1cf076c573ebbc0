-- ===== src/Controller/MatrixData/Plan.antt =====
-- `MatrixData::prepareTasks` of Controller/MatrixData.h: the definitions, and that the chunks cover a
-- row, stay within their bounds and are found unless the code faults.
pub mod Float
pub mod Defs
pub mod Covers
pub mod Prepare
pub mod Chunks
