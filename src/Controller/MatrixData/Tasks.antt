-- ===== src/Controller/MatrixData/Tasks.antt =====
-- `MatrixData::createTasks` of Controller/MatrixData.h: the definitions, that the tasks of a field
-- hold its row and its column, and how long a chunk can be.
pub mod Defs
pub mod Chunks
pub mod Dots
pub mod Product
pub mod Sizes
