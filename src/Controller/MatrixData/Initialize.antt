-- ===== src/Controller/MatrixData/Initialize.antt =====
-- `MatrixData::initialize` of Controller/MatrixData.h: the definitions, the order of the fields, and
-- the state that it leaves.
pub mod Defs
pub mod Fields
pub mod Creates
pub mod Vectors
pub mod Established
