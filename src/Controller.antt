-- ===== src/Controller.antt =====
-- The controller: Controller/Matrix.h, Controller/MatrixData.h and Controller/controller.cpp.
pub mod Matrix
pub mod MatrixData
pub mod Threads
pub mod Environment
