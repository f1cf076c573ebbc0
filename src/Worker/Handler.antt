-- ===== src/Worker/Handler.antt =====
-- Worker/RPCImplementation.h: `class RPCSendMatrixTasksHandler`, what a worker does at each remote
-- call, and that it computes the products it is asked for.
pub mod Defs
pub mod Dot
