-- ===== src/Rpc.antt =====
-- The remote calls of RPC/RPCSendMatrixTasks.thrift: the struct that the controller sends to a worker,
-- and the code in gen-cpp that puts calls and results on the wire and takes them from it.
pub mod Task
pub mod Protocol
pub mod Wire
pub mod Calls
mod Tests
