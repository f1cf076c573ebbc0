-- ===== src/Rpc/Wire.antt =====
-- `RPCMatrixTask` of gen-cpp/RPCSendMatrixTasks_types.h as it is on the wire, with its reading and its
-- writing of gen-cpp/RPCSendMatrixTasks_types.cpp.
pub mod Defs
pub mod RoundTrip
