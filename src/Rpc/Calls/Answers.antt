-- ===== src/Rpc/Calls/Answers.antt =====
-- What a client of gen-cpp/RPCSendMatrixTasks.cpp gets for its call.
use distributed_matrix_multi.Rpc.Calls.Client
