-- ===== src/Rpc/Task.antt =====
-- `RPCMatrixTask` of gen-cpp/RPCSendMatrixTasks_types.h. Numbers that the controller only counts up
-- from zero are natural.
use distributed_matrix_multi.Prelude.{ℕ, ℤ, List}

pub record RpcMatrixTask : Type 0 where
  pub result_matrix : ℕ
  pub row : ℕ
  pub col : ℕ
  pub matrix_chunk_a : List ℤ
  pub matrix_chunk_b : List ℤ
