-- ===== src/Worker/Tests.antt =====
-- A run of `calcTask` of Worker/RPCImplementation.h.
use distributed_matrix_multi.Prelude.{false, [], ◌∷◌, pos, negsuc}
use distributed_matrix_multi.Rpc.Task.{RpcMatrixTask}
use distributed_matrix_multi.Worker.Handler.Defs.{Handler}

abbrev no_task : RpcMatrixTask
no_task = record { result_matrix = 0; row = 0; col = 0; matrix_chunk_a = []; matrix_chunk_b = [] }

abbrev two_products : RpcMatrixTask
two_products = record {
  result_matrix = 1;
  row = 2;
  col = 0;
  matrix_chunk_a = pos 3 ∷ negsuc 1 ∷ [];
  matrix_chunk_b = pos 7 ∷ pos 5 ∷ [];
}

abbrev idle_handler : Handler
idle_handler = record {
  current_task = no_task;
  current_result = pos 0;
  sem_mqtt = 0;
  sem_mqtt_ready = 0;
  calculation_finished = false;
}
