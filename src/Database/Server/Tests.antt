-- ===== src/Database/Server/Tests.antt =====
-- A worker's request to a Database/database.cpp that has no result matrix yet.
use distributed_matrix_multi.Prelude.{true, negsuc}
use distributed_matrix_multi.Worker.Handler.Defs.{HttpTask}

abbrev first_result : HttpTask
first_result = record { result_matrix = 2; row = 1; col = 3; result = negsuc 41; last_chunk = true }
