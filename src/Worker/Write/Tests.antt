-- ===== src/Worker/Write/Tests.antt =====
-- A call of `writeToDatabase` of Worker/worker.cpp.
use distributed_matrix_multi.Prelude.{refl, some, [], ◌∷◌, false, true, pos, Bytes, codes, ◌≡◌}
use distributed_matrix_multi.Worker.Handler.Defs.{HttpTask}
use distributed_matrix_multi.Worker.Message.{post_message}
use distributed_matrix_multi.Worker.Write.Defs.{Writer, failed, fill}
use distributed_matrix_multi.Worker.Write.Concludes.{Concludes, write_to_database-Concludes}

abbrev task : HttpTask
task = record { result_matrix = 1; row = 2; col = 10; result = pos 42; last_chunk = false }

abbrev message : Bytes
message =
    codes
      "POST /1 HTTP/1.1\r\nRow: 2\r\nColumn: 10\r\nLast-Chunk: FALSE\r\nContent-Length: 2\r\n\r\n\r\n42"

-- A worker that holds the request of worker 2 back.
abbrev writer : Writer
writer = record {
  lamport = record {
    worker_nr = 1;
    number_workers = 3;
    lamport_time = 9;
    mqtt_request_open = true;
    request_lamport_time = 5;
    sem_write_database = 0;
    received_replies = 0;
    request_queue = (2, 7) ∷ [];
  };
  buf_tcp = [];
  count_calculations = 0;
  rtt_count = 0;
}

post_message-task : post_message task ≡ some message
unfolding post_message
post_message-task = refl

write_to_database-Concludes_example :
    Concludes task (fill message []) writer (failed ∷ []) (failed ∷ failed ∷ []) [] (failed ∷ [])
write_to_database-Concludes_example =
    write_to_database-Concludes task message writer post_message-task (failed ∷ [])
      (failed ∷ failed ∷ []) [] (failed ∷ []) (refl, tt) (refl, (refl, tt)) tt
