-- ===== src/Worker/Mutex/Tests.antt =====
-- Workers 0 and 2 of three, with requests of the same time, in Worker/worker.cpp.
use distributed_matrix_multi.Prelude.{ℕ, refl, Bool, true, List, [], ◌∷◌, arith}
use distributed_matrix_multi.Worker.Mutex.Defs.{LamportState, mqtt_respond_to_open_requests}
use distributed_matrix_multi.Worker.Mutex.Replies.{
  Responds, mqtt_respond_to_open_requests-Responds, receive_replies, Counts,
  receive_replies-Releases,
}

abbrev worker_at : ℕ → Bool → List (ℕ × ℕ) → LamportState
worker_at nr opened queue = record {
  worker_nr = nr;
  number_workers = 3;
  lamport_time = 7;
  mqtt_request_open = opened;
  request_lamport_time = 6;
  sem_write_database = 0;
  received_replies = 0;
  request_queue = queue;
}

mqtt_respond_to_open_requests-Responds_example :
    Responds
      (worker_at 2 true ((0, 8) ∷ (1, 6) ∷ []))
      (mqtt_respond_to_open_requests (worker_at 2 true ((0, 8) ∷ (1, 6) ∷ [])))
mqtt_respond_to_open_requests-Responds_example =
    mqtt_respond_to_open_requests-Responds (worker_at 2 true ((0, 8) ∷ (1, 6) ∷ []))

receive_replies-Releases_example :
    Counts (worker_at 2 true []) 2 (receive_replies ((9, 0) ∷ (8, 1) ∷ []) (worker_at 2 true []))
receive_replies-Releases_example =
    receive_replies-Releases ((9, 0) ∷ (8, 1) ∷ []) (worker_at 2 true []) refl (omega arith)
      (omega arith)
