-- ===== src/Worker/Mutex/System/Tests.antt =====
-- Runs of three workers of Worker/worker.cpp.
use distributed_matrix_multi.Prelude.{ℕ, ◌<◌, refl, [], ◌∷◌, arith, update, true}
use distributed_matrix_multi.Worker.Mutex.Defs.{
  MqttPayload, LamportState, reply, mqtt_reply, mqtt_request, advance_time, count_reply, hold_back,
  Published,
}
use distributed_matrix_multi.Worker.Mutex.Requests.{request_from}
use distributed_matrix_multi.Worker.Mutex.System.Defs.{
  Node, Move, take, count, test, compare_times, hold, reply_now, ask, enter, finish, emptied, close,
  comes_first, delivered_to, deliver, step, Reachable, started, stepped, start,
}

-- A state of three workers, and that they reach it.
abbrev Run : Type 0
Run = (s : ℕ → Node) × Reachable 3 s

abbrev then_step :
    (r : Run) (k : ℕ) {v : Node} {published : Published} → k < 3 → Move (r.0 k) v published → Run
then_step (s, r) k {v} {published} lt m =
    (deliver published (update s k v), stepped r (step k v published lt m))

abbrev reply_from : ℕ → ℕ → MqttPayload
reply_from time nr = record { message_type = reply; lamport_time = time; worker_number = nr }

first : 0 < 3
first = omega arith

second : 1 < 3
second = omega arith

third : 2 < 3
third = omega arith

abbrev run_1 : Run
unfolding delivered_to mqtt_request mqtt_reply advance_time count_reply hold_back comes_first
run_1 = then_step (start 3, started) 1 second (ask refl)

abbrev run_2 : Run
unfolding delivered_to mqtt_request mqtt_reply advance_time count_reply hold_back comes_first
run_2 = then_step run_1 0 first (take (request_from 1 1) [] [] refl refl)

abbrev run_3 : Run
unfolding delivered_to mqtt_request mqtt_reply advance_time count_reply hold_back comes_first
run_3 = then_step run_2 0 first (test (request_from 1 1) refl refl)

abbrev run_4 : Run
unfolding delivered_to mqtt_request mqtt_reply advance_time count_reply hold_back comes_first
run_4 = then_step run_3 0 first (reply_now 1 refl)

abbrev run_5 : Run
unfolding delivered_to mqtt_request mqtt_reply advance_time count_reply hold_back comes_first
run_5 = then_step run_4 2 third (take (request_from 1 1) [] [] refl refl)

abbrev run_6 : Run
unfolding delivered_to mqtt_request mqtt_reply advance_time count_reply hold_back comes_first
run_6 = then_step run_5 2 third (test (request_from 1 1) refl refl)

abbrev run_7 : Run
unfolding delivered_to mqtt_request mqtt_reply advance_time count_reply hold_back comes_first
run_7 = then_step run_6 2 third (reply_now 1 refl)

abbrev run_8 : Run
unfolding delivered_to mqtt_request mqtt_reply advance_time count_reply hold_back comes_first
run_8 = then_step run_7 1 second (take (reply_from 3 0) [] ((reply_from 3 2) ∷ []) refl refl)

abbrev run_9 : Run
unfolding delivered_to mqtt_request mqtt_reply advance_time count_reply hold_back comes_first
run_9 = then_step run_8 1 second (count refl)

abbrev run_10 : Run
unfolding delivered_to mqtt_request mqtt_reply advance_time count_reply hold_back comes_first
run_10 = then_step run_9 1 second (take (reply_from 3 2) [] [] refl refl)

abbrev run_11 : Run
unfolding delivered_to mqtt_request mqtt_reply advance_time count_reply hold_back comes_first
run_11 = then_step run_10 1 second (count refl)

abbrev run_12 : Run
unfolding delivered_to mqtt_request mqtt_reply advance_time count_reply hold_back comes_first
run_12 = then_step run_11 1 second (enter refl (omega arith))

abbrev run_13 : Run
unfolding delivered_to mqtt_request mqtt_reply advance_time count_reply hold_back comes_first
run_13 = then_step run_12 0 first (ask refl)

abbrev run_14 : Run
unfolding delivered_to mqtt_request mqtt_reply advance_time count_reply hold_back comes_first
run_14 = then_step run_13 1 second (take (request_from 4 0) [] [] refl refl)

abbrev run_15 : Run
unfolding delivered_to mqtt_request mqtt_reply advance_time count_reply hold_back comes_first
run_15 = then_step run_14 1 second (test (request_from 4 0) refl refl)

abbrev run_16 : Run
unfolding delivered_to mqtt_request mqtt_reply advance_time count_reply hold_back comes_first
run_16 = then_step run_15 1 second (finish refl)

abbrev run_17 : Run
unfolding delivered_to mqtt_request mqtt_reply advance_time count_reply hold_back comes_first
run_17 = then_step run_16 1 second (emptied refl refl)

abbrev run_18 : Run
unfolding delivered_to mqtt_request mqtt_reply advance_time count_reply hold_back comes_first
run_18 = then_step run_17 1 second (close refl)

abbrev run_19 : Run
unfolding delivered_to mqtt_request mqtt_reply advance_time count_reply hold_back comes_first
run_19 = then_step run_18 1 second (compare_times (request_from 4 0) refl)

abbrev run_20 : Run
unfolding delivered_to mqtt_request mqtt_reply advance_time count_reply hold_back comes_first
run_20 = then_step run_19 1 second (hold (request_from 4 0) refl)

abbrev run_21 : Run
unfolding delivered_to mqtt_request mqtt_reply advance_time count_reply hold_back comes_first
run_21 = then_step run_20 1 second (ask refl)

abbrev run_22 : Run
unfolding delivered_to mqtt_request mqtt_reply advance_time count_reply hold_back comes_first
run_22 = then_step run_21 0 first (take (request_from 7 1) [] [] refl refl)

abbrev run_23 : Run
unfolding delivered_to mqtt_request mqtt_reply advance_time count_reply hold_back comes_first
run_23 = then_step run_22 0 first (test (request_from 7 1) refl refl)

abbrev run_24 : Run
unfolding delivered_to mqtt_request mqtt_reply advance_time count_reply hold_back comes_first
run_24 = then_step run_23 0 first (compare_times (request_from 7 1) refl)

abbrev run_25 : Run
unfolding delivered_to mqtt_request mqtt_reply advance_time count_reply hold_back comes_first
run_25 = then_step run_24 0 first (hold (request_from 7 1) refl)

abbrev run_26 : Run
unfolding delivered_to mqtt_request mqtt_reply advance_time count_reply hold_back comes_first
run_26 = then_step run_25 2 third (take (request_from 4 0) [] ((request_from 7 1) ∷ []) refl refl)

-- A worker with an open request, and its queue.
abbrev busy : LamportState
busy = record {
  worker_nr = 1;
  number_workers = 3;
  lamport_time = 5;
  mqtt_request_open = true;
  request_lamport_time = 4;
  sem_write_database = 0;
  received_replies = 1;
  request_queue = (2, 5) ∷ [];
}
