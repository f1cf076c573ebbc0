-- ===== src/Startup/Tests.antt =====
-- A start of two workers, in which worker 0 gets to its first request.
use distributed_matrix_multi.Prelude.{ℕ, ◌<◌, refl, true, false, [], arith, pos, update}
use distributed_matrix_multi.Worker.Handler.Defs.{Handler, is_mqtt_initialized, mqtt_ready}
use distributed_matrix_multi.Startup.{
  Member, Startup, Starts, subscribe, call_returns, count_up, pass, write, step, member_of, Runs,
  begun, continued,
}

abbrev new_handler : Handler
new_handler = record {
  current_task = record {
    result_matrix = 0;
    row = 0;
    col = 0;
    matrix_chunk_a = [];
    matrix_chunk_b = [];
  };
  current_result = pos 0;
  sem_mqtt = 0;
  sem_mqtt_ready = 0;
  calculation_finished = false;
}

-- A state of two workers, and that they reach it.
abbrev Started : Type 0
Started = (s : Startup) × Runs 2 (λ _. new_handler) s

abbrev then_step :
    (r : Started) (k : ℕ) {count : ℕ} {m : Member}
    → k < 2
    → Starts 2 (r.0.mqtt_count) (r.0.members k) count m
    → Started
then_step (s, r) k {count} {m} lt st = (
  record { mqtt_count = count; members = update s.members k m },
  continued r (step k count m lt st),
)

first : 0 < 2
first = omega arith

second : 1 < 2
second = omega arith

abbrev start_1 : Started
unfolding is_mqtt_initialized mqtt_ready
start_1 =
    then_step (record { mqtt_count = 0; members = λ i. member_of new_handler }, begun) 0 first
      (subscribe refl)

abbrev start_2 : Started
unfolding is_mqtt_initialized mqtt_ready
start_2 = then_step start_1 1 second (subscribe refl)

abbrev start_3 : Started
unfolding is_mqtt_initialized mqtt_ready
start_3 = then_step start_2 0 first (call_returns true new_handler refl refl)

abbrev start_4 : Started
unfolding is_mqtt_initialized mqtt_ready
start_4 = then_step start_3 0 first (count_up refl)

abbrev start_5 : Started
unfolding is_mqtt_initialized mqtt_ready
start_5 = then_step start_4 1 second (call_returns true new_handler refl refl)

abbrev start_6 : Started
unfolding is_mqtt_initialized mqtt_ready
start_6 = then_step start_5 1 second (count_up refl)

abbrev start_7 : Started
unfolding is_mqtt_initialized mqtt_ready
start_7 = then_step start_6 0 first (pass refl refl)

abbrev start_8 : Started
unfolding is_mqtt_initialized mqtt_ready
start_8 = then_step start_7 0 first (write (omega arith))
