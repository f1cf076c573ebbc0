-- ===== src/Startup.antt =====
-- The start of the calculation: the wait for the MQTT clients of all workers in `controlWorker` of
-- Controller/controller.cpp, with the handler of Worker/RPCImplementation.h, `init_mqtt` and the first
-- lines of `writeToDatabase` of Worker/worker.cpp.
pub mod Invariant
mod Tests
use distributed_matrix_multi.Prelude.{ℕ, ◌+◌, ◌<◌, ◌≡◌, Bool, true, false, some, update}
use distributed_matrix_multi.Worker.Handler.Defs.{Handler, is_mqtt_initialized, mqtt_ready}

-- Where the controller's thread for a worker stands: in the call of `isMQTTInitialized`, behind it,
-- behind `++mqtt_count`, or behind the call of `MQTTReady`.
pub data Stage : Type 0 where
  calling returned counted passed : Stage

-- A worker with its thread in the controller. `requested` says whether the worker has got to
-- `mqtt_request`.
pub record Member : Type 0 where
  pub handler : Handler
  pub subscribed : Bool
  pub requested : Bool
  pub stage : Stage

pub record Startup : Type 0 where
  pub mqtt_count : ℕ
  pub members : ℕ → Member

-- A step of a member among `n`, from the value of `mqtt_count` to another one.
pub data Starts (n count : ℕ) (m : Member) : ℕ → Member → Type 0 where
  -- `init_mqtt`, whose last line is `sem_post(&sem_mqtt)`.
  subscribe :
      m.subscribed ≡ false
      → Starts n count m count (record m {
        subscribed = true;
        handler = record (m.handler) { sem_mqtt = m.handler.sem_mqtt + 1 };
      })
  call_returns :
      (answer : Bool) (h : Handler)
      → m.stage ≡ calling
      → is_mqtt_initialized m.handler ≡ some (answer, h)
      → Starts n count m count (record m { handler = h; stage = returned })
  count_up : m.stage ≡ returned → Starts n count m (count + 1) (record m { stage = counted })
  -- `while (mqtt_count != number_workers);`
  pass :
      m.stage ≡ counted
      → count ≡ n
      → Starts n count m count (record m { handler = mqtt_ready m.handler; stage = passed })
  -- `sem_wait(&sem_mqtt_ready)` and `sem_post(&sem_mqtt_ready)` leave the semaphore as it was.
  write : 0 < m.handler.sem_mqtt_ready → Starts n count m count (record m { requested = true })

pub data StartupStep (n : ℕ) (s : Startup) : Startup → Type 0 where
  step :
      (k count : ℕ) (m : Member)
      → k < n
      → Starts n s.mqtt_count (s.members k) count m
      → StartupStep n s (record { mqtt_count = count; members = update s.members k m })

-- The start of the programs, with any task and result in the handlers.
abbrev pub member_of : Handler → Member
member_of h = record {
  handler = record h { sem_mqtt = 0; sem_mqtt_ready = 0 };
  subscribed = false;
  requested = false;
  stage = calling;
}

pub data Runs (n : ℕ) (handlers : ℕ → Handler) : Startup → Type 0 where
  begun : Runs n handlers (record { mqtt_count = 0; members = λ i. member_of (handlers i) })
  continued : {s t : Startup} → Runs n handlers s → StartupStep n s t → Runs n handlers t
