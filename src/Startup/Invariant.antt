-- ===== src/Startup/Invariant.antt =====
-- No worker of Worker/worker.cpp sends a request before all workers have subscribed to the requests.
use distributed_matrix_multi.Prelude.{ℕ, ◌<◌, ◌≡◌, ◌≢◌, true, update, sum_below}
use distributed_matrix_multi.Worker.Handler.Defs.{Handler}
use distributed_matrix_multi.Startup.{Stage, calling, counted, passed, Member, Startup, Starts}

abbrev is_counted : Stage → ℕ
is_counted counted = 1
is_counted passed = 1
is_counted _ = 0

-- What holds of a member, whatever the others do.
pub record IsOrdered (m : Member) : Type 0 where
  pub post : 0 < m.handler.sem_mqtt → m.subscribed ≡ true
  pub answered : m.stage ≢ calling → m.subscribed ≡ true
  pub ready : 0 < m.handler.sem_mqtt_ready → m.stage ≡ passed
  pub asked : m.requested ≡ true → m.stage ≡ passed

pub record IsSynchronized (n : ℕ) (s : Startup) : Type 0 where
  pub members : (i : ℕ) → i < n → IsOrdered (s.members i)
  pub count : s.mqtt_count ≡ sum_below n (λ i. is_counted (s.members i).stage)
  pub barrier : (i : ℕ) → i < n → (s.members i).stage ≡ passed → s.mqtt_count ≡ n

module _ {n count : ℕ} {s : Startup} {k : ℕ} {m : Member} (inv : IsSynchronized n s) (lt : k < n)
    (st : Starts n s.mqtt_count (s.members k) count m) where
  abbrev after : ℕ → Member
  after = update s.members k m
