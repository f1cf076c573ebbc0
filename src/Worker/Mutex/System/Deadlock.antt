-- ===== src/Worker/Mutex/System/Deadlock.antt =====
-- Two workers of Worker/worker.cpp that hold each other's requests back.
use distributed_matrix_multi.Prelude.{ℕ, ◌<◌, ◌≡◌, total}
use distributed_matrix_multi.Worker.Mutex.System.Defs.{Node, waiting, Step}
use distributed_matrix_multi.Worker.Mutex.System.Weights.{entry_weight}

-- `v` waits, and has a request of worker `i` in its queue.
pub record HoldsBack (i : ℕ) (v : Node) : Type 0 where
  pub waits : v.phase ≡ waiting
  pub held : 0 < total (entry_weight i) v.state.request_queue

pub data Later (n : ℕ) (s : ℕ → Node) : (ℕ → Node) → Type 0 where
  now : Later n s s
  next : {t u : ℕ → Node} → Later n s t → Step n t u → Later n s u
