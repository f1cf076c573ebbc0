-- ===== src/Worker/Mutex/System/Invariant.antt =====
-- What holds of the workers of Worker/worker.cpp between two steps of any of them.
use distributed_matrix_multi.Prelude.{
  ℕ, ◌+◌, ◌<◌, ◌≡◌, ◌≢◌, ◌⊎◌, Bool, true, false, ◌==◌, if◌then◌else◌, same, total,
}
use distributed_matrix_multi.Worker.Mutex.Defs.{reply, request, MqttPayload}
use distributed_matrix_multi.Worker.Mutex.Requests.{before}
use distributed_matrix_multi.Worker.Mutex.System.Defs.{
  Callback, got_request, comparing, holding, Phase, waiting, writing, Node,
}
use distributed_matrix_multi.Worker.Mutex.System.Weights.{entry_weight, tokens}

abbrev pub is_waiting : Phase → Bool
is_waiting waiting = true
is_waiting _ = false

-- A request is made, and the write is not finished.
abbrev pub competing : Phase → Bool
competing waiting = true
competing writing = true
competing _ = false

-- What the worker with number `k` knows about itself.
pub record IsNumbered (n k : ℕ) (v : Node) : Type 0 where
  pub number : v.state.worker_nr ≡ k
  pub workers : v.state.number_workers ≡ n
  pub opened : 1 < n → competing v.phase ≡ true → v.state.mqtt_request_open ≡ true

-- `count` messages belong to the worker's request: they are what is missing in its count of replies.
pub record Expects (n count : ℕ) (v : Node) : Type 0 where
  pub at_rest :
      is_waiting v.phase ≡ false
      → (count ≡ 0) × (v.state.received_replies ≡ 0) × (v.state.sem_write_database ≡ 0)
  pub at_semaphore :
      is_waiting v.phase ≡ true
      → ((v.state.sem_write_database ≡ 0) × (v.state.received_replies + count + 1 ≡ n))
        ⊎ ((v.state.sem_write_database ≡ 1) × (v.state.received_replies ≡ 0) × (count ≡ 0))

-- A request of worker `i`, and one that does not carry the time `t`.
abbrev pub from_worker : ℕ → MqttPayload → ℕ
from_worker i p = elim p.message_type [ reply ↦ 0 | request ↦ same p.worker_number i ]

abbrev pub is_old : ℕ → ℕ → MqttPayload → ℕ
is_old i t p = if p.worker_number == i then (if p.lamport_time == t then 0 else 1) else 0

abbrev pub old_message : ℕ → ℕ → MqttPayload → ℕ
old_message i t p = elim p.message_type [ reply ↦ 0 | request ↦ is_old i t p ]

abbrev pub old_callback : ℕ → ℕ → Callback → ℕ
old_callback i t (got_request p) = is_old i t p
old_callback i t (comparing p) = is_old i t p
old_callback i t (holding p) = is_old i t p
old_callback i t _ = 0

-- Every request of worker `i` that is still looked at is its last one, of time `t`.
pub record IsFresh (i t : ℕ) (v : Node) : Type 0 where
  pub in_inbox : total (old_message i t) v.inbox ≡ 0
  pub in_callback : old_callback i t v.callback ≡ 0

abbrev pub undecided_callback : ℕ → Callback → ℕ
undecided_callback i (got_request p) = same p.worker_number i
undecided_callback i (comparing p) = same p.worker_number i
undecided_callback i (holding p) = same p.worker_number i
undecided_callback i _ = 0

-- Requests of worker `i` that were not taken yet, and those that were not decided yet.
abbrev pub pending : ℕ → Node → ℕ
pending i v = total (from_worker i) v.inbox

abbrev pub undecided : ℕ → Node → ℕ
undecided i v =
    pending i v + undecided_callback i v.callback + total (entry_weight i) v.state.request_queue

-- Worker `i` has asked `v` at time `t`: when its request was taken, the clock of `v` is later; when it was
-- granted, a request of `v` itself comes after it.
pub record Asked (i t : ℕ) (v : Node) : Type 0 where
  pub reached : pending i v ≡ 0 → t < v.state.lamport_time
  pub granted :
      undecided i v ≡ 0
      → competing v.phase ≡ true
      → before t i v.state.request_lamport_time v.state.worker_nr ≡ true

pub record IsConsistent (n : ℕ) (nodes : ℕ → Node) : Type 0 where
  pub numbered : (k : ℕ) → k < n → IsNumbered n k (nodes k)
  pub expects : (i : ℕ) → i < n → Expects n (tokens n i nodes) (nodes i)
  pub fresh : (i k : ℕ) → i < n → k < n → IsFresh i (nodes i).state.request_lamport_time (nodes k)
  pub asked :
      (i k : ℕ)
      → i < n
      → k < n
      → i ≢ k
      → competing (nodes i).phase ≡ true
      → Asked i (nodes i).state.request_lamport_time (nodes k)
