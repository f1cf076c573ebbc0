-- ===== src/Worker/Mutex/System/Requests.antt =====
-- What a step of a worker of Worker/worker.cpp keeps of the facts about the requests of the others.
use distributed_matrix_multi.Prelude.{
  ℕ, ◌≤◌, ◌<◌, ◌≡◌, ◌≢◌, ◌⊎◌, ap, ◌∙◌, true, [], ◌∷◌, ◌++◌, arith, total, total-append,
  total-insert, total_mono, inl, inr, List,
}
use distributed_matrix_multi.Worker.Mutex.Defs.{
  MqttPayload, Published, mqtt_reply, mqtt_request, advance_time, count_reply, hold_back,
}
use distributed_matrix_multi.Worker.Mutex.System.Defs.{
  Callback, idle, Node, Move, take, count, test, compare_times, hold, reply_now, ask, enter, finish,
  fail, pop, answer, emptied, close, comes_first, delivered_to,
}
use distributed_matrix_multi.Worker.Mutex.System.Invariant.{
  competing, IsNumbered, from_worker, old_message, old_callback, IsFresh, Asked,
}
use distributed_matrix_multi.Worker.Mutex.System.Weights.{
  node_weight, message_weight, callback_weight, entry_weight,
}

-- Messages that arrive.
abbrev pub receive : List MqttPayload → Node → Node
receive ms v = record v { inbox = v.inbox ++ ms }

-- A request that has just arrived.
pub receive-Asked_new :
    (i t : ℕ) (v : Node) (ms : List MqttPayload)
    → 0 < total (from_worker i) ms
    → Asked i t (receive ms v)
receive-Asked_new i t v ms h = let more = total-append (from_worker i) v.inbox ms in ground arith

module _ {i t : ℕ} {v : Node} where
  pub receive-IsFresh :
      (ms : List MqttPayload)
      → total (old_message i t) ms ≡ 0
      → IsFresh i t v
      → IsFresh i t (receive ms v)
  receive-IsFresh ms e f = record {
    in_inbox = omega (arith, total-append (old_message i t) v.inbox ms, f.in_inbox);
    in_callback = f.in_callback;
  }

  pub receive-Asked : (ms : List MqttPayload) → Asked i t v → Asked i t (receive ms v)
  receive-Asked ms a = let more = total-append (from_worker i) v.inbox ms in ground arith

  pub Move-IsFresh :
      {v' : Node} {published : Published} → Move v v' published → IsFresh i t v → IsFresh i t v'
  Move-IsFresh (take p front back c e) f =
      let inbox = ap (total (old_message i t)) e ∙ total-insert (old_message i t) front p back in
      ground arith
  Move-IsFresh (test p c h) f = ground arith
  Move-IsFresh (compare_times p c) f = ground arith
  Move-IsFresh m f = ground arith

  pub Move-Asked :
      {n k : ℕ} {v' : Node} {published : Published}
      → IsNumbered n k v
      → IsFresh i t v
      → 1 < n
      → Move v v' published
      → Asked i t v
      → Asked i t v'
  Move-Asked own f several (take p front back c e) a =
      let inbox = ap (total (from_worker i)) e ∙ total-insert (from_worker i) front p back in
      let old = ap (total (old_message i t)) e ∙ total-insert (old_message i t) front p back in
      unfold advance_time in ground arith
  Move-Asked own f several (count c) a = unfold count_reply in ground arith
  Move-Asked own f several (test p c h) a = ground arith
  Move-Asked own f several (compare_times p c) a = unfold comes_first in ground arith
  Move-Asked own f several (hold p c) a =
      let more =
        total-append (entry_weight i) v.state.request_queue
          ((p.worker_number, p.lamport_time) ∷ []) in
      unfold hold_back in ground arith
  Move-Asked own f several (reply_now nr c) a = unfold mqtt_reply in ground arith
  Move-Asked own f several (ask h) a = unfold mqtt_request in ground arith
  Move-Asked own f several (enter h s) a = ground arith
  Move-Asked own f several (finish h) a = ground arith
  Move-Asked own f several (fail h) a = ground arith
  Move-Asked own f several (pop nr time queue h e) a = ground arith
  Move-Asked own f several (answer nr h) a = unfold mqtt_reply in ground arith
  Move-Asked own f several (emptied h e) a = ground arith
  Move-Asked own f several (close h) a = ground arith

old_message-le : (i k t : ℕ) (p : MqttPayload) → old_message i t p ≤ message_weight i k p
old_message-le i k t p = ground arith

old_callback-le : (i k t : ℕ) (c : Callback) → old_callback i t c ≤ callback_weight i k c
old_callback-le i k t c = ground arith

-- Where nothing of worker `i` is, any time is fresh.
pub IsFresh-of_weight : (i k t : ℕ) (v : Node) → node_weight i k v ≡ 0 → IsFresh i t v
unfolding node_weight
IsFresh-of_weight i k t v e =
    let inbox = total_mono (old_message i t) (message_weight i k) v.inbox (old_message-le i k t) in
    let callback = old_callback-le i k t v.callback in
    record { in_inbox = omega arith; in_callback = omega arith }

-- What a step sends has the time of the own request.
pub Move-sends :
    (i j t k : ℕ) {n : ℕ} {v v' : Node} {published : Published}
    → IsNumbered n k v
    → Move v v' published
    → (i ≡ k → t ≡ v'.state.request_lamport_time)
    → total (old_message i t) (delivered_to j published) ≡ 0
unfolding delivered_to mqtt_request mqtt_reply hold_back
Move-sends i j t k own (ask h) e = ground arith
Move-sends i j t k own m e = ground arith

-- A step that does not start a request keeps its time.
pub Move-request_time :
    {v v' : Node} {published : Published}
    → Move v v' published
    → (v'.state.request_lamport_time ≡ v.state.request_lamport_time) ⊎ (v.phase ≡ idle)
unfolding mqtt_request mqtt_reply hold_back count_reply advance_time
Move-request_time (ask h) = inr h
Move-request_time m = inl (ground arith)

-- A worker that starts to compete sends its request to all others.
pub Move-competing :
    {n k : ℕ} {v v' : Node} {published : Published}
    → IsNumbered n k v
    → 1 < n
    → Move v v' published
    → competing v'.phase ≡ true
    → (competing v.phase ≡ true)
      ⊎ ((j : ℕ) → j ≢ k → 0 < total (from_worker k) (delivered_to j published))
unfolding mqtt_request mqtt_reply hold_back count_reply advance_time delivered_to
Move-competing own several (ask h) c = inr (λ j d. ground arith)
Move-competing own several (enter h s) c = inl (ground arith)
Move-competing own several m c = inl (ground arith)
