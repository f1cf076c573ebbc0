-- ===== src/Worker/Mutex/System/Balance.antt =====
-- The steps of a worker of Worker/worker.cpp lose no request and no reply.
use distributed_matrix_multi.Prelude.{
  ℕ, ◌+◌, ◌*◌, ◌<◌, ◌≡◌, ◌≢◌, ap, ◌∙◌, [], ◌∷◌, ◌++◌, arith, ltb, same, total, total-append,
  total-insert, Bool-cases, inl, inr,
}
use distributed_matrix_multi.Worker.Mutex.Defs.{
  LamportState, Published, mqtt_reply, mqtt_request, advance_time, count_reply, hold_back,
}
use distributed_matrix_multi.Worker.Mutex.System.Defs.{
  phase_asked, idle, Node, Move, take, count, test, compare_times, hold, reply_now, ask, enter,
  finish, fail, pop, answer, emptied, close,
}
use distributed_matrix_multi.Worker.Mutex.System.Invariant.{IsNumbered}
use distributed_matrix_multi.Worker.Mutex.System.Weights.{
  message_weight, entry_weight, node_weight, sent, sent-nothing, sent-reply, sent-request,
}

-- A counted reply leaves; a worker that asks sends a request to each of the others.
abbrev pub Balance :
    (n i k : ℕ) {v v' : Node} {published : Published} → Move v v' published → Type 0
Balance n i k {v} {v'} {published} (count _) =
    node_weight i k v' + sent n i published + same k i ≡ node_weight i k v
Balance n i k {v} {v'} {published} (ask _) =
    node_weight i k v' + sent n i published + same k i ≡ node_weight i k v + n * same k i
Balance n i k {v} {v'} {published} _ = node_weight i k v' + sent n i published ≡ node_weight i k v

no_request : (w : LamportState) → w.number_workers ≡ 1 → (mqtt_request w).1 ≡ []
unfolding mqtt_request
no_request w e = ground arith

same_other : {i k : ℕ} → i ≢ k → same k i ≡ 0
same_other d = ground arith

module _ {n i k : ℕ} {v : Node} (own : IsNumbered n k v) (below : i < n) where
  ask-weight :
      v.phase ≡ idle
      → node_weight i k (record v { state = (mqtt_request v.state).0; phase = phase_asked v.state })
        ≡ node_weight i k v
  unfolding node_weight mqtt_request
  ask-weight h = ground arith

  ask-sent : sent n i (mqtt_request v.state).1 + same k i ≡ n * same k i
  ask-sent = elim (Bool-cases (ltb 1 n)) [
    | inl several ↦
        let e : 1 < v.state.number_workers = ground (arith, own.workers) in
        let s = sent-request n i v.state below e in rw (← own.number) s
    | inr one ↦
        let only : n ≡ 1 = ground arith in
        let silent : (mqtt_request v.state).1 ≡ [] = no_request v.state (own.workers ∙ only) in
        rw silent (omega (arith, sent-nothing n i, only, ap (λ (m : ℕ). m * same k i) only))
  ]

  pub Move-Balance : {v' : Node} {published : Published} (m : Move v v' published) → Balance n i k m
  Move-Balance (take p front back c e) =
      let inbox : total (message_weight i k) v.inbox
          ≡ total (message_weight i k) (front ++ back) + message_weight i k p =
        ap (total (message_weight i k)) e ∙ total-insert (message_weight i k) front p back in
      unfold node_weight advance_time in ground (arith, inbox, sent-nothing n i)
  Move-Balance (count c) = unfold node_weight count_reply in ground (arith, sent-nothing n i)
  Move-Balance (test p c h) = unfold node_weight in ground (arith, sent-nothing n i)
  Move-Balance (compare_times p c) = unfold node_weight in ground (arith, sent-nothing n i)
  Move-Balance (hold p c) =
      unfold node_weight hold_back in
      ground (
        arith,
        sent-nothing n i,
        total-append (entry_weight i) v.state.request_queue
            ((p.worker_number, p.lamport_time) ∷ []),
      )
  Move-Balance (reply_now nr c) =
      rw (sent-reply n i nr v.state below) (unfold node_weight mqtt_reply in ground arith)
  Move-Balance (ask h) = omega (arith, ask-weight h, ask-sent)
  Move-Balance (enter h s) = unfold node_weight in ground (arith, sent-nothing n i)
  Move-Balance (finish h) = unfold node_weight in ground (arith, sent-nothing n i)
  Move-Balance (fail h) = unfold node_weight in ground (arith, sent-nothing n i)
  Move-Balance (pop nr time queue h e) = unfold node_weight in ground (arith, sent-nothing n i)
  Move-Balance (answer nr h) =
      rw (sent-reply n i nr v.state below) (unfold node_weight mqtt_reply in ground arith)
  Move-Balance (emptied h e) = unfold node_weight in ground (arith, sent-nothing n i)
  Move-Balance (close h) = unfold node_weight in ground (arith, sent-nothing n i)

  -- For the others nothing is counted and nothing is asked.
  pub Move-other :
      {v' : Node} {published : Published}
      → i ≢ k
      → Move v v' published
      → node_weight i k v' + sent n i published ≡ node_weight i k v
  Move-other d (count c) = let b = Move-Balance (count c) in omega (arith, b, same_other d)
  Move-other d (ask h) =
      let b = Move-Balance (ask h) in
      let none_asked = ap (λ (m : ℕ). n * m) (same_other d) in
      omega (arith, b, none_asked, same_other d)
  Move-other d (take p front back c e) = Move-Balance (take p front back c e)
  Move-other d (test p c h) = Move-Balance (test p c h)
  Move-other d (compare_times p c) = Move-Balance (compare_times p c)
  Move-other d (hold p c) = Move-Balance (hold p c)
  Move-other d (reply_now nr c) = Move-Balance (reply_now nr c)
  Move-other d (enter h s) = Move-Balance (enter h s)
  Move-other d (finish h) = Move-Balance (finish h)
  Move-other d (fail h) = Move-Balance (fail h)
  Move-other d (pop nr time queue h e) = Move-Balance (pop nr time queue h e)
  Move-other d (answer nr h) = Move-Balance (answer nr h)
  Move-other d (emptied h e) = Move-Balance (emptied h e)
  Move-other d (close h) = Move-Balance (close h)
