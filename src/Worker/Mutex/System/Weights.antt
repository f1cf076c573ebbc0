-- ===== src/Worker/Mutex/System/Weights.antt =====
-- What a worker of Worker/worker.cpp still has to wait for: its requests and the replies to them, where
-- they are on the way, in a callback, or in a queue.
use distributed_matrix_multi.Prelude.{
  ℕ, ◌+◌, ◌<◌, ◌≡◌, refl, ap, ◌∙◌, true, [], ◌∷◌, arith, ltb, ◌==◌, if◌then◌else◌, update, same,
  sum_below, sum_below_congr, sum_below_add, sum_below_zero, sum_below-exchange, total,
  total-append, update_at, update_other, sum_below_const, ◌*◌,
}
use distributed_matrix_multi.Worker.Mutex.Defs.{
  reply, request, MqttPayload, request_of, LamportState, Published, mqtt_reply, mqtt_request,
}
use distributed_matrix_multi.Worker.Mutex.System.Defs.{
  Callback, quiet, got_reply, got_request, comparing, replying, holding, Phase, answering, Node,
  delivered_to, deliver,
}

-- Whether a message to worker `k` is a request of worker `i` or a reply to it.
abbrev pub message_weight : ℕ → ℕ → MqttPayload → ℕ
message_weight i k p = elim p.message_type [ reply ↦ same k i | request ↦ same p.worker_number i ]

abbrev pub callback_weight : ℕ → ℕ → Callback → ℕ
callback_weight i k quiet = 0
callback_weight i k got_reply = same k i
callback_weight i k (got_request p) = same p.worker_number i
callback_weight i k (comparing p) = same p.worker_number i
callback_weight i k (replying nr) = same nr i
callback_weight i k (holding p) = same p.worker_number i

abbrev pub phase_weight : ℕ → Phase → ℕ
phase_weight i (answering nr) = same nr i
phase_weight i _ = 0

abbrev pub entry_weight : ℕ → ℕ × ℕ → ℕ
entry_weight i entry = same entry.0 i

-- How many requests of worker `i` or replies to it are at worker `k`.
unfoldable pub node_weight : ℕ → ℕ → Node → ℕ
node_weight i k v =
    total (message_weight i k) v.inbox
    + callback_weight i k v.callback
    + total (entry_weight i) v.state.request_queue
    + phase_weight i v.phase

-- How many of them are sent to worker `k`, and to all of the `n` workers.
pub sent_weight : ℕ → ℕ → Published → ℕ
sent_weight i k published = total (message_weight i k) (delivered_to k published)

pub sent : ℕ → ℕ → Published → ℕ
sent n i published = sum_below n (λ k. sent_weight i k published)

unfoldable pub tokens : ℕ → ℕ → (ℕ → Node) → ℕ
tokens n i nodes = sum_below n (λ k. node_weight i k (nodes k))

node_weight-deliver :
    (i k : ℕ) (published : Published) (nodes : ℕ → Node)
    → node_weight i k (deliver published nodes k)
      ≡ node_weight i k (nodes k) + sent_weight i k published
unfolding node_weight sent_weight
node_weight-deliver i k published nodes =
    omega (arith, total-append (message_weight i k) (nodes k).inbox (delivered_to k published))

-- A step trades the mover's weight for its new one, and adds what is sent.
pub tokens-step :
    (n i k : ℕ) (nodes : ℕ → Node) (v : Node) (published : Published)
    → k < n
    → tokens n i (deliver published (update nodes k v)) + node_weight i k (nodes k)
      ≡ tokens n i nodes + node_weight i k v + sent n i published
unfolding tokens sent
tokens-step n i k nodes v published lt =
    let moved = update nodes k v in
    let weight = λ (j : ℕ). node_weight i j (moved j) in
    let old = λ (j : ℕ). node_weight i j (nodes j) in
    let arrives = λ (j : ℕ). sent_weight i j published in
    let each =
      sum_below_congr n (λ j. node_weight i j (deliver published moved j))
        (λ j. weight j + arrives j) (λ j below. node_weight-deliver i j published moved) in
    let split = sum_below_add n weight arrives in
    let exchanged =
      sum_below-exchange n k weight old lt
        (λ j d. ap (node_weight i j) (update_other nodes k j v d)) in
    let mine : weight k ≡ node_weight i k v = ap (node_weight i k) (update_at nodes k v) in
    omega (arith, each, split, exchanged, mine)

-- A reply is sent to one worker, a request is one message to each other worker.
pub sent-nothing : (n i : ℕ) → sent n i [] ≡ 0
unfolding sent sent_weight delivered_to
sent-nothing n i = sum_below_zero n

pub sent-reply : (n i nr : ℕ) (w : LamportState) → i < n → sent n i (mqtt_reply nr w).1 ≡ same nr i
unfolding sent sent_weight delivered_to mqtt_reply
sent-reply n i nr w lt =
    let f = λ (k : ℕ). total (message_weight i k) (delivered_to k (mqtt_reply nr w).1) in
    let exchanged = sum_below-exchange n i f (λ k. 0) lt (λ k d. ground arith) in
    let here : f i ≡ same nr i = ground arith in omega (arith, exchanged, sum_below_zero n, here)

pub mqtt_request_published :
    (w : LamportState)
    → 1 < w.number_workers
    → (mqtt_request w).1
      ≡ (
        request_of w.worker_nr,
        record {
          message_type = request;
          lamport_time = w.lamport_time + 1;
          worker_number = w.worker_nr;
        },
      )
        ∷ []
unfolding mqtt_request
mqtt_request_published w several = let e : ltb 1 w.number_workers ≡ true = ground arith in rw e refl

pub delivered_request :
    (i k : ℕ) (w : LamportState)
    → 1 < w.number_workers
    → sent_weight i k (mqtt_request w).1 ≡ (if w.worker_nr == k then 0 else same w.worker_nr i)
unfolding sent_weight delivered_to
delivered_request i k w several = rw (mqtt_request_published w several) (ground arith)

pub sent-request :
    (n i : ℕ) (w : LamportState)
    → i < n
    → 1 < w.number_workers
    → sent n i (mqtt_request w).1 + same w.worker_nr i ≡ n * same w.worker_nr i
unfolding sent
sent-request n i w lt several =
    let f = λ (k : ℕ). sent_weight i k (mqtt_request w).1 in
    let exchanged =
      sum_below-exchange n i f (λ k. same w.worker_nr i) lt
        (λ k d. delivered_request i k w several ∙ ground arith) in
    let here : f i ≡ 0 = delivered_request i i w several ∙ ground arith in
    let all = sum_below_const n (same w.worker_nr i) in omega (arith, exchanged, here, all)
