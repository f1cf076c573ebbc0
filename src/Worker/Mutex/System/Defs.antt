-- ===== src/Worker/Mutex/System/Defs.antt =====
-- One worker of Worker/worker.cpp in all its threads, and all workers with their messages. The callback
-- `onMQTTMessage`, which takes its messages one after the other, and the thread that serves the remote
-- calls take turns after every section under a mutex.
use distributed_matrix_multi.Prelude.{
  ℕ, ◌-◌, ◌<◌, ◌≡◌, Bool, true, false, not, List, [], ◌∷◌, ◌++◌, ltb, ◌==◌, if◌then◌else◌, update,
}
use distributed_matrix_multi.Worker.Mutex.Defs.{
  reply, request, MqttPayload, Topic, reply_to, request_of, LamportState, Published, mqtt_reply,
  mqtt_request, advance_time, count_reply, hold_back,
}

-- Where `onMQTTMessage` stands, with what it has decided.
pub data Callback : Type 0 where
  quiet : Callback
  got_reply : Callback
  got_request : MqttPayload → Callback
  comparing : MqttPayload → Callback
  replying : ℕ → Callback
  holding : MqttPayload → Callback

-- Where `writeToDatabase` stands, with the calls of `mqtt_request` and `mqtt_respond_to_open_requests`:
-- `idle` is outside of it, `waiting` at the semaphore, `writing` behind it, and the last three are in
-- `mqtt_respond_to_open_requests`.
pub data Phase : Type 0 where
  idle waiting writing responding : Phase
  answering : ℕ → Phase
  closing : Phase

pub record Node : Type 0 where
  pub state : LamportState
  pub inbox : List MqttPayload
  pub callback : Callback
  pub phase : Phase

-- `mqtt_respond_to_open_requests` holds `mutex_mqtt_request_open` to its end.
abbrev pub holds_mutex : Phase → Bool
holds_mutex responding = true
holds_mutex (answering _) = true
holds_mutex closing = true
holds_mutex _ = false

abbrev pub dispatch : MqttPayload → Callback
dispatch p = elim p.message_type [ reply ↦ got_reply | request ↦ got_request p ]

-- The comparison of a request with the own one: whether it is answered at once.
unfoldable pub comes_first : MqttPayload → LamportState → Bool
comes_first p w =
    if w.request_lamport_time == p.lamport_time
    then ltb p.worker_number w.worker_nr
    else ltb p.lamport_time w.request_lamport_time

abbrev pub decide : MqttPayload → LamportState → Callback
decide p w = if comes_first p w then replying p.worker_number else holding p

abbrev pub test_open : MqttPayload → LamportState → Callback
test_open p w = if w.mqtt_request_open then comparing p else replying p.worker_number

-- With one worker nothing is waited for.
abbrev pub phase_asked : LamportState → Phase
phase_asked w = if ltb 1 w.number_workers then waiting else writing

-- A step of one worker, with what it publishes. No order of the messages is relied on: any message of
-- the inbox may be the next.
pub data Move (v : Node) : Node → Published → Type 0 where
  take :
      (p : MqttPayload) (front back : List MqttPayload)
      → v.callback ≡ quiet
      → v.inbox ≡ front ++ p ∷ back
      → Move v
          (record v {
            state = advance_time p.lamport_time v.state;
            inbox = front ++ back;
            callback = dispatch p;
          })
          []
  count :
      v.callback ≡ got_reply
      → Move v (record v { state = count_reply v.state; callback = quiet }) []
  test :
      (p : MqttPayload)
      → v.callback ≡ got_request p
      → holds_mutex v.phase ≡ false
      → Move v (record v { callback = test_open p v.state }) []
  compare_times :
      (p : MqttPayload)
      → v.callback ≡ comparing p
      → Move v (record v { callback = decide p v.state }) []
  hold :
      (p : MqttPayload)
      → v.callback ≡ holding p
      → Move v
          (record v { state = (hold_back p v.state).0; callback = quiet })
          (hold_back p v.state).1
  reply_now :
      (nr : ℕ)
      → v.callback ≡ replying nr
      → Move v
          (record v { state = (mqtt_reply nr v.state).0; callback = quiet })
          (mqtt_reply nr v.state).1
  ask :
      v.phase ≡ idle
      → Move v
          (record v { state = (mqtt_request v.state).0; phase = phase_asked v.state })
          (mqtt_request v.state).1
  enter :
      v.phase ≡ waiting
      → 0 < v.state.sem_write_database
      → Move v
          (record v {
            state = record (v.state) { sem_write_database = v.state.sem_write_database - 1 };
            phase = writing;
          })
          []
  finish : v.phase ≡ writing → Move v (record v { phase = responding }) []
  fail : v.phase ≡ writing → Move v (record v { phase = idle }) []
  pop :
      (nr time : ℕ) (queue : List (ℕ × ℕ))
      → v.phase ≡ responding
      → v.state.request_queue ≡ (nr, time) ∷ queue
      → Move v
          (record v { state = record (v.state) { request_queue = queue }; phase = answering nr })
          []
  answer :
      (nr : ℕ)
      → v.phase ≡ answering nr
      → Move v
          (record v { state = (mqtt_reply nr v.state).0; phase = responding })
          (mqtt_reply nr v.state).1
  emptied :
      v.phase ≡ responding → v.state.request_queue ≡ [] → Move v (record v { phase = closing }) []
  close :
      v.phase ≡ closing
      → Move v
          (record v { state = record (v.state) { mqtt_request_open = false }; phase = idle })
          []

-- The subscriptions: the own replies, and the requests of all others.
abbrev pub subscribed : ℕ → Topic → Bool
subscribed i (reply_to nr) = nr == i
subscribed i (request_of nr) = not (nr == i)

unfoldable pub delivered_to : ℕ → Published → List MqttPayload
delivered_to i [] = []
delivered_to i ((topic, p) ∷ rest) =
    let later = delivered_to i rest in if subscribed i topic then p ∷ later else later

-- The workers by their numbers; an index behind the last worker is nobody's.
abbrev pub deliver : Published → (ℕ → Node) → ℕ → Node
deliver published nodes i = record (nodes i) { inbox = (nodes i).inbox ++ delivered_to i published }

pub data Step (n : ℕ) (nodes : ℕ → Node) : (ℕ → Node) → Type 0 where
  step :
      (k : ℕ) (v : Node) (published : Published)
      → k < n
      → Move (nodes k) v published
      → Step n nodes (deliver published (update nodes k v))

-- The globals at the start of the program, with the number that the controller has given.
abbrev pub start : ℕ → ℕ → Node
start n k = record {
  state = record {
    worker_nr = k;
    number_workers = n;
    lamport_time = 0;
    mqtt_request_open = false;
    request_lamport_time = 0;
    sem_write_database = 0;
    received_replies = 0;
    request_queue = [];
  };
  inbox = [];
  callback = quiet;
  phase = idle;
}

pub data Reachable (n : ℕ) : (ℕ → Node) → Type 0 where
  started : Reachable n (start n)
  stepped : {s t : ℕ → Node} → Reachable n s → Step n s t → Reachable n t
