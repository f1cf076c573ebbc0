-- ===== src/Worker/Mutex/Defs.antt =====
-- The global state of Worker/worker.cpp that the messages of the workers change, and the functions that
-- change it. A function returns the messages that it publishes, in their order. Times and numbers are
-- counted up from zero and are natural; measurements are left out.
use distributed_matrix_multi.Prelude.{
  ℕ, ◌+◌, ◌-◌, Bool, true, false, List, [], ◌∷◌, ◌++◌, leb, ltb, ◌==◌, if◌then◌else◌,
}

pub data MessageType : Type 0 where
  reply request : MessageType

pub record MqttPayload : Type 0 where
  pub message_type : MessageType
  pub lamport_time : ℕ
  pub worker_number : ℕ

-- A published message: `REPLY/<number>` or `REQUEST/<number>`.
pub data Topic : Type 0 where
  reply_to : ℕ → Topic
  request_of : ℕ → Topic

-- `request_lamport_time` is read only while a request is open. The queue of requests holds the pairs of
-- `req_worker_numbers` and `req_lamport_times`, which are pushed and popped together.
pub record LamportState : Type 0 where
  pub worker_nr : ℕ
  pub number_workers : ℕ
  pub lamport_time : ℕ
  pub mqtt_request_open : Bool
  pub request_lamport_time : ℕ
  pub sem_write_database : ℕ
  pub received_replies : ℕ
  pub request_queue : List (ℕ × ℕ)

abbrev pub Published : Type 0
Published = List (Topic × MqttPayload)

-- `++lamport_time`, and the message with the new time.
unfoldable pub mqtt_reply : ℕ → LamportState → LamportState × Published
mqtt_reply recv_worker_nr w = (
  record w { lamport_time = w.lamport_time + 1 },
  (
    reply_to recv_worker_nr,
    record { message_type = reply; lamport_time = w.lamport_time + 1; worker_number = w.worker_nr },
  )
      ∷ [],
)

-- Up to `sem_wait(&sem_write_database)`. With one worker there is nothing to ask.
unfoldable pub mqtt_request : LamportState → LamportState × Published
mqtt_request w =
    if ltb 1 w.number_workers
    then (
      record w {
        lamport_time = w.lamport_time + 1;
        request_lamport_time = w.lamport_time + 1;
        mqtt_request_open = true;
      },
      (
        request_of w.worker_nr,
        record {
          message_type = request;
          lamport_time = w.lamport_time + 1;
          worker_number = w.worker_nr;
        },
      )
          ∷ [],
    )
    else (w, [])

-- The loop over the queue.
unfoldable pub reply_to_queue : List (ℕ × ℕ) → LamportState → LamportState × Published
unfolding mqtt_reply
reply_to_queue [] w = (w, [])
reply_to_queue ((w_nr, time) ∷ queue) w =
    let (w', published) = mqtt_reply w_nr (record w { request_queue = queue }) in
    let (w'', rest) = reply_to_queue queue w' in (w'', published ++ rest)

unfoldable pub mqtt_respond_to_open_requests : LamportState → LamportState × Published
unfolding reply_to_queue
mqtt_respond_to_open_requests w =
    let (w', published) = reply_to_queue w.request_queue w in
    (record w' { mqtt_request_open = false }, published)

-- The rule for the clock.
unfoldable pub advance_time : ℕ → LamportState → LamportState
advance_time received_lamport_time w = record w {
  lamport_time =
      if leb received_lamport_time w.lamport_time
      then w.lamport_time + 1
      else received_lamport_time + 1;
}

-- A reply is counted; the last one releases the writer.
unfoldable pub count_reply : LamportState → LamportState
count_reply w =
    if w.received_replies + 1 == w.number_workers - 1
    then record w { sem_write_database = w.sem_write_database + 1; received_replies = 0 }
    else record w { received_replies = w.received_replies + 1 }

unfoldable pub hold_back : MqttPayload → LamportState → LamportState × Published
hold_back p w =
    (record w { request_queue = w.request_queue ++ (p.worker_number, p.lamport_time) ∷ [] }, [])

-- The tests on a request of another worker, in their order.
unfoldable pub answer_request : MqttPayload → LamportState → LamportState × Published
unfolding mqtt_reply hold_back
answer_request p w =
    if w.mqtt_request_open
    then (if w.request_lamport_time == p.lamport_time
        then (if ltb p.worker_number w.worker_nr
            then mqtt_reply p.worker_number w
            else hold_back p w)
        else (if ltb p.lamport_time w.request_lamport_time
            then mqtt_reply p.worker_number w
            else hold_back p w))
    else mqtt_reply p.worker_number w

unfoldable pub on_mqtt_message : MqttPayload → LamportState → LamportState × Published
unfolding advance_time count_reply answer_request
on_mqtt_message p w = elim p.message_type [
  | reply ↦ (count_reply (advance_time p.lamport_time w), [])
  | request ↦ answer_request p (advance_time p.lamport_time w)
]
