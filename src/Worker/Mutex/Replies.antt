-- ===== src/Worker/Mutex/Replies.antt =====
-- The replies of Worker/worker.cpp: those that a worker owes when it has written, and those that it
-- waits for before it writes.
use distributed_matrix_multi.Prelude.{
  ℕ, ◌+◌, ◌-◌, ◌≤◌, ◌<◌, ◌≡◌, refl, sym, ap, subst, true, false, List, [], ◌∷◌, map, arith, ◌==◌,
  if◌then◌else◌, length, All, dec_lt,
}
use distributed_matrix_multi.Worker.Mutex.Defs.{
  reply, MqttPayload, Topic, reply_to, LamportState, Published, reply_to_queue,
  mqtt_respond_to_open_requests, advance_time, count_reply, on_mqtt_message,
}

-- A published reply, with a time in a range.
pub record IsReply (low high : ℕ) (m : Topic × MqttPayload) : Type 0 where
  pub type_reply : m.1.message_type ≡ reply
  pub later : low < m.1.lamport_time
  pub at_most : m.1.lamport_time ≤ high

-- The queue's replies, where `q` is the queue of `w`.
pub record RepliesTo (q : List (ℕ × ℕ)) (w : LamportState) (result : LamportState × Published)
    : Type 0 where
  pub recipients : map (λ m. m.0) result.1 ≡ map (λ entry. reply_to entry.0) q
  pub replies : All (IsReply w.lamport_time (w.lamport_time + length q)) result.1
  pub queue_empty : result.0.request_queue ≡ []
  pub time : result.0.lamport_time ≡ w.lamport_time + length q

All-IsReply_weaken :
    (low low' high high' : ℕ) (ms : Published)
    → low' ≤ low
    → high ≤ high'
    → All (IsReply low high) ms
    → All (IsReply low' high') ms
All-IsReply_weaken low low' high high' [] h k a = tt
All-IsReply_weaken low low' high high' (m ∷ ms) h k a = (
  record {
    type_reply = a.0.type_reply;
    later = omega (arith, a.0.later);
    at_most = omega (arith, a.0.at_most);
  },
  All-IsReply_weaken low low' high high' ms h k a.1,
)

reply_to_queue-RepliesTo :
    (q : List (ℕ × ℕ)) (w : LamportState) → w.request_queue ≡ q → RepliesTo q w (reply_to_queue q w)
unfolding reply_to_queue
reply_to_queue-RepliesTo [] w e = record {
  recipients = refl;
  replies = tt;
  queue_empty = e;
  time = omega arith;
}
reply_to_queue-RepliesTo ((nr, t) ∷ q) w e =
    let w' = record w { request_queue = q; lamport_time = w.lamport_time + 1 } in
    let rest = reply_to_queue-RepliesTo q w' refl in
    record {
      recipients = ap (λ ts. reply_to nr ∷ ts) rest.recipients;
      replies = (
        record { type_reply = refl; later = omega arith; at_most = omega arith },
        All-IsReply_weaken (w.lamport_time + 1) w.lamport_time (w.lamport_time + 1 + length q)
            (w.lamport_time + length ((nr, t) ∷ q)) (reply_to_queue q w').1 (omega arith)
            (omega arith) rest.replies,
      );
      queue_empty = rest.queue_empty;
      time = omega (arith, rest.time);
    }

-- What a worker does when it has written.
pub record Responds (w : LamportState) (result : LamportState × Published) : Type 0 where
  pub answers_all : RepliesTo w.request_queue w result
  pub closed : result.0.mqtt_request_open ≡ false

-- A worker that has written answers every request that it held back, in the order in which they came and
-- each at a later time than its clock showed before; then no request is held back, and its own is closed.
pub mqtt_respond_to_open_requests-Responds :
    (w : LamportState) → Responds w (mqtt_respond_to_open_requests w)
unfolding mqtt_respond_to_open_requests
mqtt_respond_to_open_requests-Responds w =
    let r = reply_to_queue-RepliesTo w.request_queue w refl in
    record {
      answers_all = record {
        recipients = r.recipients;
        replies = r.replies;
        queue_empty = r.queue_empty;
        time = r.time;
      };
      closed = refl;
    }

-- Replies that come in one after the other, each with its time and its sender.
unfoldable pub receive_replies : List (ℕ × ℕ) → LamportState → LamportState
unfolding on_mqtt_message
receive_replies [] w = w
receive_replies ((time, nr) ∷ rs) w =
    receive_replies rs
      (on_mqtt_message (record { message_type = reply; lamport_time = time; worker_number = nr })
        w).0

-- The counter and the semaphore after replies of which the last may release the writer.
pub record Counts (before : LamportState) (count : ℕ) (after : LamportState) : Type 0 where
  pub counter : after.received_replies ≡ (if count + 1 == before.number_workers then 0 else count)
  pub semaphore : after.sem_write_database ≡ (
      if count + 1 == before.number_workers
      then before.sem_write_database + 1
      else before.sem_write_database)

receive_none : (rs : List (ℕ × ℕ)) (w : LamportState) → length rs ≡ 0 → receive_replies rs w ≡ w
unfolding receive_replies
receive_none [] w h = refl
receive_none (r ∷ rs) w h = absurd (omega arith)

-- One reply, which is the last of those that are missing or not.
count_reply-last :
    (time : ℕ) (w : LamportState)
    → w.received_replies + 2 ≡ w.number_workers
    → count_reply (advance_time time w) ≡ record (advance_time time w) {
      sem_write_database = w.sem_write_database + 1;
      received_replies = 0;
    }
unfolding count_reply advance_time
count_reply-last time w h =
    let last : (w.received_replies + 1 == w.number_workers - 1) ≡ true = ground arith in
    simp last refl

count_reply-more :
    (time : ℕ) (w : LamportState)
    → w.received_replies + 2 < w.number_workers
    → count_reply (advance_time time w)
      ≡ record (advance_time time w) { received_replies = w.received_replies + 1 }
unfolding count_reply advance_time
count_reply-more time w h =
    let more : (w.received_replies + 1 == w.number_workers - 1) ≡ false = ground arith in
    simp more refl

-- As long as not more replies come than are missing, of which there is at least one.
receive_replies-Counts :
    (rs : List (ℕ × ℕ)) (w : LamportState) (count : ℕ)
    → w.received_replies + length rs ≡ count
    → count < w.number_workers
    → w.received_replies + 1 < w.number_workers
    → Counts w count (receive_replies rs w)
unfolding receive_replies
receive_replies-Counts [] w count e h k =
    let more : (count + 1 == w.number_workers) ≡ false = ground arith in
    record { counter = rw more (omega (arith, e)); semaphore = rw more refl }
receive_replies-Counts ((time, nr) ∷ rs) w count e h k =
    elim (dec_lt (w.received_replies + 2) w.number_workers) [
      | Dec.yes more ↦
          let w' = record (advance_time time w) { received_replies = w.received_replies + 1 } in
          let rest = receive_replies-Counts rs w' count (omega (arith, e)) h (omega arith) in
          subst (λ u. Counts w count (receive_replies rs u)) (sym (count_reply-more time w more))
            (record { counter = rest.counter; semaphore = rest.semaphore })
      | Dec.no last ↦
          let w' = record (advance_time time w) {
            sem_write_database = w.sem_write_database + 1;
            received_replies = 0;
          } in
          let done : (count + 1 == w.number_workers) ≡ true = ground arith in
          let nothing = receive_none rs w' (omega (arith, e)) in
          subst (λ u. Counts w count (receive_replies rs u))
            (sym (count_reply-last time w (omega arith)))
            (subst (Counts w count) (sym nothing)
              (record { counter = rw done refl; semaphore = rw done refl }))
    ]

-- With several workers, and no reply counted yet, the replies of others to one request, no more than
-- there are other workers, leave the semaphore of the writer alone as long as one is missing, and count
-- them; the last one raises it by exactly one and resets the counter for the next request.
pub receive_replies-Releases :
    (rs : List (ℕ × ℕ)) (w : LamportState)
    → w.received_replies ≡ 0
    → 1 < w.number_workers
    → length rs < w.number_workers
    → Counts w (length rs) (receive_replies rs w)
receive_replies-Releases rs w e k h =
    receive_replies-Counts rs w (length rs) (omega (arith, e)) h (omega (arith, e))
