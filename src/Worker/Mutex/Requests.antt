-- ===== src/Worker/Mutex/Requests.antt =====
-- How `onMQTTMessage` of Worker/worker.cpp treats the request of another worker, and why two workers do
-- not both get a reply at once.
use distributed_matrix_multi.Prelude.{
  ℕ, ◌+◌, ◌<◌, ◌≡◌, refl, sym, subst, ◌∙◌, inl, inr, Bool, true, false, not, ◌&&◌, ◌||◌, [], ◌∷◌,
  ◌++◌, arith, ltb, ◌==◌, if◌then◌else◌, Bool-cases,
}
use distributed_matrix_multi.Worker.Mutex.Defs.{
  request, MqttPayload, LamportState, Published, mqtt_reply, mqtt_request, advance_time, hold_back,
  answer_request, on_mqtt_message,
}

-- The order of requests: by time, and by number at the same time.
abbrev pub before : ℕ → ℕ → ℕ → ℕ → Bool
before time nr time' nr' = ltb time time' || (time == time' && ltb nr nr')

abbrev pub request_from : ℕ → ℕ → MqttPayload
request_from time nr = record { message_type = request; lamport_time = time; worker_number = nr }

-- The request that a worker has open.
abbrev pub open_request : LamportState → MqttPayload
open_request w = request_from w.request_lamport_time w.worker_nr

-- Whether a reply was published.
abbrev pub answered : LamportState × Published → Bool
answered (w, []) = false
answered (w, message ∷ rest) = true

-- A request is held back exactly when an own one is open that is not younger.
abbrev pub held_back : MqttPayload → LamportState → Bool
held_back p w =
    w.mqtt_request_open
    && not (before p.lamport_time p.worker_number w.request_lamport_time w.worker_nr)

-- What a request does to the state: `time` is that of the clock before.
pub record Answers (p : MqttPayload) (w : LamportState) (result : LamportState × Published)
    : Type 0 where
  pub reply_or_hold : answered result ≡ not (held_back p w)
  pub queue : result.0.request_queue ≡ (
      if held_back p w
      then w.request_queue ++ (p.worker_number, p.lamport_time) ∷ []
      else w.request_queue)
  pub later_than_own : w.lamport_time < result.0.lamport_time
  pub later_than_received : p.lamport_time < result.0.lamport_time
  pub still_open : result.0.mqtt_request_open ≡ w.mqtt_request_open
  pub same_request : result.0.request_lamport_time ≡ w.request_lamport_time
  pub same_number : result.0.worker_nr ≡ w.worker_nr
  pub same_workers : result.0.number_workers ≡ w.number_workers

mqtt_reply-Answers :
    (time nr : ℕ) (w : LamportState)
    → held_back (request_from time nr) w ≡ false
    → Answers (request_from time nr) w (mqtt_reply nr (advance_time time w))
unfolding mqtt_reply advance_time
mqtt_reply-Answers time nr w h = record {
  reply_or_hold = rw h refl;
  queue = rw h refl;
  later_than_own = ground arith;
  later_than_received = ground arith;
  still_open = refl;
  same_request = refl;
  same_number = refl;
  same_workers = refl;
}

hold_back-Answers :
    (time nr : ℕ) (w : LamportState)
    → held_back (request_from time nr) w ≡ true
    → Answers (request_from time nr) w (hold_back (request_from time nr) (advance_time time w))
unfolding hold_back advance_time
hold_back-Answers time nr w h = record {
  reply_or_hold = rw h refl;
  queue = rw h refl;
  later_than_own = ground arith;
  later_than_received = ground arith;
  still_open = refl;
  same_request = refl;
  same_number = refl;
  same_workers = refl;
}

-- The nested tests of the source, and the order.
nested_tests {ℓ} :
    {A : Type ℓ} (opened same smaller earlier : Bool) (x y : A)
    → (same ≡ true → earlier ≡ false)
    → (if opened
        then (if same then (if smaller then x else y) else (if earlier then x else y))
        else x)
      ≡ (if opened && not (earlier || (same && smaller)) then y else x)
nested_tests false same smaller earlier x y h = refl
nested_tests true true true earlier x y h = rw (h refl) refl
nested_tests true true false earlier x y h = rw (h refl) refl
nested_tests true false smaller true x y h = refl
nested_tests true false smaller false x y h = refl

answer_request_lem :
    (time nr : ℕ) (w : LamportState)
    → answer_request (request_from time nr) w ≡ (
        if held_back (request_from time nr) w
        then hold_back (request_from time nr) w
        else mqtt_reply nr w)
unfolding answer_request
answer_request_lem time nr w =
    let turned : (w.request_lamport_time == time) ≡ (time == w.request_lamport_time) =
      ground arith in
    rw turned (
      nested_tests w.mqtt_request_open (time == w.request_lamport_time) (ltb nr w.worker_nr)
        (ltb time w.request_lamport_time) (mqtt_reply nr w) (hold_back (request_from time nr) w)
        (λ e. ground arith))

held_back-advance_time :
    (time nr t : ℕ) (w : LamportState)
    → held_back (request_from time nr) (advance_time t w) ≡ held_back (request_from time nr) w
unfolding advance_time
held_back-advance_time time nr t w = refl

pub on_mqtt_message-Answers :
    (time nr : ℕ) (w : LamportState)
    → Answers (request_from time nr) w (on_mqtt_message (request_from time nr) w)
unfolding on_mqtt_message
on_mqtt_message-Answers time nr w =
    let w' = advance_time time w in
    let step = answer_request_lem time nr w' in
    let kept = held_back-advance_time time nr time w in
    elim (Bool-cases (held_back (request_from time nr) w)) [
      | inl h ↦
          subst (Answers (request_from time nr) w) (sym (step ∙ rw (kept ∙ h) refl))
            (hold_back-Answers time nr w h)
      | inr h ↦
          subst (Answers (request_from time nr) w) (sym (step ∙ rw (kept ∙ h) refl))
            (mqtt_reply-Answers time nr w h)
    ]

mqtt_request_time :
    (w : LamportState)
    → 1 < w.number_workers
    → (mqtt_request w).0.request_lamport_time ≡ w.lamport_time + 1
unfolding mqtt_request
mqtt_request_time w h =
    let several : ltb 1 w.number_workers ≡ true = ground arith in rw several refl

later-held_back :
    (time nr : ℕ) (w : LamportState)
    → w.mqtt_request_open ≡ true
    → w.request_lamport_time < time
    → held_back (request_from time nr) w ≡ true
later-held_back time nr w o h = ground arith

-- A worker that has answered a request and then sends its own gives it a later time: the other, whose
-- request is still open, holds it back.
pub later_request-held_back :
    (v w : LamportState)
    → v.mqtt_request_open ≡ false
    → w.mqtt_request_open ≡ true
    → 1 < v.number_workers
    → let v' = (mqtt_request (on_mqtt_message (open_request w) v).0).0 in
      answered (on_mqtt_message (open_request w) v) ≡ true
      × (answered (on_mqtt_message (open_request v') w) ≡ false)
later_request-held_back v w cv ow several =
    let at_v = on_mqtt_message-Answers w.request_lamport_time w.worker_nr v in
    let u = (on_mqtt_message (open_request w) v).0 in
    let v' = (mqtt_request u).0 in
    let time = mqtt_request_time u (omega (arith, at_v.same_workers)) in
    let at_w = on_mqtt_message-Answers v'.request_lamport_time v'.worker_nr w in
    let late =
      later-held_back v'.request_lamport_time v'.worker_nr w ow
        (omega (arith, time, at_v.later_than_received)) in
    (at_v.reply_or_hold ∙ rw cv refl, at_w.reply_or_hold ∙ rw late refl)
