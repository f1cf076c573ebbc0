-- ===== src/Worker/Mutex/System/Local.antt =====
-- What a step of a worker of Worker/worker.cpp keeps of the facts about that worker.
use distributed_matrix_multi.Prelude.{ℕ, ◌+◌, ◌*◌, ◌≤◌, ◌<◌, ◌≡◌, ap, arith, same}
use distributed_matrix_multi.Worker.Mutex.Defs.{
  Published, mqtt_reply, mqtt_request, advance_time, count_reply, hold_back,
}
use distributed_matrix_multi.Worker.Mutex.System.Defs.{
  Node, Move, take, count, test, compare_times, hold, reply_now, ask, enter, finish, fail, pop,
  answer, emptied, close,
}
use distributed_matrix_multi.Worker.Mutex.System.Invariant.{IsNumbered, Expects}
use distributed_matrix_multi.Worker.Mutex.System.Weights.{node_weight, sent}
use distributed_matrix_multi.Worker.Mutex.System.Balance.{Move-Balance}

same_self : (k : ℕ) → same k k ≡ 1
same_self k = ground arith

module _ {n k : ℕ} {v : Node} (own : IsNumbered n k v) where
  pub Move-IsNumbered :
      {v' : Node} {published : Published} → Move v v' published → IsNumbered n k v'
  unfolding mqtt_reply mqtt_request advance_time count_reply hold_back
  Move-IsNumbered (take p front back c e) = ground arith
  Move-IsNumbered (enter h s) = ground arith
  Move-IsNumbered m = ground arith

  -- The count of the messages of its own request moves with the balance of the step.
  pub Move-Expects :
      (t t' : ℕ) {v' : Node} {published : Published} (m : Move v v' published)
      → k < n
      → node_weight k k v ≤ t
      → t' + node_weight k k v ≡ t + node_weight k k v' + sent n k published
      → Expects n t v
      → Expects n t' v'
  Move-Expects t t' (take p front back c e) lt few eq x =
      let b = Move-Balance own lt (take p front back c e) in
      let kept : t' ≡ t = omega (arith, b) in unfold advance_time in ground arith
  Move-Expects t t' (count c) lt few eq x =
      let b = Move-Balance own lt (count c) in
      let kept : t' + 1 ≡ t = omega (arith, b, same_self k) in unfold count_reply in ground arith
  Move-Expects t t' (ask h) lt few eq x =
      let b = Move-Balance own lt (ask h) in
      let one = ap (λ (m : ℕ). n * m) (same_self k) in
      let kept : t' + 1 ≡ t + n = omega (arith, b, one, same_self k) in
      unfold mqtt_request in ground arith
  Move-Expects t t' (hold p c) lt few eq x =
      let b = Move-Balance own lt (hold p c) in
      let kept : t' ≡ t = omega (arith, b) in unfold hold_back in ground arith
  Move-Expects t t' (reply_now nr c) lt few eq x =
      let b = Move-Balance own lt (reply_now nr c) in
      let kept : t' ≡ t = omega (arith, b) in unfold mqtt_reply in ground arith
  Move-Expects t t' (answer nr c) lt few eq x =
      let b = Move-Balance own lt (answer nr c) in
      let kept : t' ≡ t = omega (arith, b) in unfold mqtt_reply in ground arith
  Move-Expects t t' (enter h s) lt few eq x =
      let b = Move-Balance own lt (enter h s) in
      let kept : t' ≡ t = omega (arith, b) in ground arith
  Move-Expects t t' (finish h) lt few eq x =
      let b = Move-Balance own lt (finish h) in let kept : t' ≡ t = omega (arith, b) in ground arith
  Move-Expects t t' (fail h) lt few eq x =
      let b = Move-Balance own lt (fail h) in let kept : t' ≡ t = omega (arith, b) in ground arith
  Move-Expects t t' (pop nr time queue h e) lt few eq x =
      let b = Move-Balance own lt (pop nr time queue h e) in
      let kept : t' ≡ t = omega (arith, b) in ground arith
  Move-Expects t t' (emptied h e) lt few eq x =
      let b = Move-Balance own lt (emptied h e) in
      let kept : t' ≡ t = omega (arith, b) in ground arith
  Move-Expects t t' (close h) lt few eq x =
      let b = Move-Balance own lt (close h) in let kept : t' ≡ t = omega (arith, b) in ground arith
  Move-Expects t t' (test p c h) lt few eq x =
      let b = Move-Balance own lt (test p c h) in
      let kept : t' ≡ t = omega (arith, b) in ground arith
  Move-Expects t t' (compare_times p c) lt few eq x =
      let b = Move-Balance own lt (compare_times p c) in
      let kept : t' ≡ t = omega (arith, b) in ground arith
