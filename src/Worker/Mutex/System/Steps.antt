-- ===== src/Worker/Mutex/System/Steps.antt =====
-- Every step of the workers of Worker/worker.cpp keeps the invariant.
use distributed_matrix_multi.Prelude.{
  ℕ, ◌≤◌, ◌<◌, ◌≡◌, ◌≢◌, List, refl, sym, subst, ◌∙◌, true, arith, inl, inr, update, update_cases,
  update_other, sum_below-le, sum_below_zero,
}
use distributed_matrix_multi.Worker.Mutex.Defs.{MqttPayload, Published}
use distributed_matrix_multi.Worker.Mutex.System.Defs.{
  Node, Move, delivered_to, deliver, Step, step, Reachable, started, stepped, start, idle,
}
use distributed_matrix_multi.Worker.Mutex.System.Invariant.{
  competing, IsNumbered, Expects, IsFresh, Asked, IsConsistent,
}
use distributed_matrix_multi.Worker.Mutex.System.Weights.{node_weight, tokens, tokens-step}
use distributed_matrix_multi.Worker.Mutex.System.Balance.{Move-other}
use distributed_matrix_multi.Worker.Mutex.System.Local.{Move-IsNumbered, Move-Expects}
use distributed_matrix_multi.Worker.Mutex.System.Requests.{
  receive, receive-IsFresh, receive-Asked, receive-Asked_new, Move-IsFresh, Move-Asked,
  IsFresh-of_weight, Move-sends, Move-request_time, Move-competing,
}

receive-IsNumbered :
    (n k : ℕ) (ms : List MqttPayload) (v : Node) → IsNumbered n k v → IsNumbered n k (receive ms v)
receive-IsNumbered n k ms v h = record { number = h.number; workers = h.workers; opened = h.opened }

receive-Expects :
    (n t : ℕ) (ms : List MqttPayload) (v : Node) → Expects n t v → Expects n t (receive ms v)
receive-Expects n t ms v h = record { at_rest = h.at_rest; at_semaphore = h.at_semaphore }

module _ {n k : ℕ} {nodes : ℕ → Node} {v : Node} {published : Published}
    (inv : IsConsistent n nodes) (lt : k < n) (m : Move (nodes k) v published) where
  abbrev after : ℕ → Node
  after = update nodes k v

  numbered : (j : ℕ) → j < n → IsNumbered n j (deliver published after j)
  numbered j below = receive-IsNumbered n j (delivered_to j published) (after j) (
      update_cases (IsNumbered n j) nodes k j v
        (λ e. subst (λ i. IsNumbered n i v) (sym e) (Move-IsNumbered (inv.numbered k lt) m))
        (λ d. inv.numbered j below))

  node_weight-le : (i j : ℕ) → j < n → node_weight i j (nodes j) ≤ tokens n i nodes
  unfolding tokens
  node_weight-le i j below = sum_below-le n j (λ j. node_weight i j (nodes j)) below

  own-Expects : Expects n (tokens n k (deliver published after)) v
  own-Expects =
      Move-Expects (inv.numbered k lt) (tokens n k nodes) (tokens n k (deliver published after)) m
        lt (node_weight-le k k lt) (tokens-step n k k nodes v published lt) (inv.expects k lt)

  other-Expects :
      (i : ℕ) → i < n → i ≢ k → Expects n (tokens n i (deliver published after)) (nodes i)
  other-Expects i below d =
      let kept : tokens n i (deliver published after) ≡ tokens n i nodes =
        omega (
          arith,
          tokens-step n i k nodes v published lt,
          Move-other (inv.numbered k lt) below d m,
        ) in
      rw kept (inv.expects i below)

  expects :
      (i : ℕ) → i < n → Expects n (tokens n i (deliver published after)) (deliver published after i)
  expects i below =
      receive-Expects n (tokens n i (deliver published after)) (delivered_to i published) (after i)
        (update_cases (Expects n (tokens n i (deliver published after))) nodes k i v
          (λ e. subst (λ j. Expects n (tokens n j (deliver published after)) v) (sym e) own-Expects)
          (λ d. other-Expects i below d))

  moved-IsFresh :
      (i t : ℕ)
      → ((j : ℕ) → j < n → IsFresh i t (nodes j))
      → (j : ℕ) → j < n
      → IsFresh i t (after j)
  moved-IsFresh i t before j below =
      update_cases (IsFresh i t) nodes k j v (λ e. Move-IsFresh m (before k lt))
        (λ d. before j below)

  -- No message of a worker at rest is under way.
  idle-IsFresh : (nodes k).phase ≡ idle → (t j : ℕ) → j < n → IsFresh k t (nodes j)
  idle-IsFresh h t j below =
      let none_left : tokens n k nodes ≡ 0 = ground (arith, (inv.expects k lt).at_rest) in
      IsFresh-of_weight k j t (nodes j) (omega (arith, node_weight-le k j below))

  own-IsFresh : (j : ℕ) → j < n → IsFresh k v.state.request_lamport_time (nodes j)
  own-IsFresh j below = elim (Move-request_time m) [
    | inl e ↦ rw e (inv.fresh k j lt below)
    | inr h ↦ idle-IsFresh h v.state.request_lamport_time j below
  ]

  fresh :
      (i j : ℕ)
      → i < n
      → j < n
      → IsFresh i (deliver published after i).state.request_lamport_time (deliver published after j)
  fresh i j at_i at_j =
      update_cases (λ w. IsFresh i w.state.request_lamport_time (deliver published after j)) nodes k
        i v
        (λ e.
          receive-IsFresh (delivered_to j published)
            (Move-sends i j v.state.request_lamport_time k (inv.numbered k lt) m (λ _. refl))
            (subst (λ l. IsFresh l v.state.request_lamport_time (after j)) (sym e)
              (moved-IsFresh k v.state.request_lamport_time own-IsFresh j at_j)))
        (λ d.
          receive-IsFresh (delivered_to j published)
            (Move-sends i j (nodes i).state.request_lamport_time k (inv.numbered k lt) m
              (λ e. absurd (d e)))
            (moved-IsFresh i (nodes i).state.request_lamport_time
              (λ l at_l. inv.fresh i l at_i at_l) j at_j))

  -- The mover as the one that asks.
  own-Asked :
      (j : ℕ)
      → j < n
      → k ≢ j
      → competing v.phase ≡ true
      → Asked k v.state.request_lamport_time (receive (delivered_to j published) (nodes j))
  own-Asked j at_j d c = elim (Move-competing (inv.numbered k lt) (omega arith) m c) [
    | inl before ↦ elim (Move-request_time m) [
      | inl e ↦ rw e (receive-Asked (delivered_to j published) (inv.asked k j lt at_j d before))
      | inr h ↦ ground arith
    ]
    | inr sends ↦
        receive-Asked_new k v.state.request_lamport_time (nodes j) (delivered_to j published)
          (sends j (λ e. d (sym e)))
  ]

  -- The others as those that ask.
  other-Asked :
      (i j : ℕ)
      → i < n
      → j < n
      → i ≢ j
      → i ≢ k
      → competing (nodes i).phase ≡ true
      → Asked i (nodes i).state.request_lamport_time (after j)
  other-Asked i j at_i at_j d apart c =
      update_cases (Asked i (nodes i).state.request_lamport_time) nodes k j v
        (λ e.
          Move-Asked (inv.numbered k lt) (inv.fresh i k at_i lt) (omega arith) m
            (inv.asked i k at_i lt apart c))
        (λ _. inv.asked i j at_i at_j d c)

  asked :
      (i j : ℕ)
      → i < n
      → j < n
      → i ≢ j
      → competing (deliver published after i).phase ≡ true
      → Asked i (deliver published after i).state.request_lamport_time (deliver published after j)
  asked i j at_i at_j d =
      update_cases
        (λ w.
          competing w.phase ≡ true
          → Asked i w.state.request_lamport_time (deliver published after j))
        nodes k i v
        (λ e c.
          let apart : j ≢ k = λ e'. d (e ∙ sym e') in
          subst
            (λ l.
              Asked l v.state.request_lamport_time (receive (delivered_to j published) (after j)))
            (sym e)
            (subst
              (λ w. Asked k v.state.request_lamport_time (receive (delivered_to j published) w))
              (sym (update_other nodes k j v apart)) (own-Asked j at_j (λ e'. apart (sym e')) c)))
        (λ apart c. receive-Asked (delivered_to j published) (other-Asked i j at_i at_j d apart c))

  pub Move-IsConsistent : IsConsistent n (deliver published after)
  Move-IsConsistent = record {
    numbered = numbered;
    expects = expects;
    fresh = fresh;
    asked = asked;
  }

tokens-start : (n i : ℕ) → tokens n i (start n) ≡ 0
unfolding tokens node_weight
tokens-start n i = sum_below_zero n

start-IsConsistent : (n : ℕ) → IsConsistent n (start n)
start-IsConsistent n = record {
  numbered = λ k below. record { number = refl; workers = refl; opened = λ _ c. cc };
  expects =
      λ i below. record { at_rest = λ _. (tokens-start n i, refl, refl); at_semaphore = λ w. cc };
  fresh = λ i k at_i at_k. record { in_inbox = refl; in_callback = refl };
  asked = λ i k at_i at_k d c. cc;
}

Step-IsConsistent : {n : ℕ} {s t : ℕ → Node} → Step n s t → IsConsistent n s → IsConsistent n t
Step-IsConsistent (step k v published lt m) inv = Move-IsConsistent inv lt m

-- The invariant of all workers holds in every state that they reach from the start of the program.
pub Reachable-IsConsistent : {n : ℕ} {s : ℕ → Node} → Reachable n s → IsConsistent n s
Reachable-IsConsistent {n} started = start-IsConsistent n
Reachable-IsConsistent (stepped r st) = Step-IsConsistent st (Reachable-IsConsistent r)
