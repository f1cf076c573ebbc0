-- ===== src/Controller/Threads/Outcome.antt =====
-- What the balance of the tasks means for the answers of MatrixData to the threads of
-- Controller/controller.cpp: `lastChunk` and `allTasksFinished`.
use mathlib.Core.Option.{some_inj}
use distributed_matrix_multi.Prelude.{
  ℕ, ◌+◌, ◌≤◌, ◌≡◌, ◌↔◌, refl, sym, ap, ◌∙◌, true, some, List, [], ◌∷◌, arith, ℤ, All, total,
  length, ◌==◌,
}
use distributed_matrix_multi.Rpc.Task.{RpcMatrixTask}
use distributed_matrix_multi.Controller.Matrix.{Matrix}
use distributed_matrix_multi.Controller.MatrixData.Plan.Defs.{Settings}
use distributed_matrix_multi.Controller.MatrixData.State.{ResultField, MatrixData, field_at}
use distributed_matrix_multi.Controller.MatrixData.Initialize.Fields.{IsInside}
use distributed_matrix_multi.Controller.MatrixData.Initialize.Established.{Established}
use distributed_matrix_multi.Controller.MatrixData.Queue.Defs.{field_of}
use distributed_matrix_multi.Controller.MatrixData.Progress.Defs.{
  last_chunk, inform_about_stored_result, all_tasks_finished,
}
use distributed_matrix_multi.Controller.MatrixData.Progress.Finished.{
  chunks, inform_about_stored_result-Informs, all_tasks_finished_iff,
}
use distributed_matrix_multi.Controller.Threads.Defs.{Thread, Controller, Reachable}
use distributed_matrix_multi.Controller.Threads.Balance.{in_hand, Balanced, Invariant}
use distributed_matrix_multi.Controller.Threads.Start.{IsIdle, started, Reachable-Invariant}

-- The answer of `lastChunk` for a task, and that the result can be counted.
pub record Announces (t : RpcMatrixTask) (d : MatrixData) (threads : List Thread) : Type 0 where
  pub queue : List RpcMatrixTask
  pub queue_found : field_at d.matrix_tasks (field_of t) ≡ some queue
  pub answer : last_chunk t d ≡ some (length queue + total (in_hand (field_of t)) threads == 1)
  pub after : MatrixData
  pub can_be_counted : inform_about_stored_result t d ≡ some after

last_of :
    (queued hands stored all : ℕ)
    → queued + hands + stored ≡ all
    → (stored + 1 == all) ≡ (queued + hands == 1)
last_of queued hands stored all h = ground arith

announces :
    (s : Settings) (t : RpcMatrixTask) (d : MatrixData) (threads : List Thread)
    → Invariant s d threads
    → IsInside s (field_of t)
    → Announces t d threads
announces s t d threads inv inside =
    let b = inv.balanced (field_of t) inside in
    let r = inform_about_stored_result-Informs t d b.stored inv.counted b.stored_found in
    record {
      queue = b.queue;
      queue_found = b.queue_found;
      answer =
          r.announced
          ∙ ap some (
              last_of (length b.queue) (total (in_hand (field_of t)) threads) b.stored (chunks d)
                b.balance);
      after = r.after;
      can_be_counted = r.returns;
    }

-- In every state that the threads reach behind `initialize`, `lastChunk` answers for a task of a field of
-- the result matrices without a fault, and with true exactly when one task of that field is left, queued
-- or in a thread's hands; a result of the field can then be counted without a fault.
pub last_chunk-Announces :
    (s : Settings) (matrices_a matrices_b : List (Matrix ℤ))
    (e : Established s matrices_a matrices_b) (threads : List Thread) (c : Controller)
    (t : RpcMatrixTask)
    → All IsIdle threads
    → Reachable (started e.state threads) c
    → IsInside s (field_of t)
    → Announces t c.m_data c.threads
last_chunk-Announces s as' bs e threads c t idle r inside =
    announces s t c.m_data c.threads (Reachable-Invariant s as' bs e threads c idle r) inside

empty_queue : (queue : List RpcMatrixTask) → length queue ≡ 0 → queue ≡ []
empty_queue [] h = refl
empty_queue (t ∷ queue) h = absurd (omega arith)

-- No task of a field is queued or in a thread's hands.
pub record NothingLeft (d : MatrixData) (threads : List Thread) (f : ResultField) : Type 0 where
  pub none_queued : field_at d.matrix_tasks f ≡ some []
  pub none_in_hand : total (in_hand f) threads ≡ 0

stored_full :
    (d : MatrixData) (threads : List Thread) (f : ResultField) (b : Balanced d threads f)
    → NothingLeft d threads f
    → b.stored ≡ chunks d
stored_full d threads f b n =
    let none_queued : b.queue ≡ [] = some_inj.0 (sym b.queue_found ∙ n.none_queued) in
    omega (arith, b.balance, n.none_in_hand, ap length none_queued)

full-NothingLeft :
    (d : MatrixData) (threads : List Thread) (f : ResultField) (b : Balanced d threads f)
    → chunks d ≤ b.stored
    → NothingLeft d threads f
full-NothingLeft d threads f b full =
    let none_queued : length b.queue ≡ 0 = omega (arith, b.balance) in
    record {
      none_queued = b.queue_found ∙ ap some (empty_queue b.queue none_queued);
      none_in_hand = omega (arith, b.balance);
    }

-- In every state that the threads reach behind `initialize`, `allTasksFinished` is true exactly when no
-- task of any field of the result matrices is queued or in a thread's hands.
pub all_tasks_finished-NothingLeft :
    (s : Settings) (matrices_a matrices_b : List (Matrix ℤ))
    (e : Established s matrices_a matrices_b) (threads : List Thread) (c : Controller)
    → All IsIdle threads
    → Reachable (started e.state threads) c
    → (all_tasks_finished c.m_data ≡ true)
      ↔ ((f : ResultField) → IsInside s f → NothingLeft c.m_data c.threads f)
all_tasks_finished-NothingLeft s as' bs e threads c idle r =
    let inv = Reachable-Invariant s as' bs e threads c idle r in
    let finished = all_tasks_finished_iff c.m_data inv.counted in
    (
      (λ done f inside.
          let b = inv.balanced f inside in
          full-NothingLeft c.m_data c.threads f b (finished.0 done f b.stored b.stored_found)),
      (λ left. finished.1 (λ f n found.
          let inside = inv.stored_inside f n found in
          let b = inv.balanced f inside in
          let same : b.stored ≡ n = some_inj.0 (sym b.stored_found ∙ found) in
          omega (arith, stored_full c.m_data c.threads f b (left f inside), same))),
    )
