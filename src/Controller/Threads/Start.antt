-- ===== src/Controller/Threads/Start.antt =====
-- The state from which the threads of Controller/controller.cpp start: behind
-- `MatrixData::initialize` of Controller/MatrixData.h, with no task in any thread's hands.
use mathlib.Core.Option.{some_inj}
use distributed_matrix_multi.Prelude.{
  ℕ, zero, suc, ◌+◌, ◌≡◌, refl, sym, ap, subst, false, some, List, [], ◌∷◌, >>=-eq-some, arith, ℤ,
  All, In, total,
}
use distributed_matrix_multi.Rpc.Task.{RpcMatrixTask}
use distributed_matrix_multi.Controller.Matrix.{Matrix, get_row_array, get_col_array}
use distributed_matrix_multi.Controller.MatrixData.Plan.Defs.{Settings, Chunking}
use distributed_matrix_multi.Controller.MatrixData.State.{ResultField, MatrixData}
use distributed_matrix_multi.Controller.MatrixData.Tasks.Defs.{
  FieldOf, next_chunk, make_task, make_chunks, field_tasks,
}
use distributed_matrix_multi.Controller.MatrixData.Initialize.Defs.{factors_of}
use distributed_matrix_multi.Controller.MatrixData.Initialize.Fields.{all_fields-IsInside}
use distributed_matrix_multi.Controller.MatrixData.Initialize.Established.{Established}
use distributed_matrix_multi.Controller.MatrixData.Queue.Defs.{field_of}
use distributed_matrix_multi.Controller.Threads.Defs.{
  waiting, Thread, Controller, Reachable, here, step,
}
use distributed_matrix_multi.Controller.Threads.Balance.{
  in_hand_of, in_hand, HandsInside, Invariant,
}
use distributed_matrix_multi.Controller.Threads.Steps.{step-Invariant}

make_task-field :
    (f : FieldOf) (index size : ℕ) (t : RpcMatrixTask)
    → make_task f index size ≡ some t
    → field_of t ≡ record { result_matrix = f.result_matrix; row = f.row; col = f.col }
unfolding make_task
make_task-field f index size t e =
    let (a, _, e₁) = >>=-eq-some (get_row_array f.matrix_a f.row index size) _ e in
    let (b, _, e₂) = >>=-eq-some (get_col_array f.matrix_b f.col index size) _ e₁ in
    let (values_a, _, e₃) = >>=-eq-some a _ e₂ in
    let (values_b, _, e₄) = >>=-eq-some b _ e₃ in ap field_of (sym (some_inj.0 e₄))

make_chunks-fields :
    (rounds : ℕ) (c : Chunking) (f : FieldOf) (chunk remaining index : ℕ) (ts : List RpcMatrixTask)
    → make_chunks rounds c f chunk remaining index ≡ some ts
    → All
        (λ t. field_of t ≡ record { result_matrix = f.result_matrix; row = f.row; col = f.col })
        ts
unfolding make_chunks
make_chunks-fields zero c f chunk remaining index ts e = subst (All _) (some_inj.0 e) tt
make_chunks-fields (suc rounds) c f chunk remaining index ts e =
    let (size, left) = next_chunk c chunk remaining in
    let (t, et, e₁) = >>=-eq-some (make_task f index (next_chunk c chunk remaining).0) _ e in
    let (rest, er, e₂) =
      >>=-eq-some
        (make_chunks rounds c f (chunk + 1) (next_chunk c chunk remaining).1
          (index + (next_chunk c chunk remaining).0))
        _ e₁ in
    subst (All _) (some_inj.0 e₂) (
      make_task-field f index (next_chunk c chunk remaining).0 t et,
      make_chunks-fields rounds c f (chunk + 1) (next_chunk c chunk remaining).1
          (index + (next_chunk c chunk remaining).0) rest er,
    )

field_tasks-fields :
    (c : Chunking) (a b : Matrix ℤ) (f : ResultField) (ts : List RpcMatrixTask)
    → field_tasks c (factors_of a b f) ≡ some ts
    → All (λ t. field_of t ≡ f) ts
unfolding field_tasks
field_tasks-fields c a b f ts e =
    make_chunks-fields c.chunks_per_row c (factors_of a b f) 0 c.remaining_chunk_size 0 ts e

abbrev pub IsIdle : Thread → Type 0
IsIdle th = th.phase ≡ waiting

idle-total :
    (f : ResultField) (threads : List Thread) → All IsIdle threads → total (in_hand f) threads ≡ 0
idle-total f [] h = refl
idle-total f (th ∷ threads) h = omega (arith, ap (in_hand_of f) h.0, idle-total f threads h.1)

idle-HandsInside :
    (s : Settings) (threads : List Thread)
    → All IsIdle threads
    → All (λ th. HandsInside s th.phase) threads
idle-HandsInside s [] h = tt
idle-HandsInside s (th ∷ threads) h =
    (subst (HandsInside s) (sym h.0) tt, idle-HandsInside s threads h.1)

-- The threads before their first task.
abbrev pub started : MatrixData → List Thread → Controller
started d threads = record { m_data = d; threads = threads; store_locked = false }

start-Invariant :
    (s : Settings) (matrices_a matrices_b : List (Matrix ℤ))
    (e : Established s matrices_a matrices_b) (threads : List Thread)
    → All IsIdle threads
    → Invariant s e.state threads
start-Invariant s as' bs e threads idle = record {
  ready = e.ready;
  counted = e.counted;
  balanced = λ f h.
      let (m, found) = e.queues f h in
      record {
        queue = m.tasks;
        queue_found = found;
        own = field_tasks-fields e.state.plan.chunking m.a m.b f m.tasks m.made;
        stored = 0;
        stored_found = e.nothing_stored f h;
        balance = omega (arith, m.count, idle-total f threads idle);
      };
  inside =
      λ f h. all_fields-IsInside s f (subst (λ fs. In f fs) e.fields_queued (e.ready.listed f h));
  stored_inside = e.stored_inside;
  hands_inside = idle-HandsInside s threads idle;
}

pub Reachable-Invariant :
    (s : Settings) (matrices_a matrices_b : List (Matrix ℤ))
    (e : Established s matrices_a matrices_b) (threads : List Thread) (c : Controller)
    → All IsIdle threads
    → Reachable (started e.state threads) c
    → Invariant s c.m_data c.threads
Reachable-Invariant s as' bs e threads c idle here = start-Invariant s as' bs e threads idle
Reachable-Invariant s as' bs e threads c idle (step c₀ _ i th r at_i one) =
    step-Invariant s c₀ c i th at_i one (Reachable-Invariant s as' bs e threads c₀ idle r)
