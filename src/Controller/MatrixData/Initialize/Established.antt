-- ===== src/Controller/MatrixData/Initialize/Established.antt =====
-- The state that `initialize` of Controller/MatrixData.h leaves: every field has the tasks of its row
-- and column, the queue is in order, and nothing is counted as stored.
use native.Mathlib.Nat.{zero-add}
use distributed_matrix_multi.Prelude.{
  ℕ, ◌*◌, ◌≤◌, ◌<◌, ◌≡◌, refl, ap, sym, ◌∙◌, inl, inr, some, List, [], ◌∷◌, ◌>>=◌, arith, ℤ,
  i32_bound, All, length, replicate,
}
use distributed_matrix_multi.Rpc.Task.{RpcMatrixTask}
use distributed_matrix_multi.Controller.Matrix.{Matrix, new_matrix, IsMatrix}
use distributed_matrix_multi.Controller.Matrix.Laws.{get_elem?_total, All-get_elem?}
use distributed_matrix_multi.Controller.MatrixData.Plan.Defs.{
  Settings, Chunking, Plan, prepare_tasks,
}
use distributed_matrix_multi.Controller.MatrixData.Plan.Covers.{Covers}
use distributed_matrix_multi.Controller.MatrixData.Plan.Prepare.{prepare_tasks-Covers}
use distributed_matrix_multi.Controller.MatrixData.Plan.Chunks.{prepare_tasks_has_chunk}
use distributed_matrix_multi.Controller.MatrixData.Tasks.Product.{IsProduct, field_tasks_total}
use distributed_matrix_multi.Controller.MatrixData.State.{ResultField, MatrixData, field_at}
use distributed_matrix_multi.Controller.MatrixData.Fields.{ResultField-discrete}
use distributed_matrix_multi.Controller.MatrixData.Queue.Ready.{HasTask, IsReady, Queues}
use distributed_matrix_multi.Controller.MatrixData.Progress.Finished.{Counted, finished_weight}
use distributed_matrix_multi.Controller.MatrixData.Initialize.Defs.{
  all_fields, factors_of, no_tasks, initialize,
}
use distributed_matrix_multi.Controller.MatrixData.Initialize.Fields.{
  IsInside, all_fields-IsInside, IsInside-all_fields, all_fields-Distinct, length-all_fields,
}
use distributed_matrix_multi.Controller.MatrixData.Initialize.Creates.{Makes, Creates, creates}
use distributed_matrix_multi.Worker.Handler.Dot.{IsSmall}
use distributed_matrix_multi.Controller.MatrixData.Initialize.Vectors.{
  dec_In, field_at-new, field_at-new_only, field_at-new-IsInside, fields_total-new,
}

-- Input matrices of the sizes that the settings say, with small values. (The source draws them from
-- -100 to 100.)
pub record IsInput (rows columns : ℕ) (m : Matrix ℤ) : Type 0 where
  pub sized : IsMatrix m
  pub row_count : m.rows ≡ rows
  pub column_count : m.columns ≡ columns
  pub small : All (All IsSmall) m.cells

pub record AreInputs (s : Settings) (matrices_a matrices_b : List (Matrix ℤ)) : Type 0 where
  pub count_a : length matrices_a ≡ s.number_matrices
  pub count_b : length matrices_b ≡ s.number_matrices
  pub inputs_a : All (IsInput s.a_rows s.a_cols) matrices_a
  pub inputs_b : All (IsInput s.a_cols s.b_cols) matrices_b
  pub short : s.a_cols ≤ i32_bound

IsInput-IsProduct :
    (s : Settings) (a b : Matrix ℤ) (f : ResultField)
    → IsInput s.a_rows s.a_cols a
    → IsInput s.a_cols s.b_cols b
    → IsInside s f
    → s.a_cols ≤ i32_bound
    → IsProduct (factors_of a b f) s.a_cols
IsInput-IsProduct s a b f ia ib h short = record {
  sized_a = ia.sized;
  sized_b = ib.sized;
  inner_a = ia.column_count;
  inner_b = ib.row_count;
  row_inside = omega (arith, ia.row_count, h.row_inside);
  col_inside = omega (arith, ib.column_count, h.col_inside);
  small_a = ia.small;
  small_b = ib.small;
  short = short;
}

module _ (s : Settings) (matrices_a matrices_b : List (Matrix ℤ))
    (inputs : AreInputs s matrices_a matrices_b) where
  -- Every field finds its two matrices, and its tasks can be made.
  pub makes :
      (c : Chunking) (f : ResultField)
      → Covers c s.a_cols
      → IsInside s f
      → Makes c matrices_a matrices_b f
  makes c f covers h =
      let (a, ea) =
        get_elem?_total matrices_a f.result_matrix
          (omega (arith, inputs.count_a, h.matrix_inside)) in
      let (b, eb) =
        get_elem?_total matrices_b f.result_matrix
          (omega (arith, inputs.count_b, h.matrix_inside)) in
      let ia = All-get_elem? _ matrices_a f.result_matrix inputs.inputs_a ea in
      let ib = All-get_elem? _ matrices_b f.result_matrix inputs.inputs_b eb in
      let (tasks, made, count) =
        field_tasks_total c (factors_of a b f) s.a_cols covers
          (IsInput-IsProduct s a b f ia ib h inputs.short) in
      record { a = a; b = b; a_found = ea; b_found = eb; tasks = tasks; made = made; count = count }

  created :
      (c : Chunking)
      → Covers c s.a_cols
      → Creates c matrices_a matrices_b (all_fields s) (no_tasks s)
  created c covers =
      creates c matrices_a matrices_b (all_fields s) (no_tasks s) (all_fields-Distinct s)
        (λ f h. makes c f covers (all_fields-IsInside s f h))
        (λ f h. ([], field_at-new s [] f (all_fields-IsInside s f h)))

-- A list that is as long as there are chunks has a task, if there is a chunk.
tasks_left :
    (qs : Queues) (f : ResultField) (ts : List RpcMatrixTask)
    → field_at qs f ≡ some ts
    → 0 < length ts
    → HasTask qs f
tasks_left qs f [] e h = elim h [ ]
tasks_left qs f (t ∷ ts) e h = (t, ts, e)

-- The state after `initialize`.
pub record Established (s : Settings) (matrices_a matrices_b : List (Matrix ℤ)) : Type 0 where
  pub state : MatrixData
  pub returns : initialize s matrices_a matrices_b ≡ some state
  pub ready : IsReady state
  pub counted : Counted state
  pub queues :
      (f : ResultField)
      → IsInside s f
      → (m : Makes state.plan.chunking matrices_a matrices_b f) × (field_at state.matrix_tasks f
          ≡ some m.tasks)
  pub nothing_stored :
      (f : ResultField) → IsInside s f → field_at state.matrix_stored_chunks f ≡ some 0
  pub stored_inside :
      (f : ResultField) (n : ℕ) → field_at state.matrix_stored_chunks f ≡ some n → IsInside s f
  pub fields_queued : state.next_task_field ≡ all_fields s
  pub number_of_tasks :
      state.total_number_tasks ≡ s.a_rows * s.b_cols * s.number_matrices * state.plan.chunks_per_row

module _ (s : Settings) (matrices_a matrices_b : List (Matrix ℤ)) (p : Plan)
    (c : Creates p.chunking matrices_a matrices_b (all_fields s) (no_tasks s))
    (has_chunk : 0 < p.chunks_per_row) where
  abbrev initial_state : MatrixData
  initial_state = record {
    settings = s;
    plan = p;
    total_number_tasks = c.after.total_number_tasks;
    matrices_a = matrices_a;
    matrices_b = matrices_b;
    matrix_tasks = c.after.queues;
    next_task_field = all_fields s;
    matrix_stored_chunks = replicate s.number_matrices (new_matrix s.a_rows s.b_cols 0);
    finished_fields = 0;
  }

  initial_state-IsReady : IsReady initial_state
  initial_state-IsReady = record {
    queued = λ f h.
        let (m, found) = c.filled f h in
        tasks_left c.after.queues f m.tasks found (omega (arith, m.count));
    listed = λ f (t, ts, found). elim (dec_In ResultField-discrete f (all_fields s)) [
      | inl h ↦ h
      | inr out ↦
          let empty =
            field_at-new_only s.number_matrices s.a_rows s.b_cols [] f
              (sym (c.untouched f out) ∙ found) in
          cc
    ];
    distinct = all_fields-Distinct s;
  }

  initial_state-Counted : Counted initial_state
  initial_state-Counted =
      let unfinished : finished_weight p.chunks_per_row 0 ≡ 0 = ground arith in
      let zero_total =
        fields_total-new (finished_weight p.chunks_per_row) s.number_matrices s.a_rows s.b_cols 0 in
      let one_total = fields_total-new (λ (n : ℕ). 1) s.number_matrices s.a_rows s.b_cols 0 in
      record {
        some_chunks = has_chunk;
        counts = sym (zero_total ∙ rw unfinished (omega arith));
        all_fields = one_total ∙ omega arith;
      }

pub initialize-Established :
    (s : Settings) (matrices_a matrices_b : List (Matrix ℤ)) (p : Plan)
    → prepare_tasks s ≡ some p
    → AreInputs s matrices_a matrices_b
    → Established s matrices_a matrices_b
unfolding initialize
initialize-Established s as' bs p planned inputs =
    let covers = (prepare_tasks-Covers s planned).0 in
    let has_chunk = prepare_tasks_has_chunk s p planned in
    let c = created s as' bs inputs p.chunking covers in
    record {
      state = initial_state s as' bs p c has_chunk;
      returns = rw (planned, ◌>>=◌, c.returns, ◌>>=◌) refl;
      ready = initial_state-IsReady s as' bs p c has_chunk;
      counted = initial_state-Counted s as' bs p c has_chunk;
      queues = λ f h. c.filled f (IsInside-all_fields s f h);
      nothing_stored = λ f h. field_at-new s 0 f h;
      stored_inside = λ f n found. field_at-new-IsInside s 0 f found;
      fields_queued = refl;
      number_of_tasks =
          c.counted
          ∙ (zero-add (length (all_fields s) * p.chunks_per_row)
              ∙ ap (λ k. k * p.chunks_per_row) (length-all_fields s));
    }
