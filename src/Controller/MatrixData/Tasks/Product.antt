-- ===== src/Controller/MatrixData/Tasks/Product.antt =====
-- The purpose of the division in Controller/MatrixData.h: the results that the workers return for
-- the tasks of a field add up to the entry of the product of the two matrices.
use distributed_matrix_multi.Prelude.{
  sum, ℕ, ◌≤◌, ◌<◌, ◌≡◌, refl, ap, sym, ◌∙◌, subst, some, List, arith, ℤ, i32_bound, length, All,
  ap₂,
}
use distributed_matrix_multi.Rpc.Task.{RpcMatrixTask}
use distributed_matrix_multi.Controller.Matrix.{IsMatrix}
use distributed_matrix_multi.Controller.Matrix.Laws.{get_elem?_total, All-get_elem?}
use distributed_matrix_multi.Controller.MatrixData.Plan.Defs.{Chunking}
use distributed_matrix_multi.Controller.MatrixData.Plan.Covers.{Covers}
use distributed_matrix_multi.Controller.MatrixData.Tasks.Defs.{FieldOf, field_tasks}
use distributed_matrix_multi.Controller.MatrixData.Tasks.Chunks.{IsField, Cut, field_tasks-Cut}
use distributed_matrix_multi.Worker.Handler.Defs.{Handler}
use distributed_matrix_multi.Worker.Handler.Dot.{dot, IsSmall, IsComputable}
use distributed_matrix_multi.Controller.MatrixData.Tasks.Dots.{
  product_entry, calc_all, product_entry-dot, calc_all-dot, All-chunks, length-chunks,
  IsComputable-All, copy_col_total,
}

-- The two factors of a product, of matching sizes and with entries whose products are `int`s.
pub record IsProduct (f : FieldOf) (n : ℕ) : Type 0 where
  pub sized_a : IsMatrix f.matrix_a
  pub sized_b : IsMatrix f.matrix_b
  pub inner_a : f.matrix_a.columns ≡ n
  pub inner_b : f.matrix_b.rows ≡ n
  pub row_inside : f.row < f.matrix_a.rows
  pub col_inside : f.col < f.matrix_b.columns
  pub small_a : All (All IsSmall) f.matrix_a.cells
  pub small_b : All (All IsSmall) f.matrix_b.cells
  pub short : n ≤ i32_bound

-- The row and the column of a field, which are found and hold small values.
record Factors (f : FieldOf) (n : ℕ) : Type 0 where
  xs : List ℤ
  ys : List ℤ
  field : IsField f n xs ys
  small_row : All IsSmall xs
  small_col : All IsSmall ys

IsProduct-Factors : (f : FieldOf) (n : ℕ) → IsProduct f n → Factors f n
IsProduct-Factors f n p =
    let (xs, er) =
      get_elem?_total f.matrix_a.cells f.row (omega (arith, p.sized_a.row_count, p.row_inside)) in
    let (ys, ec, small) =
      copy_col_total f.matrix_b f.col 0 n p.sized_b p.small_b p.col_inside
        (omega (arith, p.inner_b)) in
    record {
      xs = xs;
      ys = ys;
      field = record {
        row_found = er;
        col_found = ec;
        row_length = All-get_elem? _ f.matrix_a.cells f.row p.sized_a.row_sizes er ∙ p.inner_a;
        a_columns = p.inner_a;
        b_rows = p.inner_b;
      };
      small_row = All-get_elem? _ f.matrix_a.cells f.row p.small_a er;
      small_col = small;
    }

Cut-IsComputable :
    {f : FieldOf} {n k : ℕ} {ts : List RpcMatrixTask} (w : Factors f n)
    → n ≤ i32_bound
    → Cut f k w.xs w.ys ts
    → All IsComputable ts
Cut-IsComputable {ts} w short cut =
    IsComputable-All ts cut.paired
      (All-chunks (λ t. t.matrix_chunk_a) IsSmall ts
        (subst (All IsSmall) (sym cut.all_a) w.small_row))
      (All-chunks (λ t. t.matrix_chunk_b) IsSmall ts
        (subst (All IsSmall) (sym cut.all_b) w.small_col))
      (length-chunks (λ t. t.matrix_chunk_a) ts i32_bound
        (omega (arith, ap length cut.all_a, w.field.row_length)))

-- The tasks of a field can be made, one for each chunk.
pub field_tasks_total :
    (c : Chunking) (f : FieldOf) (n : ℕ)
    → Covers c n
    → IsProduct f n
    → (tasks : List RpcMatrixTask) × (field_tasks c f ≡ some tasks)
      × (length tasks ≡ c.chunks_per_row)
field_tasks_total c f n covers p =
    let w = IsProduct-Factors f n p in
    let (tasks, created, cut) = field_tasks-Cut f n w.xs w.ys w.field c covers in
    (tasks, created, cut.count)

-- What the tasks of a field are worth, once a worker has computed them.
pub record Computes (c : Chunking) (f : FieldOf) (n : ℕ) (h : Handler) : Type 0 where
  pub tasks : List RpcMatrixTask
  pub created : field_tasks c f ≡ some tasks
  pub one_for_each_chunk : length tasks ≡ c.chunks_per_row
  pub results : List ℤ
  pub computed : calc_all tasks h ≡ some results
  pub adds_up : product_entry f.matrix_a f.matrix_b f.row f.col 0 n ≡ some (sum results)

pub field_tasks-product :
    (c : Chunking) (f : FieldOf) (n : ℕ) (h : Handler)
    → Covers c n
    → IsProduct f n
    → Computes c f n h
field_tasks-product c f n h covers p =
    let w = IsProduct-Factors f n p in
    let (tasks, created, cut) = field_tasks-Cut f n w.xs w.ys w.field c covers in
    let (results, computed, added) =
      calc_all-dot tasks h (Cut-IsComputable w p.short cut) cut.paired in
    record {
      tasks = tasks;
      created = created;
      one_for_each_chunk = cut.count;
      results = results;
      computed = computed;
      adds_up =
          product_entry-dot f.matrix_a f.matrix_b f.row f.col 0 n w.xs w.xs w.ys w.field.row_found
            refl w.field.row_length w.field.col_found
          ∙ ap some (sym (added ∙ ap₂ dot cut.all_a cut.all_b));
    }
