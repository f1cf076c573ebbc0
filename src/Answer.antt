-- ===== src/Answer.antt =====
-- From the chunks of a field to the value that a reader is shown: `createTasks` of
-- Controller/MatrixData.h, `calcTask` of Worker/RPCImplementation.h, and `addResult` and `getResult` of
-- Database/ResultMatrix.h together.
pub mod Served
mod Tests
use mathlib.Core.Option.{some_inj}
use distributed_matrix_multi.Prelude.{
  ℕ, zero, suc, ◌+◌, ◌≤◌, ◌<◌, ◌≡◌, refl, sym, ap, subst, ◌∙◌, Bool, true, false, ◌&&◌, Option,
  none, some, List, [], ◌∷◌, ◌>>=◌, >>=-eq-some, arith, ℤ, pos, ◌+ℤ◌, zero_+ℤ, length, ltb, ◌==◌,
  if◌then◌else◌, i32_bound, i64_bound, fits, to_i32, to_i32_id, All, AtMost, sum, sum-Permᴰ,
  length-Permᴰ, Permᴰ,
}
use distributed_matrix_multi.Rpc.Task.{RpcMatrixTask}
use distributed_matrix_multi.Decimal.Print.{number_to_string}
use distributed_matrix_multi.Worker.Handler.Defs.{Handler, calc_task}
use distributed_matrix_multi.Controller.MatrixData.Plan.Defs.{Chunking}
use distributed_matrix_multi.Controller.MatrixData.Plan.Covers.{Covers}
use distributed_matrix_multi.Controller.MatrixData.Tasks.Defs.{FieldOf, field_tasks}
use distributed_matrix_multi.Controller.MatrixData.Tasks.Dots.{product_entry, calc_all}
use distributed_matrix_multi.Controller.MatrixData.Tasks.Product.{
  IsProduct, Computes, field_tasks-product,
}
use distributed_matrix_multi.Database.ResultMatrix.Defs.{ResultMatrix, get_result}
use distributed_matrix_multi.Database.ResultMatrix.Cells.{value_at, final_at}
use distributed_matrix_multi.Database.ResultMatrix.Stores.{IsShaped}
use distributed_matrix_multi.Database.ResultMatrix.Shown.{get_result-shown}
use distributed_matrix_multi.Database.ResultMatrix.Sums.{
  store_results, Sums, store_results-Sums, same_cell,
}

-- A worker has a result for each task.
length-calc_all :
    (ts : List RpcMatrixTask) (h : Handler) (results : List ℤ)
    → calc_all ts h ≡ some results
    → length results ≡ length ts
unfolding calc_all
length-calc_all [] h results e = ap length (sym (some_inj.0 e))
length-calc_all (t ∷ ts) h results e =
    let ((accepted, h'), _, e') = >>=-eq-some (calc_task t h) _ e in
    let (rest, e'', last) = >>=-eq-some (calc_all ts h') _ e' in
    ap length (sym (some_inj.0 last)) ∙ ap suc (length-calc_all ts h' rest e'')

-- At least one result arrives for a field.
pub length-arrived :
    (c : Chunking) (f : FieldOf) (n : ℕ) (h : Handler) (tasks : List RpcMatrixTask)
    (results arrived : List ℤ)
    → Covers c n
    → 0 < c.chunks_per_row
    → IsProduct f n
    → field_tasks c f ≡ some tasks
    → calc_all tasks h ≡ some results
    → Permᴰ results arrived
    → 0 < length arrived
length-arrived c f n h tasks results arrived covers chunk p et er perm =
    let computes = field_tasks-product c f n h covers p in
    let same_tasks : computes.tasks ≡ tasks = some_inj.0 (sym computes.created ∙ et) in
    omega (
      arith,
      length-Permᴰ results arrived perm,
      length-calc_all tasks h results er,
      ap length same_tasks,
      computes.one_for_each_chunk,
    )

-- A cell that was empty, after some values were stored whose sum is an `int`.
shown_after :
    (m : ResultMatrix) (vs : List ℤ) (row col : ℕ) (e : ℤ) (s : Sums m vs row col)
    → value_at m row col ≡ pos 0
    → 0 < length vs
    → sum vs ≡ e
    → fits i32_bound e ≡ true
    → row + 1 < i32_bound
    → col + 1 < i32_bound
    → get_result s.after (pos row) (pos col) ≡ number_to_string i64_bound e
shown_after m vs row col e s empty some_value total fit h k =
    let cell = same_cell row col in
    let value : value_at s.after row col ≡ e =
      s.values row col
      ∙ rw (cell, empty) (ap to_i32 (zero_+ℤ (sum vs) ∙ total) ∙ to_i32_id e fit) in
    let stored_here : (row == row && col == col && ltb 0 (length vs)) ≡ true = ground arith in
    let final : final_at s.after row col ≡ true = s.finals row col ∙ rw stored_here refl in
    get_result-shown s.after row col s.shaped h k ∙ rw (final, value) refl

-- Let the chunks cover the row of a field, let the entries be small enough for their products to be
-- `int`s, and let a worker compute the tasks of the field. When its results, each of them an `int`, have
-- been stored in an empty cell of the database, in whatever order they arrived, then a reader of
-- the cell is shown the entry of the matrix product in decimal, if that entry is an `int`.
pub get_result-product :
    (c : Chunking) (f : FieldOf) (n : ℕ) (h : Handler) (tasks : List RpcMatrixTask)
    (results arrived : List ℤ) (entry : ℤ) (m : ResultMatrix)
    → Covers c n
    → 0 < c.chunks_per_row
    → IsProduct f n
    → field_tasks c f ≡ some tasks
    → calc_all tasks h ≡ some results
    → Permᴰ results arrived
    → All (AtMost i32_bound) arrived
    → product_entry f.matrix_a f.matrix_b f.row f.col 0 n ≡ some entry
    → fits i32_bound entry ≡ true
    → IsShaped m
    → value_at m f.row f.col ≡ pos 0
    → f.row + 1 < i32_bound
    → f.col + 1 < i32_bound
    → (after : ResultMatrix) × (store_results arrived f.row f.col m ≡ some after)
      × (get_result after (pos f.row) (pos f.col) ≡ number_to_string i64_bound entry)
get_result-product c f n h tasks results arrived entry m covers chunk p et er perm small ee fit w
      empty row_small col_small =
    let computes = field_tasks-product c f n h covers p in
    let same_tasks : computes.tasks ≡ tasks = some_inj.0 (sym computes.created ∙ et) in
    let same_results : computes.results ≡ results =
      some_inj.0 (sym computes.computed ∙ ap (λ ts. calc_all ts h) same_tasks ∙ er) in
    let total : sum arrived ≡ entry =
      sym (sum-Permᴰ results arrived perm)
      ∙ ap sum (sym same_results)
      ∙ some_inj.0 (sym computes.adds_up ∙ ee) in
    let count = length-arrived c f n h tasks results arrived covers chunk p et er perm in
    let s = store_results-Sums m arrived f.row f.col w row_small col_small small in
    (
      s.after,
      s.added,
      shown_after m arrived f.row f.col entry s empty count total fit row_small col_small,
    )
