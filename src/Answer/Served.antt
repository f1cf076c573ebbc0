-- ===== src/Answer/Served.antt =====
-- From the tasks of a field to the response of the database: the requests that the workers send with
-- `writeToDatabase` of Worker/worker.cpp, and a reader's request behind them, all handled by
-- Database/database.cpp.
use mathlib.Core.Option.{some_inj}
use distributed_matrix_multi.Prelude.{
  ℕ, ◌+◌, ◌<◌, ◌≡◌, sym, ap, ◌∙◌, inl, true, Bool, some, List, [], ◌∷◌, ◌++◌, arith, ℤ, pos, Bytes,
  i32_bound, i64_bound, fits, All, AtMost, Permᴰ,
}
use distributed_matrix_multi.Rpc.Task.{RpcMatrixTask}
use distributed_matrix_multi.Decimal.Print.{number_to_string}
use distributed_matrix_multi.Decimal.Printed.{
  Printed-length, number_to_string-Printed, number_to_string_below,
}
use distributed_matrix_multi.Decimal.ReadBack.{IsReadable}
use distributed_matrix_multi.Decimal.RoundTrip.{NoDigit}
use distributed_matrix_multi.Worker.Handler.Defs.{Handler}
use distributed_matrix_multi.Controller.MatrixData.Plan.Defs.{Chunking}
use distributed_matrix_multi.Controller.MatrixData.Plan.Covers.{Covers}
use distributed_matrix_multi.Controller.MatrixData.Tasks.Defs.{FieldOf, field_tasks}
use distributed_matrix_multi.Controller.MatrixData.Tasks.Dots.{product_entry, calc_all}
use distributed_matrix_multi.Controller.MatrixData.Tasks.Product.{IsProduct}
use distributed_matrix_multi.Database.Http.Gets.{get_message}
use distributed_matrix_multi.Database.ResultMatrix.Defs.{get_result}
use distributed_matrix_multi.Database.ResultMatrix.Cells.{value_at}
use distributed_matrix_multi.Database.ResultMatrix.Stores.{IsShaped}
use distributed_matrix_multi.Database.Server.Defs.{Matrices, handle_message}
use distributed_matrix_multi.Database.Server.Gets.{value_response}
use distributed_matrix_multi.Database.Server.Served.{
  values, post_each, matrix_in, post_each-PostsEach, handle_message-value,
}
use distributed_matrix_multi.Answer.{get_result-product, length-arrived}

readable_small : (x : ℤ) → IsReadable x → AtMost i32_bound x
readable_small x h = record { above = omega (arith, h.0); below = omega (arith, h.1) }

All-small : (xs : List ℤ) → All IsReadable xs → All (AtMost i32_bound) xs
All-small [] h = tt
All-small (x ∷ xs) h = (readable_small x h.0, All-small xs h.1)

-- The database answers a reader of a cell with a number.
pub record Serves (key row col : ℕ) (number : ℤ) (ms : Matrices) (rest : Bytes) : Type 0 where
  pub message : Bytes
  pub asked : get_message key (some row) (some col) ≡ some message
  pub value : Bytes
  pub decimal : number_to_string i64_bound number ≡ some value
  pub response : Bytes
  pub answer : value_response key row col value ≡ some response
  pub served : handle_message (message ++ rest) ms ≡ some (some response, ms)

-- Let the chunks cover the row of a field, let the entries be small enough for their products to be
-- `int`s, and let a worker compute the tasks of the field. When its results, each of which the database
-- can read, have been sent to a database with an empty cell for the field, in whatever order and with
-- whatever flags for the last chunk, then the database has handled every request, and answers a reader
-- who asks for the cell with the entry of the matrix product in decimal, if that entry is an `int`.
pub handle_message-product :
    (c : Chunking) (f : FieldOf) (n : ℕ) (h : Handler) (tasks : List RpcMatrixTask)
    (results : List ℤ) (arrived : List (ℤ × Bool)) (entry : ℤ) (key : ℕ) (ms : Matrices)
    (padding rest : Bytes)
    → Covers c n
    → 0 < c.chunks_per_row
    → IsProduct f n
    → field_tasks c f ≡ some tasks
    → calc_all tasks h ≡ some results
    → Permᴰ results (values arrived)
    → All IsReadable (values arrived)
    → product_entry f.matrix_a f.matrix_b f.row f.col 0 n ≡ some entry
    → fits i32_bound entry ≡ true
    → NoDigit padding
    → IsShaped (matrix_in key ms)
    → value_at (matrix_in key ms) f.row f.col ≡ pos 0
    → key < i32_bound
    → f.row + 1 < i32_bound
    → f.col + 1 < i32_bound
    → (after : Matrices) × (post_each key f.row f.col padding arrived ms ≡ some after)
      × (Serves key f.row f.col entry after rest)
handle_message-product c f n h tasks results arrived entry key ms padding rest covers chunk p et er
      perm readable ee fit d w empty key_small row_small col_small =
    let posts =
      post_each-PostsEach key f.row f.col padding arrived ms d key_small row_small col_small
        readable w in
    let (m, stored, shown) =
      get_result-product c f n h tasks results (values arrived) entry (matrix_in key ms) covers
        chunk p et er perm (All-small (values arrived) readable) ee fit w empty row_small
        col_small in
    let same : m ≡ matrix_in key posts.after = some_inj.0 (sym stored ∙ posts.stored) in
    let count = length-arrived c f n h tasks results (values arrived) covers chunk p et er perm in
    let (value, decimal) = number_to_string_below i64_bound entry (ground arith) in
    let short = Printed-length value (number_to_string-Printed i64_bound entry value decimal) in
    let (message, asked, response, answer, served) =
      handle_message-value key f.row f.col rest posts.after (matrix_in key posts.after) value
        key_small (omega (arith, row_small)) (omega (arith, col_small)) (posts.found (inl count))
        (ap (λ x. get_result x (pos f.row) (pos f.col)) (sym same) ∙ shown ∙ decimal) short in
    (
      posts.after,
      posts.handled,
      record {
        message = message;
        asked = asked;
        value = value;
        decimal = decimal;
        response = response;
        answer = answer;
        served = served;
      },
    )
