-- ===== src/Answer/Tests.antt =====
-- A product of a row and a column of three values in two chunks, whose results arrive in the other
-- order: Controller/MatrixData.h, Worker/RPCImplementation.h, Database/ResultMatrix.h and
-- Database/database.cpp together.
use distributed_matrix_multi.Prelude.{
  ℕ, zero, suc, ◌<◌, length, get_or, fits, i32_bound, ◌≡◌, refl, true, false, some, [], ◌∷◌, arith,
  ℤ, pos, negsuc, ◌+ℤ◌, ◌*ℤ◌, mul_i32, add_i64, AtMost, All, Permᴰ,
}
use distributed_matrix_multi.Worker.Handler.Defs.{calc_task}
use distributed_matrix_multi.Controller.MatrixData.Tasks.Dots.{calc_all}
use distributed_matrix_multi.Controller.MatrixData.Tests.{
  two_chunks, factors, small_tasks, idle_handler, field_tasks_small, product_entry_small,
  factors-IsProduct,
}
use distributed_matrix_multi.Database.ResultMatrix.Defs.{ResultMatrix}
use distributed_matrix_multi.Database.ResultMatrix.Cells.{value_at}
use distributed_matrix_multi.Database.ResultMatrix.Stores.{IsShaped, Stores}
use distributed_matrix_multi.Database.ResultMatrix.Sums.{Sums, store_results-Sums}
use distributed_matrix_multi.Decimal.ReadBack.{IsReadable}
use distributed_matrix_multi.Database.Server.Defs.{Matrices, find}
use distributed_matrix_multi.Database.Server.Served.{values, post_each, matrix_in}
use distributed_matrix_multi.Answer.Served.{Serves, handle_message-product}

abbrev empty_matrix : ResultMatrix
empty_matrix = record { matrix_index = pos 0; result_matrix = []; final_value = [] }

empty_matrix-IsShaped : IsShaped empty_matrix
unfolding value_at
empty_matrix-IsShaped = record {
  row_counts = refl;
  column_counts = λ r. refl;
  values_fit = λ r c. refl;
}

small_results : calc_all small_tasks idle_handler ≡ some (negsuc 5 ∷ pos 18 ∷ [])
unfolding calc_all calc_task ◌+ℤ◌ ◌*ℤ◌ mul_i32 add_i64
small_results = refl

small_AtMost : (x : ℤ) → AtMost 18 x → AtMost 2147483648 x
small_AtMost x h = record { above = omega (arith, h.above); below = omega (arith, h.below) }

arrived_small : All (AtMost 2147483648) (pos 18 ∷ negsuc 5 ∷ [])
arrived_small = (
  small_AtMost (pos 18) (record { above = omega arith; below = omega arith }),
  (small_AtMost (negsuc 5) (record { above = omega arith; below = omega arith }), tt),
)

small-IsReadable : All IsReadable (values ((pos 18, false) ∷ (negsuc 5, true) ∷ []))
small-IsReadable = ((omega arith, omega arith), ((omega arith, omega arith), tt))

new_matrix-IsShaped : IsShaped (matrix_in 5 [])
unfolding find value_at
new_matrix-IsShaped = record {
  row_counts = refl;
  column_counts = λ r. refl;
  values_fit = λ r c. refl;
}

handle_message-product_example :
    (after : Matrices) × (post_each 5 0 0 (0 ∷ []) ((pos 18, false) ∷ (negsuc 5, true) ∷ []) []
      ≡ some after)
    × (Serves 5 0 0 (pos 12) after (0 ∷ []))
unfolding find value_at
handle_message-product_example =
    handle_message-product two_chunks factors 3 idle_handler small_tasks (negsuc 5 ∷ pos 18 ∷ [])
      ((pos 18, false) ∷ (negsuc 5, true) ∷ []) (pos 12) 5 [] (0 ∷ []) (0 ∷ []) (omega arith)
      (omega arith) factors-IsProduct field_tasks_small small_results (Permᴰ.swap refl refl)
      small-IsReadable product_entry_small refl refl new_matrix-IsShaped refl (omega arith)
      (omega arith) (omega arith)

store_results-Sums_example : Sums empty_matrix (pos 18 ∷ negsuc 5 ∷ []) 2 1
store_results-Sums_example =
    store_results-Sums empty_matrix (pos 18 ∷ negsuc 5 ∷ []) 2 1 empty_matrix-IsShaped (omega arith)
      (omega arith) arrived_small

abbrev one_cell : ResultMatrix
one_cell = record {
  matrix_index = pos 0;
  result_matrix = (negsuc 6 ∷ []) ∷ [];
  final_value = (true ∷ []) ∷ [];
}

one_cell_columns :
    (r : ℕ)
    → length (get_or one_cell.result_matrix r []) ≡ length (get_or one_cell.final_value r [])
one_cell_columns zero = refl
one_cell_columns (suc r) = refl

one_cell-fits : (r c : ℕ) → fits i32_bound (value_at one_cell r c) ≡ true
unfolding value_at
one_cell-fits zero zero = refl
one_cell-fits zero (suc c) = refl
one_cell-fits (suc r) c = refl

one_cell_short : (r : ℕ) → length (get_or one_cell.result_matrix r []) < i32_bound
one_cell_short zero = omega arith
one_cell_short (suc r) = omega arith
