-- ===== src/Controller/MatrixData/State.antt =====
-- The fields of `class MatrixData` in Controller/MatrixData.h, and access to the matrix of one result
-- in a vector of matrices. `none` is an exception of `vector::at` or an access out of bounds.
use distributed_matrix_multi.Prelude.{ℕ, Option, some, List, ◌>>=◌, ℤ, get_elem?}
use distributed_matrix_multi.Prelude.{set as set_elem}
use distributed_matrix_multi.Rpc.Task.{RpcMatrixTask}
use distributed_matrix_multi.Controller.Matrix.{Matrix, at}
use distributed_matrix_multi.Controller.Matrix.{set as set_cell}
use distributed_matrix_multi.Controller.MatrixData.Plan.Defs.{Settings, Plan}

pub record ResultField : Type 0 where
  pub result_matrix : ℕ
  pub row : ℕ
  pub col : ℕ

-- The mutexes are not fields: each operation below runs under the one that the source takes for it.
pub record MatrixData : Type 0 where
  pub settings : Settings
  pub plan : Plan
  pub total_number_tasks : ℕ
  pub matrices_a : List (Matrix ℤ)
  pub matrices_b : List (Matrix ℤ)
  pub matrix_tasks : List (Matrix (List RpcMatrixTask))
  pub next_task_field : List ResultField
  pub matrix_stored_chunks : List (Matrix ℕ)
  pub finished_fields : ℕ

-- `matrices.at(f.resultMatrix).at(f.row, f.col)`, read and written.
module _ {ℓ} {A : Type ℓ} where
  unfoldable pub field_at : List (Matrix A) → ResultField → Option A
  field_at ms f = do m ← get_elem? ms f.result_matrix; at m f.row f.col

  unfoldable pub field_set : List (Matrix A) → ResultField → A → Option (List (Matrix A))
  field_set ms f v = do
    m ← get_elem? ms f.result_matrix
    m' ← set_cell m f.row f.col v
    some (set_elem ms f.result_matrix m')
