-- ===== src/Controller/MatrixData/Initialize/Defs.antt =====
-- `initialize` and the outer loops of `createTasks` of Controller/MatrixData.h. The random values of
-- the input matrices are arguments. The loops over matrices, rows and columns are the recursions that
-- list their index triples, in the order of the loops; `createTasks` goes through that list.
use distributed_matrix_multi.Prelude.{
  ℕ, zero, suc, ◌+◌, Option, some, List, [], ◌∷◌, ◌++◌, ◌>>=◌, ℤ, get_elem?, length, replicate,
}
use distributed_matrix_multi.Rpc.Task.{RpcMatrixTask}
use distributed_matrix_multi.Controller.Matrix.{Matrix, new_matrix}
use distributed_matrix_multi.Controller.MatrixData.Plan.Defs.{Settings, Chunking, prepare_tasks}
use distributed_matrix_multi.Controller.MatrixData.Tasks.Defs.{FieldOf, field_tasks}
use distributed_matrix_multi.Controller.MatrixData.State.{ResultField, MatrixData, field_set}

-- The inner loop, from column `col` on.
unfoldable pub fields_of_row : ℕ → ℕ → ℕ → ℕ → List ResultField
fields_of_row result_matrix row col zero = []
fields_of_row result_matrix row col (suc n) =
    record { result_matrix = result_matrix; row = row; col = col }
    ∷ fields_of_row result_matrix row (col + 1) n

unfoldable pub fields_of_matrix : ℕ → ℕ → ℕ → ℕ → List ResultField
unfolding fields_of_row
fields_of_matrix b_cols result_matrix row zero = []
fields_of_matrix b_cols result_matrix row (suc n) =
    fields_of_row result_matrix row 0 b_cols ++ fields_of_matrix b_cols result_matrix (row + 1) n

unfoldable pub fields_from : ℕ → ℕ → ℕ → ℕ → List ResultField
unfolding fields_of_matrix
fields_from a_rows b_cols result_matrix zero = []
fields_from a_rows b_cols result_matrix (suc n) =
    fields_of_matrix b_cols result_matrix 0 a_rows
    ++ fields_from a_rows b_cols (result_matrix + 1) n

-- All fields, in the order in which they are pushed to `next_task_field`.
unfoldable pub all_fields : Settings → List ResultField
unfolding fields_from
all_fields s = fields_from s.a_rows s.b_cols 0 s.number_matrices

abbrev pub factors_of : Matrix ℤ → Matrix ℤ → ResultField → FieldOf
factors_of a b f = record {
  result_matrix = f.result_matrix;
  matrix_a = a;
  matrix_b = b;
  row = f.row;
  col = f.col;
}

-- The queues, and `total_number_tasks`.
pub record Created : Type 0 where
  pub queues : List (Matrix (List RpcMatrixTask))
  pub total_number_tasks : ℕ

unfoldable pub create_tasks :
    Chunking → List (Matrix ℤ) → List (Matrix ℤ) → List ResultField → Created → Option Created
create_tasks c matrices_a matrices_b [] created = some created
create_tasks c matrices_a matrices_b (f ∷ fields) created = do
  a ← get_elem? matrices_a f.result_matrix
  b ← get_elem? matrices_b f.result_matrix
  task_queue ← field_tasks c (factors_of a b f)
  queues ← field_set created.queues f task_queue
  create_tasks c matrices_a matrices_b fields (record {
    queues = queues;
    total_number_tasks = created.total_number_tasks + length task_queue;
  })

abbrev pub no_tasks : Settings → Created
no_tasks s = record {
  queues = replicate s.number_matrices (new_matrix s.a_rows s.b_cols []);
  total_number_tasks = 0;
}

unfoldable pub initialize : Settings → List (Matrix ℤ) → List (Matrix ℤ) → Option MatrixData
unfolding create_tasks all_fields
initialize s matrices_a matrices_b = do
  plan ← prepare_tasks s
  created ← create_tasks plan.chunking matrices_a matrices_b (all_fields s) (no_tasks s)
  some (record {
    settings = s;
    plan = plan;
    total_number_tasks = created.total_number_tasks;
    matrices_a = matrices_a;
    matrices_b = matrices_b;
    matrix_tasks = created.queues;
    next_task_field = all_fields s;
    matrix_stored_chunks = replicate s.number_matrices (new_matrix s.a_rows s.b_cols 0);
    finished_fields = 0;
  })
