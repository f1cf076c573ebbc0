-- ===== src/Controller/MatrixData/Tasks/Defs.antt =====
-- `MatrixData::createTasks` of Controller/MatrixData.h: the three loops over matrices, rows and
-- columns, and the loop that cuts a row of A and a column of B into the chunks of a field. `none` is
-- the null pointer that the source reports and then reads through, or an access out of bounds.
use distributed_matrix_multi.Prelude.{
  ℕ, zero, suc, ◌+◌, ◌-◌, Option, some, List, [], ◌∷◌, ◌>>=◌, ltb, ◌==◌, if◌then◌else◌, ℤ,
}
use distributed_matrix_multi.Rpc.Task.{RpcMatrixTask}
use distributed_matrix_multi.Controller.Matrix.{Matrix, get_row_array, get_col_array}
use distributed_matrix_multi.Controller.MatrixData.Plan.Defs.{Chunking}

-- `current_chunk_size`, and `remaining_values` behind it, in round `chunk` of the loop.
unfoldable pub next_chunk : Chunking → ℕ → ℕ → ℕ × ℕ
next_chunk c chunk remaining_values =
    if ltb 0 remaining_values
    then (if c.remainder_chunk
        then (
          if chunk == c.chunks_per_row - 1 then remaining_values else c.chunk_size,
          remaining_values,
        )
        else (c.chunk_size + 1, remaining_values - 1))
    else (c.chunk_size, remaining_values)

-- The field of a result matrix whose tasks are made, with its two factors.
pub record FieldOf : Type 0 where
  pub result_matrix : ℕ
  pub matrix_a : Matrix ℤ
  pub matrix_b : Matrix ℤ
  pub row : ℕ
  pub col : ℕ

-- The task of one chunk: both arrays are read, also through a null pointer.
unfoldable pub make_task : FieldOf → ℕ → ℕ → Option RpcMatrixTask
unfolding get_row_array get_col_array
make_task f current_value_index current_chunk_size = do
  chunk_a ← get_row_array f.matrix_a f.row current_value_index current_chunk_size
  chunk_b ← get_col_array f.matrix_b f.col current_value_index current_chunk_size
  values_a ← chunk_a
  values_b ← chunk_b
  some (record {
    result_matrix = f.result_matrix;
    row = f.row;
    col = f.col;
    matrix_chunk_a = values_a;
    matrix_chunk_b = values_b;
  })

-- The loop over the chunks of a field, with the rounds that are left as its first argument.
unfoldable pub make_chunks : ℕ → Chunking → FieldOf → ℕ → ℕ → ℕ → Option (List RpcMatrixTask)
unfolding next_chunk make_task
make_chunks zero c f chunk remaining_values current_value_index = some []
make_chunks (suc rounds) c f chunk remaining_values current_value_index = do
  let (current_chunk_size, remaining) = next_chunk c chunk remaining_values
  current_task ← make_task f current_value_index current_chunk_size
  rest ← make_chunks rounds c f (chunk + 1) remaining (current_value_index + current_chunk_size)
  some (current_task ∷ rest)

-- The task queue of one field.
unfoldable pub field_tasks : Chunking → FieldOf → Option (List RpcMatrixTask)
unfolding make_chunks
field_tasks c f = make_chunks c.chunks_per_row c f 0 c.remaining_chunk_size 0
