-- ===== src/Controller/MatrixData/Queue/Defs.antt =====
-- `getNextTask`, `reassignTask` and `getNumberTaskFields` of Controller/MatrixData.h. Each runs under
-- `mutex_tasks`, and is one step here.
use distributed_matrix_multi.Prelude.{
  ℕ, Option, some, List, [], ◌∷◌, ◌++◌, ◌>>=◌, ◌==◌, if◌then◌else◌, length,
}
use distributed_matrix_multi.Rpc.Task.{RpcMatrixTask}
use distributed_matrix_multi.Controller.MatrixData.State.{
  ResultField, MatrixData, field_at, field_set,
}

-- What `getNextTask` returns: `empty` and `stuck` are its two returns of false, the second of them
-- after the message "There were no tasks left at the specified field", with the mutex still locked.
pub data NextTask : Type 0 where
  task : RpcMatrixTask → NextTask
  empty : NextTask
  stuck : NextTask

-- The rest of the field's queue is written back; an empty one takes the field out of the queue.
unfoldable pub take_task :
    MatrixData
    → ResultField
    → List ResultField
    → List RpcMatrixTask
    → Option (NextTask × MatrixData)
take_task d field fields [] = some (stuck, d)
take_task d field fields (t ∷ []) = do
  tasks ← field_set d.matrix_tasks field []
  some (task t, record d { matrix_tasks = tasks; next_task_field = fields })
take_task d field fields (t ∷ rest) = do
  tasks ← field_set d.matrix_tasks field rest
  some (task t, record d { matrix_tasks = tasks })

-- On `next_task_field`, whose head is `front`.
unfoldable pub next_task_of : List ResultField → MatrixData → Option (NextTask × MatrixData)
unfolding take_task
next_task_of [] d = some (empty, d)
next_task_of (field ∷ fields) d = do
  queue ← field_at d.matrix_tasks field
  take_task d field fields queue

unfoldable pub get_next_task : MatrixData → Option (NextTask × MatrixData)
unfolding next_task_of
get_next_task d = next_task_of d.next_task_field d

abbrev pub field_of : RpcMatrixTask → ResultField
field_of t = record { result_matrix = t.result_matrix; row = t.row; col = t.col }

unfoldable pub reassign_task : RpcMatrixTask → MatrixData → Option MatrixData
reassign_task t d = do
  queue ← field_at d.matrix_tasks (field_of t)
  let pushed = queue ++ t ∷ []
  tasks ← field_set d.matrix_tasks (field_of t) pushed
  let fields =
      if length pushed == 1 then d.next_task_field ++ field_of t ∷ [] else d.next_task_field
  some (record d { matrix_tasks = tasks; next_task_field = fields })

unfoldable pub get_number_task_fields : MatrixData → ℕ
get_number_task_fields d = length d.next_task_field
