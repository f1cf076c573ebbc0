-- ===== src/Controller/MatrixData/Progress/Defs.antt =====
-- `lastChunk`, `informAboutStoredResult` and `allTasksFinished` of Controller/MatrixData.h; the
-- second runs under `mutex_stored_result`, and is one step here.
use distributed_matrix_multi.Prelude.{◌+◌, ◌*◌, Bool, Option, some, ◌>>=◌, ◌==◌, if◌then◌else◌}
use distributed_matrix_multi.Rpc.Task.{RpcMatrixTask}
use distributed_matrix_multi.Controller.MatrixData.State.{MatrixData, field_at, field_set}
use distributed_matrix_multi.Controller.MatrixData.Queue.Defs.{field_of}

-- `stored_chunks == chunks_per_row - 1`; `chunks_per_row` is signed, and -1 is no count.
unfoldable pub last_chunk : RpcMatrixTask → MatrixData → Option Bool
last_chunk t d = do
  stored_chunks ← field_at d.matrix_stored_chunks (field_of t)
  some (stored_chunks + 1 == d.plan.chunks_per_row)

unfoldable pub inform_about_stored_result : RpcMatrixTask → MatrixData → Option MatrixData
inform_about_stored_result t d = do
  stored_chunks ← field_at d.matrix_stored_chunks (field_of t)
  stored ← field_set d.matrix_stored_chunks (field_of t) (stored_chunks + 1)
  let finished =
      if stored_chunks + 1 == d.plan.chunks_per_row
      then d.finished_fields + 1
      else d.finished_fields
  some (record d { matrix_stored_chunks = stored; finished_fields = finished })

unfoldable pub all_tasks_finished : MatrixData → Bool
all_tasks_finished d =
    d.finished_fields == d.settings.a_rows * d.settings.b_cols * d.settings.number_matrices
