-- ===== src/Controller/MatrixData/Progress/Finished.antt =====
-- `finished_fields` of Controller/MatrixData.h counts the fields whose chunks are all stored, and
-- `allTasksFinished` says exactly when these are all the fields.
use distributed_matrix_multi.Prelude.{
  ℕ, ◌+◌, ◌*◌, ◌≤◌, ◌<◌, ◌≡◌, refl, ◌↔◌, true, some, ◌>>=◌, arith, ◌==◌, ==_iff, leb, if◌then◌else◌,
}
use distributed_matrix_multi.Rpc.Task.{RpcMatrixTask}
use distributed_matrix_multi.Controller.MatrixData.State.{ResultField, MatrixData, field_at}
use distributed_matrix_multi.Controller.MatrixData.Fields.{
  FieldWritten, field_set_total, field_set-FieldWritten,
}
use distributed_matrix_multi.Controller.MatrixData.Queue.Defs.{field_of}
use distributed_matrix_multi.Controller.MatrixData.Progress.Defs.{
  last_chunk, inform_about_stored_result, all_tasks_finished,
}
use distributed_matrix_multi.Controller.MatrixData.Progress.Count.{
  fields_total, fields_total-set, fields_total_tight, fields_total_congr,
}

-- 1 for a field that has all its chunks stored
abbrev pub finished_weight : ℕ → ℕ → ℕ
finished_weight chunks_per_row stored = if leb chunks_per_row stored then 1 else 0

abbrev pub chunks : MatrixData → ℕ
chunks d = d.plan.chunks_per_row

-- The counter is the number of finished fields, and there are as many fields as the settings say.
pub record Counted (d : MatrixData) : Type 0 where
  pub some_chunks : 0 < chunks d
  pub counts : d.finished_fields ≡ fields_total (finished_weight (chunks d)) d.matrix_stored_chunks
  pub all_fields :
      fields_total (λ (n : ℕ). 1) d.matrix_stored_chunks
      ≡ d.settings.a_rows * d.settings.b_cols * d.settings.number_matrices

-- What `informAboutStoredResult` did for a field with `stored` chunks behind it.
pub record Informs (t : RpcMatrixTask) (d : MatrixData) (stored : ℕ) : Type 0 where
  pub after : MatrixData
  pub returns : inform_about_stored_result t d ≡ some after
  pub effect :
      FieldWritten d.matrix_stored_chunks after.matrix_stored_chunks (field_of t) (stored + 1)
  pub same_queue :
      (after.matrix_tasks ≡ d.matrix_tasks) × (after.next_task_field ≡ d.next_task_field)
  pub same_setup : (after.settings ≡ d.settings) × (after.plan ≡ d.plan)
  pub announced : last_chunk t d ≡ some (stored + 1 == chunks d)
  pub finishes :
      after.finished_fields ≡ d.finished_fields + (if stored + 1 == chunks d then 1 else 0)
  pub counted : Counted after

-- With the count right, a stored chunk of a field that exists is counted without a fault: its field
-- alone gets one more, it is counted as finished just when `lastChunk` announces its last chunk, the
-- queue of tasks is not changed, and the count stays right.
pub inform_about_stored_result-Informs :
    (t : RpcMatrixTask) (d : MatrixData) (stored : ℕ)
    → Counted d
    → field_at d.matrix_stored_chunks (field_of t) ≡ some stored
    → Informs t d stored
unfolding inform_about_stored_result last_chunk
inform_about_stored_result-Informs t d stored c was =
    let (ms, written) = field_set_total d.matrix_stored_chunks (field_of t) (stored + 1) was in
    let finished = if stored + 1 == chunks d then d.finished_fields + 1 else d.finished_fields in
    let w = finished_weight (chunks d) in
    let trade =
      fields_total-set w d.matrix_stored_chunks ms (field_of t) (stored + 1) was written in
    let same_size =
      fields_total-set (λ n. 1) d.matrix_stored_chunks ms (field_of t) (stored + 1) was written in
    record {
      after = record d { matrix_stored_chunks = ms; finished_fields = finished };
      returns = rw (was, ◌>>=◌, written, ◌>>=◌) refl;
      effect = field_set-FieldWritten d.matrix_stored_chunks ms (field_of t) (stored + 1) written;
      same_queue = (refl, refl);
      same_setup = (refl, refl);
      announced = rw (was, ◌>>=◌) refl;
      finishes = ground arith;
      counted = record {
        some_chunks = c.some_chunks;
        counts = ground (arith, c.counts, trade);
        all_fields = omega (arith, c.all_fields, same_size);
      };
    }

weight_le : (k n : ℕ) → finished_weight k n ≤ 1
weight_le k n = ground arith

weight_one : (k n : ℕ) → (finished_weight k n ≡ 1) ↔ (k ≤ n)
weight_one k n = ground arith

-- With the count right, `allTasksFinished` is true exactly when every field of every result matrix
-- has all its chunks stored.
pub all_tasks_finished_iff :
    (d : MatrixData)
    → Counted d
    → (all_tasks_finished d ≡ true) ↔ (
        (f : ResultField) (stored : ℕ)
        → field_at d.matrix_stored_chunks f ≡ some stored
        → chunks d ≤ stored)
unfolding all_tasks_finished
all_tasks_finished_iff d c = (
  λ finished f stored found.
      let full = (==_iff _ _).0 finished in
      (weight_one (chunks d) stored).0 (
        fields_total_tight (finished_weight (chunks d)) (λ n. 1) d.matrix_stored_chunks f
          (weight_le (chunks d)) (omega (arith, c.counts, c.all_fields)) found),
  λ stored.
      let same =
        fields_total_congr (finished_weight (chunks d)) (λ n. 1) d.matrix_stored_chunks
          (λ f n found. (weight_one (chunks d) n).1 (stored f n found)) in
      (==_iff _ _).1 (omega (arith, c.counts, c.all_fields)),
)
