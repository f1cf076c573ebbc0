-- ===== src/Controller/Threads/Tests.antt =====
-- Two threads of Controller/controller.cpp on the product of a row and a column; the first is past the
-- loop that waits for tasks.
use distributed_matrix_multi.Prelude.{
  ◌≡◌, ◌↔◌, refl, ap, true, false, List, [], ◌∷◌, pos, ltb, length,
}
use distributed_matrix_multi.Controller.MatrixData.State.{ResultField}
use distributed_matrix_multi.Controller.MatrixData.Initialize.Defs.{all_fields}
use distributed_matrix_multi.Controller.MatrixData.Initialize.Fields.{IsInside}
use distributed_matrix_multi.Controller.MatrixData.Queue.Defs.{get_number_task_fields}
use distributed_matrix_multi.Controller.MatrixData.Progress.Defs.{all_tasks_finished}
use distributed_matrix_multi.Controller.MatrixData.Tests.{
  small_settings, row_a, col_b, chunk_task, inside,
}
use distributed_matrix_multi.Controller.MatrixData.Tests.{started as initialized}
use distributed_matrix_multi.Controller.Threads.Defs.{
  waiting, fetching, Thread, Controller, go_on, Reachable, here, step,
}
use distributed_matrix_multi.Controller.Threads.Start.{started}
use distributed_matrix_multi.Controller.Threads.Outcome.{
  Announces, last_chunk-Announces, NothingLeft, all_tasks_finished-NothingLeft,
}

abbrev idle : Thread
idle = record { phase = waiting; blocked = false }

abbrev two_idle : List Thread
two_idle = idle ∷ idle ∷ []

abbrev one_fetching : Controller
one_fetching = record {
  m_data = initialized.state;
  threads = record { phase = fetching; blocked = false } ∷ idle ∷ [];
  store_locked = false;
}

one_field : ltb (get_number_task_fields initialized.state) 1 ≡ false
unfolding get_number_task_fields all_fields
one_field = ap (λ fs. ltb (length fs) 1) initialized.fields_queued

one_fetching-Reachable : Reachable (started initialized.state two_idle) one_fetching
one_fetching-Reachable =
    step (started initialized.state two_idle) one_fetching 0 idle here refl
      (go_on refl one_field refl)

last_chunk-Announces_example :
    Announces (chunk_task (pos 3 ∷ []) (pos 6 ∷ [])) initialized.state one_fetching.threads
last_chunk-Announces_example =
    last_chunk-Announces small_settings (row_a ∷ []) (col_b ∷ []) initialized two_idle one_fetching
      (chunk_task (pos 3 ∷ []) (pos 6 ∷ [])) (refl, (refl, tt)) one_fetching-Reachable inside

all_tasks_finished-NothingLeft_example : (all_tasks_finished initialized.state ≡ true) ↔ (
    (f : ResultField)
    → IsInside small_settings f
    → NothingLeft initialized.state one_fetching.threads f)
all_tasks_finished-NothingLeft_example =
    all_tasks_finished-NothingLeft small_settings (row_a ∷ []) (col_b ∷ []) initialized two_idle
      one_fetching (refl, (refl, tt)) one_fetching-Reachable
