-- ===== src/Controller/MatrixData/Tests.antt =====
-- Runs of Controller/MatrixData.h on a product of a row of three values and a column of three.
use distributed_matrix_multi.Prelude.{
  ℕ, ◌*◌, ◌<◌, ◌≡◌, refl, ◌↔◌, true, false, some, List, [], ◌∷◌, arith, ℤ, pos, negsuc, ◌+ℤ◌, ◌*ℤ◌,
  All, length,
}
use distributed_matrix_multi.Rpc.Task.{RpcMatrixTask}
use distributed_matrix_multi.Controller.Matrix.{Matrix, at}
use distributed_matrix_multi.Controller.MatrixData.Plan.Float.{below_fraction, below_fraction_iff}
use distributed_matrix_multi.Controller.MatrixData.Plan.Defs.{
  Settings, Chunking, Plan, prepare_tasks,
}
use distributed_matrix_multi.Controller.MatrixData.Plan.Covers.{Covers}
use distributed_matrix_multi.Controller.MatrixData.Plan.Prepare.{
  InRange, IsDivisible, prepare_tasks_iff, prepare_tasks-Covers,
}
use distributed_matrix_multi.Controller.MatrixData.Tasks.Defs.{FieldOf, field_tasks}
use distributed_matrix_multi.Controller.MatrixData.Tasks.Dots.{product_entry}
use distributed_matrix_multi.Controller.MatrixData.Tasks.Product.{IsProduct}
use distributed_matrix_multi.Controller.MatrixData.Tasks.Sizes.{
  SlightlyOver, field_tasks-SlightlyOver,
}
use distributed_matrix_multi.Controller.MatrixData.State.{ResultField}
use distributed_matrix_multi.Controller.MatrixData.Initialize.Established.{
  AreInputs, Established, initialize-Established,
}
use distributed_matrix_multi.Controller.MatrixData.Initialize.Fields.{IsInside}
use distributed_matrix_multi.Controller.MatrixData.Queue.Steps.{
  GetsTask, get_next_task-GetsTask, Reassigns, reassign_task-Reassigns,
}
use distributed_matrix_multi.Controller.MatrixData.Progress.Finished.{
  Informs, inform_about_stored_result-Informs,
}
use distributed_matrix_multi.Worker.Handler.Defs.{Handler}

abbrev pub small_settings : Settings
small_settings = record {
  number_workers = 1;
  a_rows = 1;
  a_cols = 3;
  b_cols = 1;
  number_matrices = 1;
  max_chunk_size = 2;
}

abbrev pub row_a : Matrix ℤ
row_a = record { rows = 1; columns = 3; cells = (pos 1 ∷ negsuc 1 ∷ pos 3 ∷ []) ∷ [] }

abbrev pub col_b : Matrix ℤ
col_b = record { rows = 3; columns = 1; cells = (pos 4 ∷ []) ∷ (pos 5 ∷ []) ∷ (pos 6 ∷ []) ∷ [] }

abbrev pub two_chunks : Chunking
two_chunks = record {
  chunks_per_row = 2;
  chunk_size = 2;
  remainder_chunk = true;
  remaining_chunk_size = 1;
}

abbrev pub small_plan : Plan
small_plan = record {
  total_multiplications = 3;
  number_workers = 1;
  calculations_per_worker = 3;
  chunking = two_chunks;
}

pub prepare_tasks_small : prepare_tasks small_settings ≡ some small_plan
unfolding prepare_tasks below_fraction
prepare_tasks_small = refl

abbrev pub only_field : ResultField
only_field = record { result_matrix = 0; row = 0; col = 0 }

abbrev pub factors : FieldOf
factors = record { result_matrix = 0; matrix_a = row_a; matrix_b = col_b; row = 0; col = 0 }

abbrev pub chunk_task : List ℤ → List ℤ → RpcMatrixTask
chunk_task a b = record {
  result_matrix = 0;
  row = 0;
  col = 0;
  matrix_chunk_a = a;
  matrix_chunk_b = b;
}

abbrev pub small_tasks : List RpcMatrixTask
small_tasks =
    chunk_task (pos 1 ∷ negsuc 1 ∷ []) (pos 4 ∷ pos 5 ∷ [])
    ∷ chunk_task (pos 3 ∷ []) (pos 6 ∷ [])
    ∷ []

pub field_tasks_small : field_tasks two_chunks factors ≡ some small_tasks
unfolding field_tasks
field_tasks_small = refl

pub product_entry_small : product_entry row_a col_b 0 0 0 3 ≡ some (pos 12)
unfolding product_entry at ◌+ℤ◌ ◌*ℤ◌
product_entry_small = refl

abbrev pub idle_handler : Handler
idle_handler = record {
  current_task = chunk_task [] [];
  current_result = pos 0;
  sem_mqtt = 0;
  sem_mqtt_ready = 0;
  calculation_finished = false;
}

pub factors-IsProduct : IsProduct factors 3
factors-IsProduct = record {
  sized_a = record { row_count = refl; row_sizes = omega arith };
  sized_b = record { row_count = refl; row_sizes = omega arith };
  inner_a = refl;
  inner_b = refl;
  row_inside = omega arith;
  col_inside = omega arith;
  small_a = omega arith;
  small_b = omega arith;
  short = omega arith;
}

prepare_tasks_iff_example :
    ((p : Plan) × (prepare_tasks small_settings ≡ some p))
    ↔ (InRange small_settings × IsDivisible small_settings)
prepare_tasks_iff_example = prepare_tasks_iff small_settings

prepare_tasks-Covers_example :
    Covers two_chunks 3 × (0 < small_plan.number_workers) × (0 < 3) × ◌≡◌ {A = ℕ} 3 (1 * 1 * 3 * 1)
prepare_tasks-Covers_example = prepare_tasks-Covers small_settings prepare_tasks_small

field_tasks-SlightlyOver_example : All (λ t. SlightlyOver 2 (length t.matrix_chunk_a)) small_tasks
field_tasks-SlightlyOver_example =
    field_tasks-SlightlyOver small_settings small_plan factors (omega arith) prepare_tasks_small
      field_tasks_small

below_fraction_iff_example : (below_fraction 1 8 ≡ true) ↔ (7 * 1 < 8)
below_fraction_iff_example = below_fraction_iff 1 8 (omega arith) (omega arith)

pub small_inputs : AreInputs small_settings (row_a ∷ []) (col_b ∷ [])
small_inputs = record {
  count_a = refl;
  count_b = refl;
  inputs_a = (
    record {
      sized = factors-IsProduct.sized_a;
      row_count = refl;
      column_count = refl;
      small = omega arith;
    },
    tt,
  );
  inputs_b = (
    record {
      sized = factors-IsProduct.sized_b;
      row_count = refl;
      column_count = refl;
      small = omega arith;
    },
    tt,
  );
  short = omega arith;
}

-- The state that `initialize` leaves on these inputs.
abbrev pub started : Established small_settings (row_a ∷ []) (col_b ∷ [])
started =
    initialize-Established small_settings (row_a ∷ []) (col_b ∷ []) small_plan prepare_tasks_small
      small_inputs

pub inside : IsInside small_settings only_field
inside = record { matrix_inside = omega arith; row_inside = omega arith; col_inside = omega arith }

get_next_task-GetsTask_example : GetsTask started.state
get_next_task-GetsTask_example = get_next_task-GetsTask started.state started.ready

reassign_task-Reassigns_example : Reassigns (chunk_task (pos 3 ∷ []) (pos 6 ∷ [])) started.state
reassign_task-Reassigns_example =
    reassign_task-Reassigns (chunk_task (pos 3 ∷ []) (pos 6 ∷ [])) started.state
      (started.queues only_field inside).0.tasks started.ready (started.queues only_field inside).1

inform_about_stored_result-Informs_example :
    Informs (chunk_task (pos 3 ∷ []) (pos 6 ∷ [])) started.state 0
inform_about_stored_result-Informs_example =
    inform_about_stored_result-Informs (chunk_task (pos 3 ∷ []) (pos 6 ∷ [])) started.state 0
      started.counted (started.nothing_stored only_field inside)
