-- ===== src/Controller/MatrixData/Queue/Steps.antt =====
-- What `getNextTask` and `reassignTask` of Controller/MatrixData.h do to a queue that is in order.
use distributed_matrix_multi.Prelude.{
  ◌≡◌, refl, ap, sym, ◌∙◌, subst, inl, false, some, List, [], ◌∷◌, ◌++◌, ◌>>=◌, arith, ◌==◌, length,
  length-append,
}
use distributed_matrix_multi.Rpc.Task.{RpcMatrixTask}
use distributed_matrix_multi.Controller.MatrixData.State.{ResultField, MatrixData, field_at}
use distributed_matrix_multi.Controller.MatrixData.Fields.{
  FieldWritten, field_set_total, field_set-FieldWritten,
}
use distributed_matrix_multi.Controller.MatrixData.Queue.Defs.{
  NextTask, take_task, next_task_of, get_next_task, field_of, reassign_task,
}
use distributed_matrix_multi.Controller.MatrixData.Queue.Ready.{
  HasTask, IsReady, Ready-pop, Ready-keep, Ready-push, Queues, Ready,
}

-- The result of `getNextTask`: the first task of a field, which alone loses it, or none, and then no
-- field has a task.
pub data Fetched (d : MatrixData) : NextTask → MatrixData → Type 0 where
  fetched :
      (f : ResultField) (t : RpcMatrixTask) (rest : List RpcMatrixTask) (qs : Queues)
      (fields : List ResultField)
      → field_at d.matrix_tasks f ≡ some (t ∷ rest)
      → FieldWritten d.matrix_tasks qs f rest
      → Fetched d (NextTask.task t) (record d { matrix_tasks = qs; next_task_field = fields })
  none_left : ((f : ResultField) → ¬ HasTask d.matrix_tasks f) → Fetched d NextTask.empty d

pub record GetsTask (d : MatrixData) : Type 0 where
  pub result : NextTask
  pub after : MatrixData
  pub returns : get_next_task d ≡ some (result, after)
  pub effect : Fetched d result after
  pub ready : IsReady after

take_task-GetsTask :
    (d : MatrixData) (f : ResultField) (fields : List ResultField) (t : RpcMatrixTask)
    (rest : List RpcMatrixTask)
    → Ready d.matrix_tasks (f ∷ fields)
    → d.next_task_field ≡ f ∷ fields
    → field_at d.matrix_tasks f ≡ some (t ∷ rest)
    → get_next_task d ≡ take_task d f fields (t ∷ rest)
    → GetsTask d
unfolding take_task
take_task-GetsTask d f fields t [] r e found run =
    let (qs, written) = field_set_total d.matrix_tasks f [] found in
    let w = field_set-FieldWritten d.matrix_tasks qs f [] written in
    record {
      result = NextTask.task t;
      after = record d { matrix_tasks = qs; next_task_field = fields };
      returns = run ∙ rw (written, ◌>>=◌) refl;
      effect = fetched f t [] qs fields found w;
      ready = Ready-pop d.matrix_tasks qs f fields r w;
    }
take_task-GetsTask d f fields t (u ∷ rest) r e found run =
    let (qs, written) = field_set_total d.matrix_tasks f (u ∷ rest) found in
    let w = field_set-FieldWritten d.matrix_tasks qs f (u ∷ rest) written in
    record {
      result = NextTask.task t;
      after = record d { matrix_tasks = qs };
      returns = run ∙ rw (written, ◌>>=◌) refl;
      effect = fetched f t (u ∷ rest) qs d.next_task_field found w;
      ready =
          subst (Ready qs) (sym e)
            (Ready-keep d.matrix_tasks qs f (f ∷ fields) u rest r (inl refl) w);
    }

next_task_of-GetsTask :
    (d : MatrixData) (fields : List ResultField)
    → d.next_task_field ≡ fields
    → Ready d.matrix_tasks fields
    → GetsTask d
unfolding get_next_task next_task_of
next_task_of-GetsTask d [] e r = record {
  result = NextTask.empty;
  after = d;
  returns = ap (λ fs. next_task_of fs d) e;
  effect = none_left (λ f h. elim (r.listed f h) [ ]);
  ready = subst (Ready d.matrix_tasks) (sym e) r;
}
next_task_of-GetsTask d (f ∷ fields) e r =
    let (t, rest, found) = r.queued f (inl refl) in
    let run : next_task_of (f ∷ fields) d ≡ take_task d f fields (t ∷ rest) =
      rw (found, ◌>>=◌) refl in
    take_task-GetsTask d f fields t rest r e found (ap (λ fs. next_task_of fs d) e ∙ run)

-- On a queue in order, `getNextTask` returns without a fault: a task of a field, which loses it, or
-- false when no field has one left. It never meets an empty field, and leaves the queue in order.
pub get_next_task-GetsTask : (d : MatrixData) → IsReady d → GetsTask d
get_next_task-GetsTask d r = next_task_of-GetsTask d d.next_task_field refl r

-- What `reassignTask` did: the task is the last of its field, and nothing else changed.
pub record Reassigns (t : RpcMatrixTask) (d : MatrixData) : Type 0 where
  pub after : MatrixData
  pub returns : reassign_task t d ≡ some after
  pub before_it : List RpcMatrixTask
  pub was : field_at d.matrix_tasks (field_of t) ≡ some before_it
  pub effect : FieldWritten d.matrix_tasks after.matrix_tasks (field_of t) (before_it ++ t ∷ [])
  pub same_progress :
      (after.matrix_stored_chunks ≡ d.matrix_stored_chunks)
      × (after.finished_fields ≡ d.finished_fields)
  pub same_setup : (after.settings ≡ d.settings) × (after.plan ≡ d.plan)
  pub ready : IsReady after

reassign_onto :
    (t : RpcMatrixTask) (d : MatrixData) (queue : List RpcMatrixTask)
    → IsReady d
    → field_at d.matrix_tasks (field_of t) ≡ some queue
    → Reassigns t d
unfolding reassign_task
reassign_onto t d [] r was =
    let (qs, written) = field_set_total d.matrix_tasks (field_of t) (t ∷ []) was in
    let w = field_set-FieldWritten d.matrix_tasks qs (field_of t) (t ∷ []) written in
    record {
      after = record d {
        matrix_tasks = qs;
        next_task_field = d.next_task_field ++ field_of t ∷ [];
      };
      returns = rw (was, ◌>>=◌, written, ◌>>=◌) refl;
      before_it = [];
      was = was;
      effect = w;
      same_progress = (refl, refl);
      same_setup = (refl, refl);
      ready = Ready-push d.matrix_tasks qs (field_of t) d.next_task_field t r was w;
    }
reassign_onto t d (u ∷ us) r was =
    let pushed = u ∷ (us ++ t ∷ []) in
    let (qs, written) = field_set_total d.matrix_tasks (field_of t) pushed was in
    let w = field_set-FieldWritten d.matrix_tasks qs (field_of t) pushed written in
    let many : (length pushed == 1) ≡ false = ground (arith, length-append us (t ∷ [])) in
    record {
      after = record d { matrix_tasks = qs };
      returns = rw (was, ◌>>=◌, written, ◌>>=◌, many) refl;
      before_it = u ∷ us;
      was = was;
      effect = w;
      same_progress = (refl, refl);
      same_setup = (refl, refl);
      ready =
          Ready-keep d.matrix_tasks qs (field_of t) d.next_task_field u (us ++ t ∷ []) r
            (r.listed (field_of t) (u, us, was)) w;
    }

-- On a queue in order, a task of a field that exists is put back without a fault, at the end of its
-- field; no other field and no count of stored chunks changes, and the queue stays in order.
pub reassign_task-Reassigns :
    (t : RpcMatrixTask) (d : MatrixData) (queue : List RpcMatrixTask)
    → IsReady d
    → field_at d.matrix_tasks (field_of t) ≡ some queue
    → Reassigns t d
reassign_task-Reassigns = reassign_onto
