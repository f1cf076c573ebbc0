-- ===== src/Controller/MatrixData/Queue/Ready.antt =====
-- The invariant of the task queue of Controller/MatrixData.h: `next_task_field` lists exactly the
-- fields that have a task left, each once. Under it `getNextTask` never meets an empty field, and
-- gives a task as long as there is one.
use distributed_matrix_multi.Prelude.{
  ◌≡◌, sym, ◌∙◌, subst, ◌≢◌, inl, inr, some, List, [], ◌∷◌, ◌++◌, In, Distinct, In-append_left,
  In-concat, In-concat_cases, Distinct-concat,
}
use distributed_matrix_multi.Rpc.Task.{RpcMatrixTask}
use distributed_matrix_multi.Controller.Matrix.{Matrix}
use distributed_matrix_multi.Controller.MatrixData.State.{ResultField, MatrixData, field_at}
use distributed_matrix_multi.Controller.MatrixData.Fields.{ResultField-discrete, FieldWritten}

abbrev pub Queues : Type 0
Queues = List (Matrix (List RpcMatrixTask))

-- The field has a task left.
abbrev pub HasTask : Queues → ResultField → Type 0
HasTask qs f = (t : RpcMatrixTask) × (ts : List RpcMatrixTask) × (field_at qs f ≡ some (t ∷ ts))

pub record Ready (qs : Queues) (fields : List ResultField) : Type 0 where
  pub queued : (f : ResultField) → In f fields → HasTask qs f
  pub listed : (f : ResultField) → HasTask qs f → In f fields
  pub distinct : Distinct fields

abbrev pub IsReady : MatrixData → Type 0
IsReady d = Ready d.matrix_tasks d.next_task_field

HasTask-other :
    {qs qs' : Queues} {f : ResultField} {v : List RpcMatrixTask} (g : ResultField)
    → FieldWritten qs qs' f v
    → f ≢ g
    → HasTask qs g
    → HasTask qs' g
HasTask-other g w ne (t, ts, e) = (t, ts, w.other g ne ∙ e)

pub HasTask-back :
    {qs qs' : Queues} {f : ResultField} {v : List RpcMatrixTask} (g : ResultField)
    → FieldWritten qs qs' f v
    → f ≢ g
    → HasTask qs' g
    → HasTask qs g
HasTask-back g w ne (t, ts, e) = (t, ts, sym (w.other g ne) ∙ e)

pub not-HasTask : (qs : Queues) (f : ResultField) → field_at qs f ≡ some [] → ¬ HasTask qs f
not-HasTask qs f e (t, ts, e') = cc

-- The last task of the first field is taken: the field leaves the list.
pub Ready-pop :
    (qs qs' : Queues) (f : ResultField) (fields : List ResultField)
    → Ready qs (f ∷ fields)
    → FieldWritten qs qs' f []
    → Ready qs' fields
Ready-pop qs qs' f fields r w = record {
  queued = λ g h.
      HasTask-other g w (λ e. r.distinct.0 (subst (λ x. In x fields) (sym e) h))
        (r.queued g (inr h));
  listed = λ g h. elim (ResultField-discrete f g) [
    | yes same ↦ absurd (not-HasTask qs' g (subst (λ x. field_at qs' x ≡ some []) same w.self) h)
    | no other ↦ elim (r.listed g (HasTask-back g w other h)) [
      | inl e ↦ absurd (other (sym e))
      | inr later ↦ later
    ]
  ];
  distinct = r.distinct.1;
}

-- The first field keeps a task, or gets one more: the list stays.
pub Ready-keep :
    (qs qs' : Queues) (f : ResultField) (fields : List ResultField) (t : RpcMatrixTask)
    (ts : List RpcMatrixTask)
    → Ready qs fields
    → In f fields
    → FieldWritten qs qs' f (t ∷ ts)
    → Ready qs' fields
Ready-keep qs qs' f fields t ts r here w = record {
  queued = λ g h. elim (ResultField-discrete f g) [
    | yes same ↦ (t, ts, subst (λ x. field_at qs' x ≡ some (t ∷ ts)) same w.self)
    | no other ↦ HasTask-other g w other (r.queued g h)
  ];
  listed = λ g h. elim (ResultField-discrete f g) [
    | yes same ↦ subst (λ x. In x fields) same here
    | no other ↦ r.listed g (HasTask-back g w other h)
  ];
  distinct = r.distinct;
}

-- A field that had no task gets one: it goes to the end of the list.
pub Ready-push :
    (qs qs' : Queues) (f : ResultField) (fields : List ResultField) (t : RpcMatrixTask)
    → Ready qs fields
    → field_at qs f ≡ some []
    → FieldWritten qs qs' f (t ∷ [])
    → Ready qs' (fields ++ f ∷ [])
Ready-push qs qs' f fields t r none_left w = record {
  queued = λ g h. elim (ResultField-discrete f g) [
    | yes same ↦ (t, [], subst (λ x. field_at qs' x ≡ some (t ∷ [])) same w.self)
    | no other ↦ elim (In-concat_cases g f fields h) [
      | inl old ↦ HasTask-other g w other (r.queued g old)
      | inr e ↦ absurd (other (sym e))
    ]
  ];
  listed = λ g h. elim (ResultField-discrete f g) [
    | yes same ↦ subst (λ x. In x (fields ++ f ∷ [])) same (In-concat f fields)
    | no other ↦ In-append_left g fields (f ∷ []) (r.listed g (HasTask-back g w other h))
  ];
  distinct = Distinct-concat f fields r.distinct (λ h. not-HasTask qs f none_left (r.queued f h));
}
