-- ===== src/Controller/MatrixData/Initialize/Creates.antt =====
-- The outer loops of `createTasks` of Controller/MatrixData.h: every field gets the tasks that are
-- made for it, and no other is touched.
use distributed_matrix_multi.Prelude.{
  ◌+◌, ◌*◌, ◌≡◌, refl, sym, ◌∙◌, subst, inl, inr, some, List, [], ◌∷◌, ◌>>=◌, arith, ℤ, In,
  Distinct, length, get_elem?,
}
use distributed_matrix_multi.Rpc.Task.{RpcMatrixTask}
use distributed_matrix_multi.Controller.Matrix.{Matrix}
use distributed_matrix_multi.Controller.MatrixData.Plan.Defs.{Chunking}
use distributed_matrix_multi.Controller.MatrixData.Tasks.Defs.{field_tasks}
use distributed_matrix_multi.Controller.MatrixData.State.{ResultField, field_at}
use distributed_matrix_multi.Controller.MatrixData.Fields.{field_set_total, field_set-FieldWritten}
use distributed_matrix_multi.Controller.MatrixData.Initialize.Defs.{
  factors_of, Created, create_tasks,
}

module _ (c : Chunking) (matrices_a matrices_b : List (Matrix ℤ)) where
  -- The tasks of a field can be made: its matrices are there, and the loop over chunks returns.
  pub record Makes (f : ResultField) : Type 0 where
    pub a : Matrix ℤ
    pub b : Matrix ℤ
    pub a_found : get_elem? matrices_a f.result_matrix ≡ some a
    pub b_found : get_elem? matrices_b f.result_matrix ≡ some b
    pub tasks : List RpcMatrixTask
    pub made : field_tasks c (factors_of a b f) ≡ some tasks
    pub count : length tasks ≡ c.chunks_per_row

  -- What the loops leave behind when they have gone through `fields`.
  pub record Creates (fields : List ResultField) (before : Created) : Type 0 where
    pub after : Created
    pub returns : create_tasks c matrices_a matrices_b fields before ≡ some after
    pub filled :
        (f : ResultField) → In f fields → (m : Makes f) × (field_at after.queues f ≡ some m.tasks)
    pub untouched :
        (f : ResultField) → ¬ In f fields → field_at after.queues f ≡ field_at before.queues f
    pub counted :
        after.total_number_tasks ≡ before.total_number_tasks + length fields * c.chunks_per_row

  -- Fields that are all there, none twice, get their tasks without a fault.
  pub creates :
      (fields : List ResultField) (before : Created)
      → Distinct fields
      → ((f : ResultField) → In f fields → Makes f)
      → ((f : ResultField)
          → In f fields
          → (queue : List RpcMatrixTask) × (field_at before.queues f ≡ some queue))
      → Creates fields before
  unfolding create_tasks
  creates [] before d makes there = record {
    after = before;
    returns = refl;
    filled = λ f h. elim h [ ];
    untouched = λ f h. refl;
    counted = omega arith;
  }
  creates (f ∷ fields) before d makes there =
      let m = makes f (inl refl) in
      let (qs, written) = field_set_total before.queues f m.tasks (there f (inl refl)).1 in
      let w = field_set-FieldWritten before.queues qs f m.tasks written in
      let ih =
        creates fields
          (record { queues = qs; total_number_tasks = before.total_number_tasks + length m.tasks })
          d.1 (λ g h. makes g (inr h))
          (λ g h.
            let (queue, found) = there g (inr h) in
            (queue, w.other g (λ e. d.0 (subst (λ x. In x fields) (sym e) h)) ∙ found)) in
      record {
        after = ih.after;
        returns = rw (m.a_found, ◌>>=◌, m.b_found, ◌>>=◌, m.made, ◌>>=◌, written, ◌>>=◌) ih.returns;
        filled = λ g h. elim h [
          | inl e ↦
              subst (λ x. (n : Makes x) × (field_at ih.after.queues x ≡ some n.tasks)) (sym e)
                (m, ih.untouched f d.0 ∙ w.self)
          | inr later ↦ ih.filled g later
        ];
        untouched = λ g n. ih.untouched g (λ h. n (inr h)) ∙ w.other g (λ e. n (inl (sym e)));
        counted = omega (arith, ih.counted, m.count);
      }
