-- ===== src/Controller/MatrixData/Initialize/Vectors.antt =====
-- Vectors of new matrices, as `initialize` of Controller/MatrixData.h makes them: one value everywhere.
use distributed_matrix_multi.Prelude.{
  ℕ, zero, suc, ◌*◌, ◌<◌, ◌≡◌, refl, ap, ◌∙◌, subst, ◌⊎◌, inl, inr, some, List, [], ◌∷◌, ◌>>=◌,
  >>=-eq-some, arith, In, get_elem?, replicate, total,
}
use distributed_matrix_multi.Controller.Matrix.{Matrix, new_matrix, at}
use distributed_matrix_multi.Controller.MatrixData.Plan.Defs.{Settings}
use distributed_matrix_multi.Controller.MatrixData.State.{ResultField, field_at}
use distributed_matrix_multi.Controller.MatrixData.Progress.Count.{fields_total}
use distributed_matrix_multi.Controller.MatrixData.Initialize.Fields.{IsInside}

module _ {ℓ} {A : Type ℓ} where
  pub get_elem?-replicate : (n : ℕ) (v : A) (i : ℕ) → i < n → get_elem? (replicate n v) i ≡ some v
  get_elem?-replicate zero v i h = absurd (omega arith)
  get_elem?-replicate (suc n) v zero h = refl
  get_elem?-replicate (suc n) v (suc i) h = get_elem?-replicate n v i (omega arith)

  pub replicate_only :
      (n : ℕ) (v : A) (i : ℕ) {x : A} → get_elem? (replicate n v) i ≡ some x → x ≡ v
  replicate_only zero v i e = cc
  replicate_only (suc n) v zero e = cc
  replicate_only (suc n) v (suc i) e = replicate_only n v i e

  pub replicate_inside :
      (n : ℕ) (v : A) (i : ℕ) {x : A} → get_elem? (replicate n v) i ≡ some x → i < n
  replicate_inside zero v i e = cc
  replicate_inside (suc n) v zero e = omega arith
  replicate_inside (suc n) v (suc i) e = omega (arith, replicate_inside n v i e)

  pub total-replicate : (w : A → ℕ) (n : ℕ) (v : A) → total w (replicate n v) ≡ n * w v
  total-replicate w zero v = omega arith
  total-replicate w (suc n) v = omega (arith, total-replicate w n v)

  -- Membership is decided where equality is.
  pub dec_In : Discrete A → (a : A) (xs : List A) → In a xs ⊎ ¬ In a xs
  dec_In d a [] = inr (λ h. elim h [ ])
  dec_In d a (x ∷ xs) = elim (d a x) [
    | yes e ↦ inl (inl e)
    | no ne ↦ elim (dec_In d a xs) [
      | inl h ↦ inl (inr h)
      | inr out ↦ inr (λ h. elim h [ inl e ↦ ne e | inr later ↦ out later ])
    ]
  ]

module _ {ℓ} {A : Type ℓ} where
  -- A vector of new matrices holds the initial value at every field, and only that.
  pub field_at-new :
      (s : Settings) (v : A) (f : ResultField)
      → IsInside s f
      → field_at (replicate s.number_matrices (new_matrix s.a_rows s.b_cols v)) f ≡ some v
  unfolding field_at at new_matrix
  field_at-new s v f h =
      rw
        (
          get_elem?-replicate s.number_matrices (new_matrix s.a_rows s.b_cols v) f.result_matrix
              h.matrix_inside,
          ◌>>=◌,
          get_elem?-replicate s.a_rows (replicate s.b_cols v) f.row h.row_inside,
          ◌>>=◌,
        )
        (get_elem?-replicate s.b_cols v f.col h.col_inside)

  pub field_at-new_only :
      (n rows cols : ℕ) (v : A) (f : ResultField) {x : A}
      → field_at (replicate n (new_matrix rows cols v)) f ≡ some x
      → x ≡ v
  unfolding field_at at new_matrix
  field_at-new_only n rows cols v f {x} e =
      let (m, em, ex) =
        >>=-eq-some (get_elem? (replicate n (new_matrix rows cols v)) f.result_matrix) _ e in
      let (row, er, ec) = >>=-eq-some (get_elem? m.cells f.row) _ ex in
      let new_m = replicate_only n (new_matrix rows cols v) f.result_matrix em in
      let new_row =
        replicate_only rows (replicate cols v) f.row
          (subst (λ (o : Matrix A). get_elem? o.cells f.row ≡ some row) new_m er) in
      replicate_only cols v f.col (subst (λ o. get_elem? o f.col ≡ some x) new_row ec)

  -- Only the fields inside can be read.
  pub field_at-new-IsInside :
      (s : Settings) (v : A) (f : ResultField) {x : A}
      → field_at (replicate s.number_matrices (new_matrix s.a_rows s.b_cols v)) f ≡ some x
      → IsInside s f
  unfolding field_at at new_matrix
  field_at-new-IsInside s v f {x} e =
      let n = s.number_matrices in
      let (m, em, ex) =
        >>=-eq-some (get_elem? (replicate n (new_matrix s.a_rows s.b_cols v)) f.result_matrix) _
          e in
      let (row, er, ec) = >>=-eq-some (get_elem? m.cells f.row) _ ex in
      let new_m = replicate_only n (new_matrix s.a_rows s.b_cols v) f.result_matrix em in
      let er' = subst (λ (o : Matrix A). get_elem? o.cells f.row ≡ some row) new_m er in
      let new_row = replicate_only s.a_rows (replicate s.b_cols v) f.row er' in
      record {
        matrix_inside = replicate_inside n (new_matrix s.a_rows s.b_cols v) f.result_matrix em;
        row_inside = replicate_inside s.a_rows (replicate s.b_cols v) f.row er';
        col_inside =
            replicate_inside s.b_cols v f.col (subst (λ o. get_elem? o f.col ≡ some x) new_row ec);
      }

  pub fields_total-new :
      (w : A → ℕ) (n rows cols : ℕ) (v : A)
      → fields_total w (replicate n (new_matrix rows cols v)) ≡ n * (rows * (cols * w v))
  unfolding new_matrix
  fields_total-new w n rows cols v =
      total-replicate _ n (new_matrix rows cols v)
      ∙ ap (λ k. n * k)
          (total-replicate (total w) rows (replicate cols v)
            ∙ ap (λ k. rows * k) (total-replicate w cols v))
