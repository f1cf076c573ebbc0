-- ===== src/Controller/MatrixData/Fields.antt =====
-- Reads and writes of one field of the result matrices of Controller/MatrixData.h.
use mathlib.Core.Option.{some_inj}
use distributed_matrix_multi.Prelude.{
  ◌≡◌, refl, subst, ◌≢◌, some, List, ◌>>=◌, >>=-eq-some, get_elem?, get_elem?-set_self,
  get_elem?-set_ne, ℕ_discrete,
}
use distributed_matrix_multi.Prelude.{set as set_elem}
use distributed_matrix_multi.Controller.Matrix.{Matrix, at}
use distributed_matrix_multi.Controller.Matrix.{set as set_cell}
use distributed_matrix_multi.Controller.Matrix.Laws.{Written, set_total, set-Written, lt-length}
use distributed_matrix_multi.Controller.MatrixData.State.{ResultField, field_at, field_set}

pub ResultField-discrete : Discrete ResultField
ResultField-discrete = hlevel ℕ_discrete

same_matrix :
    (f g : ResultField) → f.result_matrix ≡ g.result_matrix → f.row ≡ g.row → f.col ≡ g.col → f ≡ g
same_matrix f g a b c = λ i. record { result_matrix = a i; row = b i; col = c i }

-- After a write the field holds the new value, and every other field its old one.
pub record FieldWritten {ℓ} {A : Type ℓ} (ms ms' : List (Matrix A)) (f : ResultField) (v : A)
    : Type ℓ where
  pub self : field_at ms' f ≡ some v
  pub other : (g : ResultField) → f ≢ g → field_at ms' g ≡ field_at ms g

module _ {ℓ} {A : Type ℓ} where
  -- A field that can be read can be written.
  pub field_set_total :
      (ms : List (Matrix A)) (f : ResultField) (v : A) {x : A}
      → field_at ms f ≡ some x
      → (ms' : List (Matrix A)) × (field_set ms f v ≡ some ms')
  unfolding field_at field_set
  field_set_total ms f v e =
      let (m, em, ex) = >>=-eq-some (get_elem? ms f.result_matrix) (λ m. at m f.row f.col) e in
      let (m', es) = set_total m f.row f.col v ex in
      (set_elem ms f.result_matrix m', rw (em, ◌>>=◌, es, ◌>>=◌) refl)

  set_elem-FieldWritten :
      (ms : List (Matrix A)) (f : ResultField) (v : A) (m m' : Matrix A)
      → get_elem? ms f.result_matrix ≡ some m
      → Written m m' f.row f.col v
      → FieldWritten ms (set_elem ms f.result_matrix m') f v
  unfolding field_at
  set_elem-FieldWritten ms f v m m' em w = record {
    self = rw (here, ◌>>=◌) w.self;
    other = λ g ne. elim (ℕ_discrete f.result_matrix g.result_matrix) [
      | no matrix ↦ rw (get_elem?-set_ne ms m' matrix) refl
      | yes matrix ↦ elim (ℕ_discrete f.row g.row) [
        | no row ↦ rw (← matrix, here, ◌>>=◌, em, ◌>>=◌) (w.other_row g.row g.col row)
        | yes row ↦
            rw (← matrix, ← row, here, ◌>>=◌, em, ◌>>=◌)
              (w.other_column g.col (λ col. ne (same_matrix f g matrix row col)))
      ]
    ];
  }
    where
      here : get_elem? (set_elem ms f.result_matrix m') f.result_matrix ≡ some m'
      here = get_elem?-set_self ms f.result_matrix m' (lt-length ms f.result_matrix em)

  pub field_set-FieldWritten :
      (ms ms' : List (Matrix A)) (f : ResultField) (v : A)
      → field_set ms f v ≡ some ms'
      → FieldWritten ms ms' f v
  unfolding field_set
  field_set-FieldWritten ms ms' f v e =
      let (m, em, rest) = >>=-eq-some (get_elem? ms f.result_matrix) _ e in
      let (m', es, made) = >>=-eq-some (set_cell m f.row f.col v) _ rest in
      subst (λ (o : List (Matrix A)). FieldWritten ms o f v) (some_inj.0 made)
        (set_elem-FieldWritten ms f v m m' em (set-Written m m' f.row f.col v es))
