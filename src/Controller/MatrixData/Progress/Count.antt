-- ===== src/Controller/MatrixData/Progress/Count.antt =====
-- Sums over the fields of the result matrices of Controller/MatrixData.h, under a write of a field.
use mathlib.Core.Option.{some_inj}
use distributed_matrix_multi.Prelude.{
  ℕ, ◌+◌, ◌≤◌, ◌≡◌, subst, some, List, ◌>>=◌, >>=-eq-some, arith, get_elem?, total, total-set,
  total_mono, total_gap, total_congr,
}
use distributed_matrix_multi.Prelude.{set as set_elem}
use distributed_matrix_multi.Controller.Matrix.{Matrix, at}
use distributed_matrix_multi.Controller.Matrix.{set as set_cell}
use distributed_matrix_multi.Controller.MatrixData.State.{ResultField, field_at, field_set}

module _ {ℓ} {A : Type ℓ} where
  abbrev pub cells_total : (A → ℕ) → Matrix A → ℕ
  cells_total w m = total (total w) m.cells

  -- The sum of a weight over all fields of the result matrices.
  abbrev pub fields_total : (A → ℕ) → List (Matrix A) → ℕ
  fields_total w = total (cells_total w)

  cells_total-set :
      (w : A → ℕ) (m m' : Matrix A) (r c : ℕ) (v : A) {x : A}
      → at m r c ≡ some x
      → set_cell m r c v ≡ some m'
      → cells_total w m' + w x ≡ cells_total w m + w v
  unfolding at set_cell
  cells_total-set w m m' r c v {x} e s =
      let (row, er, ex) = >>=-eq-some (get_elem? m.cells r) (λ row. get_elem? row c) e in
      let made = some_inj.0 (rw (er, ◌>>=◌, ex, ◌>>=◌) at s) in
      let outer = total-set (total w) m.cells r (set_elem row c v) er in
      let inner = total-set w row c v ex in
      subst (λ (o : Matrix A). cells_total w o + w x ≡ cells_total w m + w v) made (omega arith)

  pub fields_total-set :
      (w : A → ℕ) (ms ms' : List (Matrix A)) (f : ResultField) (v : A) {x : A}
      → field_at ms f ≡ some x
      → field_set ms f v ≡ some ms'
      → fields_total w ms' + w x ≡ fields_total w ms + w v
  unfolding field_at field_set
  fields_total-set w ms ms' f v {x} e s =
      let (m, em, ex) = >>=-eq-some (get_elem? ms f.result_matrix) (λ m. at m f.row f.col) e in
      let rest = rw (em, ◌>>=◌) at s in
      let (m', es, made) = >>=-eq-some (set_cell m f.row f.col v) _ rest in
      let outer = total-set (cells_total w) ms f.result_matrix m' em in
      let inner = cells_total-set w m m' f.row f.col v ex es in
      subst (λ (o : List (Matrix A)). fields_total w o + w x ≡ fields_total w ms + w v)
        (some_inj.0 made) (omega arith)

  -- Where two sums agree and one weight is below the other, the weights agree at every field.
  pub fields_total_tight :
      (w u : A → ℕ) (ms : List (Matrix A)) (f : ResultField) {x : A}
      → ((y : A) → w y ≤ u y)
      → fields_total w ms ≡ fields_total u ms
      → field_at ms f ≡ some x
      → w x ≡ u x
  unfolding field_at at
  fields_total_tight w u ms f {x} h same e =
      let (m, em, ex) = >>=-eq-some (get_elem? ms f.result_matrix) _ e in
      let (row, er, ec) = >>=-eq-some (get_elem? m.cells f.row) _ ex in
      let rows_h = λ (r : List A). total_mono w u r h in
      let all_h = λ (n : Matrix A). total_mono (total w) (total u) n.cells rows_h in
      omega (
        arith,
        h x,
        total_gap (cells_total w) (cells_total u) ms f.result_matrix all_h em,
        total_gap (total w) (total u) m.cells f.row rows_h er,
        total_gap w u row f.col h ec,
      )

  pub fields_total_congr :
      (w u : A → ℕ) (ms : List (Matrix A))
      → ((f : ResultField) (x : A) → field_at ms f ≡ some x → w x ≡ u x)
      → fields_total w ms ≡ fields_total u ms
  unfolding field_at at
  fields_total_congr w u ms h = total_congr (cells_total w) (cells_total u) ms λ i m em.
      total_congr (total w) (total u) m.cells λ r row er. total_congr w u row λ c x ex.
        h (record { result_matrix = i; row = r; col = c }) x (rw (em, ◌>>=◌, er, ◌>>=◌) ex)
