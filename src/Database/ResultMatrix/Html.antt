-- ===== src/Database/ResultMatrix/Html.antt =====
-- The views of a result matrix in HTML: `getHTMLMatrix`, `getHTMLRow` and `getHTMLCol` of
-- Database/ResultMatrix.h.
use distributed_matrix_multi.Prelude.{
  ℕ, zero, suc, ◌+◌, ◌<◌, ◌≡◌, refl, ◌∙◌, Option, some, [], ◌++◌, ◌>>=◌, arith, leb, if◌then◌else◌,
  inl, inr, Bool-cases, ℤ, pos, negsuc, Bytes, codes, length, get_elem?, get_or, i32_bound,
  i64_bound,
}
use distributed_matrix_multi.Decimal.Printed.{number_to_string_below}
use distributed_matrix_multi.Database.ResultMatrix.Defs.{ResultMatrix, not_final, get_result}
use distributed_matrix_multi.Database.ResultMatrix.Cells.{value_at, final_at, get_elem?-get_or}
use distributed_matrix_multi.Database.ResultMatrix.Stores.{IsShaped}
use distributed_matrix_multi.Database.ResultMatrix.Shown.{shown, get_result-shown}

-- The loop over the columns from `col` on, `n` of them.
unfoldable pub html_cells : ResultMatrix → ℕ → ℕ → ℕ → Option Bytes
unfolding get_result
html_cells m row col zero = some []
html_cells m row col (suc n) = do
  result ← get_result m (pos row) (pos col)
  rest ← html_cells m row (col + 1) n
  some (codes "<td>" ++ (result ++ (codes "</td>" ++ rest)))

-- The loop over the rows from `row` on, `n` of them.
unfoldable pub html_rows : ResultMatrix → ℕ → ℕ → Option Bytes
unfolding html_cells
html_rows m row zero = some []
html_rows m row (suc n) = do
  cells ← get_elem? m.result_matrix row
  text ← html_cells m row 0 (length cells)
  rest ← html_rows m (row + 1) n
  some (codes "<tr>" ++ (text ++ (codes "</tr>" ++ rest)))

unfoldable pub get_html_matrix : ResultMatrix → Option Bytes
unfolding html_rows
get_html_matrix m = do
  rows ← html_rows m 0 (length m.result_matrix)
  some (codes "<table border=\"1px\">" ++ (rows ++ codes "</table>"))

abbrev pub row_not_calculated : Bytes
row_not_calculated = codes "<h2>Requested row is not yet calculated</h2>"

-- `row >= size` compares with a `size_t`: a negative row is huge.
unfoldable pub get_html_row : ResultMatrix → ℤ → Option Bytes
unfolding html_cells
get_html_row m (negsuc n) = some row_not_calculated
get_html_row m (pos row) =
    let stored = (do
      cells ← get_elem? m.result_matrix row
      text ← html_cells m row 0 (length cells)
      some (codes "<table border=\"1px\"><tr>" ++ (text ++ codes "</tr></table>"))) in
    if leb (length m.result_matrix) row then some row_not_calculated else stored

unfoldable pub get_html_col : Bytes
get_html_col = codes "<h2>Single columns can't be printed, try single rows instead</h2>"

-- The sizes of the matrix are `int`s.
pub record IsIndexed (m : ResultMatrix) : Type 0 where
  pub rows : length m.result_matrix < i32_bound
  pub columns : (r : ℕ) → length (get_or m.result_matrix r []) < i32_bound

shown_total :
    (m : ResultMatrix) (row col : ℕ) → IsShaped m → (t : Bytes) × (shown m row col ≡ some t)
shown_total m row col w = elim (Bool-cases (final_at m row col)) [
  | inl final ↦
      let fit = w.values_fit row col in
      let (t, e) = number_to_string_below i64_bound (value_at m row col) (ground arith) in
      (t, rw final e)
  | inr open_cell ↦ (not_final, rw open_cell refl)
]

html_cells_total :
    (m : ResultMatrix) (row col n : ℕ)
    → IsShaped m
    → row + 1 < i32_bound
    → col + n < i32_bound
    → (t : Bytes) × (html_cells m row col n ≡ some t)
unfolding html_cells
html_cells_total m row col zero w h k = ([], refl)
html_cells_total m row col (suc n) w h k =
    let (result, e) = shown_total m row col w in
    let found = get_result-shown m row col w h (omega arith) ∙ e in
    let (rest, e') = html_cells_total m row (col + 1) n w h (omega arith) in
    (codes "<td>" ++ (result ++ (codes "</td>" ++ rest)), rw (found, ◌>>=◌, e', ◌>>=◌) refl)

html_rows_total :
    (m : ResultMatrix) (row n : ℕ)
    → IsShaped m
    → IsIndexed m
    → row + n ≡ length m.result_matrix
    → (t : Bytes) × (html_rows m row n ≡ some t)
unfolding html_rows
html_rows_total m row zero w x e = ([], refl)
html_rows_total m row (suc n) w x e =
    let found = get_elem?-get_or m.result_matrix row [] (omega arith) in
    let (text, e₁) =
      html_cells_total m row 0 (length (get_or m.result_matrix row [])) w (omega (arith, x.rows))
        (omega (arith, x.columns row)) in
    let (rest, e₂) = html_rows_total m (row + 1) n w x (omega arith) in
    (
      codes "<tr>" ++ (text ++ (codes "</tr>" ++ rest)),
      rw (found, ◌>>=◌, e₁, ◌>>=◌, e₂, ◌>>=◌) refl,
    )

-- A matrix whose flags stand beside its values, and whose sizes are `int`s, can be shown as a whole
-- without a fault, whatever cells are stored and final.
pub get_html_matrix_total :
    (m : ResultMatrix) → IsShaped m → IsIndexed m → (t : Bytes) × (get_html_matrix m ≡ some t)
unfolding get_html_matrix
get_html_matrix_total m w x =
    let (rows, e) = html_rows_total m 0 (length m.result_matrix) w x (omega arith) in
    (codes "<table border=\"1px\">" ++ (rows ++ codes "</table>"), rw (e, ◌>>=◌) refl)
