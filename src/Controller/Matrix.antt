-- ===== src/Controller/Matrix.antt =====
-- Controller/Matrix.h: `class Matrix<T>`, a heap array of rows. An access outside the allocated
-- arrays is undefined in the source, and is `none` here.
pub mod Laws
use distributed_matrix_multi.Prelude.{
  ℕ, zero, suc, ◌+◌, ◌≡◌, Option, none, some, List, [], ◌∷◌, ◌>>=◌, leb, if◌then◌else◌, length,
  get_elem?, take, drop, replicate, All,
}
use distributed_matrix_multi.Prelude.{set as set_elem}

pub record Matrix {ℓ} (A : Type ℓ) : Type ℓ where
  pub rows : ℕ
  pub columns : ℕ
  pub cells : List (List A)

module _ {ℓ} {A : Type ℓ} where
  -- The constructor with `init_value`.
  unfoldable pub new_matrix : ℕ → ℕ → A → Matrix A
  new_matrix rows columns init_value = record {
    rows = rows;
    columns = columns;
    cells = replicate rows (replicate columns init_value);
  }

  unfoldable pub get_row_size : Matrix A → ℕ
  get_row_size m = m.rows

  unfoldable pub get_column_size : Matrix A → ℕ
  get_column_size m = m.columns

  unfoldable pub at : Matrix A → ℕ → ℕ → Option A
  at m row column = do cells ← get_elem? m.cells row; get_elem? cells column

  unfoldable pub set : Matrix A → ℕ → ℕ → A → Option (Matrix A)
  set m row column val = do
    cells ← get_elem? m.cells row
    old ← get_elem? cells column
    some (record m { cells = set_elem m.cells row (set_elem cells column val) })

  -- The array of a row from `start_col` on, as the `length` values that the caller copies. The inner
  -- `none` is the null pointer.
  unfoldable pub get_row_array : Matrix A → ℕ → ℕ → ℕ → Option (Option (List A))
  get_row_array m row start_col len =
      if leb (start_col + len) m.columns
      then (do cells ← get_elem? m.cells row; some (some (take len (drop start_col cells))))
      else some none

  -- `tmp[i - start_row] = at(i, col)` for the next `n` rows from `i`.
  unfoldable pub copy_col : Matrix A → ℕ → ℕ → ℕ → Option (List A)
  unfolding at
  copy_col m col i zero = some []
  copy_col m col i (suc n) = do x ← at m i col; xs ← copy_col m col (i + 1) n; some (x ∷ xs)

  unfoldable pub get_col_array : Matrix A → ℕ → ℕ → ℕ → Option (Option (List A))
  unfolding copy_col
  get_col_array m col start_row len =
      if leb (start_row + len) m.rows
      then (do xs ← copy_col m col start_row len; some (some xs))
      else some none

  -- The arrays have the allocated sizes.
  pub record IsMatrix (m : Matrix A) : Type ℓ where
    pub row_count : length m.cells ≡ m.rows
    pub row_sizes : All (λ cells. length cells ≡ m.columns) m.cells
