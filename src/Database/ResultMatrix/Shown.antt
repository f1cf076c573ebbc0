-- ===== src/Database/ResultMatrix/Shown.antt =====
-- `getResult` of Database/ResultMatrix.h, after any number of calls of `addResult`.
use distributed_matrix_multi.Prelude.{
  ℕ, ◌+◌, ◌≤◌, ◌<◌, ◌≡◌, refl, inl, inr, false, Option, some, [], ◌>>=◌, arith, pos, Bytes, length,
  get_or, ltb, ◌==◌, if◌then◌else◌, Bool-cases, i32_bound, i64_bound,
}
use distributed_matrix_multi.Decimal.Print.{number_to_string}
use distributed_matrix_multi.Database.ResultMatrix.Defs.{
  ResultMatrix, not_final, get_in_row, get_result,
}
use distributed_matrix_multi.Database.ResultMatrix.Cells.{
  value_at, final_at, get_elem?-get_or, get_or-outside,
}
use distributed_matrix_multi.Database.ResultMatrix.Stores.{IsShaped}

-- What a reader is shown of a cell.
abbrev pub shown : ResultMatrix → ℕ → ℕ → Option Bytes
shown m row col =
    if final_at m row col then number_to_string i64_bound (value_at m row col) else some not_final

get_in_row-shown :
    (m : ResultMatrix) (row col : ℕ)
    → IsShaped m
    → row < length m.result_matrix
    → col + 1 < i32_bound
    → get_in_row m (pos row) (pos col) ≡ shown m row col
unfolding get_in_row value_at final_at
get_in_row-shown m row col w h k =
    let cells = get_or m.result_matrix row [] in
    let flags = get_or m.final_value row [] in
    let col_small : (col + 1 == i32_bound) ≡ false = ground arith in
    let row_found = get_elem?-get_or m.result_matrix row [] h in
    elim (Bool-cases (ltb (length cells) (col + 1))) [
      | inl short ↦
          let behind : length cells ≤ col = ground arith in
          let outside = get_or-outside flags col false (omega (arith, w.column_counts row)) in
          rw (row_found, ◌>>=◌, col_small, ◌>>=◌, short, outside) refl
      | inr long ↦
          let inside : col < length cells = ground arith in
          rw
            (
              row_found,
              ◌>>=◌,
              col_small,
              ◌>>=◌,
              long,
              get_elem?-get_or m.final_value row [] (omega (arith, w.row_counts)),
              ◌>>=◌,
              get_elem?-get_or flags col false (omega (arith, w.column_counts row)),
              ◌>>=◌,
              get_elem?-get_or cells col (pos 0) inside,
              ◌>>=◌,
            )
            refl
    ]

pub get_result-shown :
    (m : ResultMatrix) (row col : ℕ)
    → IsShaped m
    → row + 1 < i32_bound
    → col + 1 < i32_bound
    → get_result m (pos row) (pos col) ≡ shown m row col
unfolding get_result final_at
get_result-shown m row col w h k =
    let row_small : (row + 1 == i32_bound) ≡ false = ground arith in
    elim (Bool-cases (ltb (length m.result_matrix) (row + 1))) [
      | inl short ↦
          let behind : length m.result_matrix ≤ row = ground arith in
          let outside = get_or-outside m.final_value row [] (omega (arith, w.row_counts)) in
          rw (row_small, ◌>>=◌, short, outside) refl
      | inr long ↦ rw (row_small, ◌>>=◌, long) (get_in_row-shown m row col w (ground arith) k)
    ]
