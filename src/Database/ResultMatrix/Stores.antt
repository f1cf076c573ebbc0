-- ===== src/Database/ResultMatrix/Stores.antt =====
-- `addResult` of Database/ResultMatrix.h changes one cell, and `getResult` shows a cell once it is final.
use distributed_matrix_multi.Prelude.{
  ℕ, ◌+◌, ◌-◌, ◌<◌, ◌≡◌, refl, ap, ◌∙◌, inl, inr, Bool, true, false, ◌&&◌, some, List, [], ◌>>=◌,
  arith, ℤ, pos, ◌+ℤ◌, length, length-set, get_elem?, get_or, set, ◌==◌, if◌then◌else◌, Bool-cases,
  i32_bound, i64_bound, fits, to_i32, to_i32-fits, AtMost,
}
use distributed_matrix_multi.Database.ResultMatrix.Defs.{ResultMatrix, push_backs, add_result}
use distributed_matrix_multi.Database.ResultMatrix.Cells.{
  value_at, final_at, length-push_backs, get_or-push_backs, get_elem?-get_or, get_or-set,
}

-- The flags stand beside the values, and the values are `int`s.
pub record IsShaped (m : ResultMatrix) : Type 0 where
  pub row_counts : length m.result_matrix ≡ length m.final_value
  pub column_counts :
      (r : ℕ) → length (get_or m.result_matrix r []) ≡ length (get_or m.final_value r [])
  pub values_fit : (r c : ℕ) → fits i32_bound (value_at m r c) ≡ true

-- One vector, made long enough for the position `n` by `k` elements.
module _ {ℓ} {A : Type ℓ} (xs : List A) (k n : ℕ) (d : A) (enough : n < length xs + k) where
  length-grown : n < length (push_backs k d xs)
  length-grown = omega (arith, length-push_backs k d xs)

  get_elem?-grown : get_elem? (push_backs k d xs) n ≡ some (get_or xs n d)
  get_elem?-grown =
      get_elem?-get_or (push_backs k d xs) n d length-grown ∙ ap some (get_or-push_backs k d xs n)

  -- A cell that is written after the growth.
  get_or-set-grown :
      (v : A) (i : ℕ)
      → get_or (set (push_backs k d xs) n v) i d ≡ (if i == n then v else get_or xs i d)
  get_or-set-grown v i =
      get_or-set (push_backs k d xs) n i v d length-grown
      ∙ ap (λ e. if i == n then v else e) (get_or-push_backs k d xs i)

-- The matrix with a value added.
module _ (m : ResultMatrix) (value : ℤ) (row col : ℕ) (value_final : Bool) where
  abbrev cells : List ℤ
  cells = get_or m.result_matrix row []

  abbrev flags : List Bool
  flags = get_or m.final_value row []

  abbrev new_value : ℤ
  new_value = to_i32 (value_at m row col +ℤ value)

  abbrev new_rows : ℕ
  new_rows = row + 1 - length m.result_matrix

  abbrev new_columns : ℕ
  new_columns = col + 1 - length cells

  abbrev long_flags : List Bool
  long_flags = push_backs new_columns false flags

  abbrev new_flags : List Bool
  new_flags = if value_final then set long_flags col true else long_flags

  abbrev stored : ResultMatrix
  stored = record m {
    result_matrix =
        set (push_backs new_rows [] m.result_matrix) row
          (set (push_backs new_columns (pos 0) cells) col new_value);
    final_value = set (push_backs new_rows [] m.final_value) row new_flags;
  }

  add_i64-value :
      IsShaped m → AtMost i32_bound value → fits i64_bound (value_at m row col +ℤ value) ≡ true
  unfolding ◌+ℤ◌
  add_i64-value w small = let fit = w.values_fit row col in ground arith

  add_result-stored :
      IsShaped m
      → row + 1 < i32_bound
      → col + 1 < i32_bound
      → AtMost i32_bound value
      → add_result m value (pos row) (pos col) value_final ≡ some stored
  unfolding add_result value_at
  add_result-stored w h k small =
      let row_small : (row + 1 == i32_bound) ≡ false = ground arith in
      let col_small : (col + 1 == i32_bound) ≡ false = ground arith in
      let row_found = get_elem?-grown m.result_matrix new_rows row [] (omega arith) in
      let flags_found =
        get_elem?-grown m.final_value new_rows row [] (omega (arith, w.row_counts)) in
      let old_found = get_elem?-grown cells new_columns col (pos 0) (omega arith) in
      let flag_found =
        get_elem?-grown flags new_columns col false (omega (arith, w.column_counts row)) in
      let fit = add_i64-value w small in
      rw
        (
          row_small, ◌>>=◌, col_small, ◌>>=◌, row_found, ◌>>=◌, flags_found, ◌>>=◌, old_found,
          ◌>>=◌, fit, flag_found, ◌>>=◌,
        )
        (elim (Bool-cases value_final) [
          | inl last ↦ rw last refl
          | inr open_cell ↦ rw open_cell refl
        ])

  stored-value :
      (r c : ℕ) → value_at stored r c ≡ (if r == row && c == col then new_value else value_at m r c)
  unfolding value_at
  stored-value r c =
      let in_row = get_or-set-grown m.result_matrix new_rows row [] (omega arith) in
      let in_cells = get_or-set-grown cells new_columns col (pos 0) (omega arith) new_value c in
      elim (Bool-cases (r == row)) [
        | inr other ↦
            rw (in_row (set (push_backs new_columns (pos 0) cells) col new_value) r, other) refl
        | inl same ↦
            let here : r ≡ row = ground arith in
            rw
              (
                in_row (set (push_backs new_columns (pos 0) cells) col new_value) r,
                same,
                in_cells,
                here,
              )
              refl
      ]

  stored-final :
      (r c : ℕ)
      → IsShaped m
      → final_at stored r c ≡ (if r == row && c == col && value_final then true else final_at m r c)
  unfolding final_at
  stored-final r c w =
      let in_row =
        get_or-set-grown m.final_value new_rows row [] (omega (arith, w.row_counts)) new_flags r in
      let in_flags =
        get_or-set-grown flags new_columns col false (omega (arith, w.column_counts row)) true c in
      let kept = get_or-push_backs new_columns false flags c in
      elim (Bool-cases (r == row)) [
        | inr other ↦ rw (in_row, other) refl
        | inl same ↦
            let here : r ≡ row = ground arith in
            rw (in_row, same, here)
              (elim (Bool-cases value_final) [
                | inl last ↦
                    rw (last, in_flags)
                      (elim (Bool-cases (c == col)) [ inl e ↦ rw e refl | inr e ↦ rw e refl ])
                | inr open_cell ↦
                    rw (open_cell, kept)
                      (elim (Bool-cases (c == col)) [ inl e ↦ rw e refl | inr e ↦ rw e refl ])
              ])
      ]

  length-new_flags : length new_flags ≡ length flags + new_columns
  length-new_flags = elim (Bool-cases value_final) [
    | inl last ↦
        rw last
          (omega (arith, length-set long_flags col true, length-push_backs new_columns false flags))
    | inr open_cell ↦ rw open_cell (length-push_backs new_columns false flags)
  ]

  stored-IsShaped : IsShaped m → IsShaped stored
  stored-IsShaped w =
      let new_cells = set (push_backs new_columns (pos 0) cells) col new_value in
      let value_row = get_or-set-grown m.result_matrix new_rows row [] (omega arith) new_cells in
      let flag_row =
        get_or-set-grown m.final_value new_rows row [] (omega (arith, w.row_counts)) new_flags in
      record {
        row_counts = omega (
          arith,
          w.row_counts,
          length-set (push_backs new_rows [] m.result_matrix) row new_cells,
          length-set (push_backs new_rows [] m.final_value) row new_flags,
          length-push_backs new_rows [] m.result_matrix,
          length-push_backs new_rows [] m.final_value,
        );
        column_counts = λ r. elim (Bool-cases (r == row)) [
          | inl same ↦
              rw (value_row r, flag_row r, same)
                (omega (
                  arith,
                  length-set (push_backs new_columns (pos 0) cells) col new_value,
                  length-push_backs new_columns (pos 0) cells,
                  length-new_flags,
                  w.column_counts row,
                ))
          | inr other ↦ rw (value_row r, flag_row r, other) (w.column_counts r)
        ];
        values_fit = λ r c. rw (stored-value r c) (elim (Bool-cases (r == row && c == col)) [
          | inl same ↦ rw same (to_i32-fits (value_at m row col +ℤ value))
          | inr other ↦ rw other (w.values_fit r c)
        ]);
      }

-- What `addResult` leaves behind.
pub record Stores (m : ResultMatrix) (value : ℤ) (row col : ℕ) (value_final : Bool) : Type 0 where
  pub after : ResultMatrix
  pub added : add_result m value (pos row) (pos col) value_final ≡ some after
  pub shaped : IsShaped after
  pub values :
      (r c : ℕ)
      → value_at after r c
        ≡ (if r == row && c == col then to_i32 (value_at m row col +ℤ value) else value_at m r c)
  pub finals :
      (r c : ℕ)
      → final_at after r c ≡ (if r == row && c == col && value_final then true else final_at m r c)

pub add_result-Stores :
    (m : ResultMatrix) (value : ℤ) (row col : ℕ) (value_final : Bool)
    → IsShaped m
    → row + 1 < i32_bound
    → col + 1 < i32_bound
    → AtMost i32_bound value
    → Stores m value row col value_final
add_result-Stores m value row col value_final w h k small = record {
  after = stored m value row col value_final;
  added = add_result-stored m value row col value_final w h k small;
  shaped = stored-IsShaped m value row col value_final w;
  values = stored-value m value row col value_final;
  finals = λ r c. stored-final m value row col value_final r c w;
}
