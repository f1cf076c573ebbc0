-- ===== src/Database/ResultMatrix/Sums.antt =====
-- Many calls of `addResult` of Database/ResultMatrix.h for one position, as Database/database.cpp makes
-- them: each with `true` for `value_final`.
use distributed_matrix_multi.Prelude.{
  ℕ, ◌+◌, ◌<◌, ◌≡◌, refl, sym, ap, ◌∙◌, inl, inr, Bool, true, false, ◌&&◌, Option, some, List, [],
  ◌∷◌, ◌>>=◌, arith, ℤ, pos, ◌+ℤ◌, +ℤ_assoc, +ℤ_zero, length, ltb, ◌==◌, if◌then◌else◌, Bool-cases,
  i32_bound, to_i32, to_i32_id, to_i32-add, All, AtMost, sum,
}
use distributed_matrix_multi.Database.ResultMatrix.Defs.{ResultMatrix, add_result}
use distributed_matrix_multi.Database.ResultMatrix.Cells.{value_at, final_at}
use distributed_matrix_multi.Database.ResultMatrix.Stores.{IsShaped, Stores, add_result-Stores}

unfoldable pub store_results : List ℤ → ℕ → ℕ → ResultMatrix → Option ResultMatrix
unfolding add_result
store_results [] row col m = some m
store_results (v ∷ vs) row col m =
    add_result m v (pos row) (pos col) true >>= λ m'. store_results vs row col m'

-- What many stored values leave at their position, and elsewhere.
pub record Sums (m : ResultMatrix) (vs : List ℤ) (row col : ℕ) : Type 0 where
  pub after : ResultMatrix
  pub added : store_results vs row col m ≡ some after
  pub shaped : IsShaped after
  pub values :
      (r c : ℕ)
      → value_at after r c
        ≡ (if r == row && c == col then to_i32 (value_at m row col +ℤ sum vs) else value_at m r c)
  pub finals :
      (r c : ℕ)
      → final_at after r c
        ≡ (if r == row && c == col && ltb 0 (length vs) then true else final_at m r c)

pub same_cell : (row col : ℕ) → (row == row && col == col) ≡ true
same_cell row col = ground arith

keeps_flag : (a b x : Bool) → x ≡ (if a && b && false then true else x)
keeps_flag true true x = refl
keeps_flag true false x = refl
keeps_flag false b x = refl

flag_again :
    (a b k x y : Bool)
    → y ≡ (if a && b && true then true else x)
    → (if a && b && k then true else y) ≡ (if a && b && true then true else x)
flag_again true true true x y h = refl
flag_again true true false x y h = h
flag_again true false k x y h = h
flag_again false b k x y h = h

no_values : (m : ResultMatrix) (row col : ℕ) → IsShaped m → Sums m [] row col
unfolding store_results sum
no_values m row col w = record {
  after = m;
  added = refl;
  shaped = w;
  values = λ r c. elim (Bool-cases (r == row && c == col)) [
    | inr other ↦ rw other refl
    | inl same ↦
        let r_row : r ≡ row = ground arith in
        let c_col : c ≡ col = ground arith in
        rw (same, r_row, c_col, +ℤ_zero (value_at m row col))
          (sym (to_i32_id (value_at m row col) (w.values_fit row col)))
  ];
  finals = λ r c. keeps_flag (r == row) (c == col) (final_at m r c);
}

one_more :
    (m : ResultMatrix) (v : ℤ) (vs : List ℤ) (row col : ℕ) (s : Stores m v row col true)
    → Sums s.after vs row col
    → Sums m (v ∷ vs) row col
unfolding store_results sum
one_more m v vs row col s t = record {
  after = t.after;
  added = rw (s.added, ◌>>=◌) t.added;
  shaped = t.shaped;
  values = λ r c. t.values r c ∙ elim (Bool-cases (r == row && c == col)) [
    | inr other ↦ rw other (s.values r c ∙ rw other refl)
    | inl same ↦ rw same (
        ap (λ z. to_i32 (z +ℤ sum vs)) (s.values row col ∙ rw (same_cell row col) refl)
        ∙ to_i32-add (value_at m row col +ℤ v) (sum vs)
        ∙ ap to_i32 (+ℤ_assoc (value_at m row col) v (sum vs)))
  ];
  finals = λ r c.
      let some_value : ltb 0 (length (v ∷ vs)) ≡ true = ground arith in
      rw some_value (
        t.finals r c
        ∙ flag_again (r == row) (c == col) (ltb 0 (length vs)) (final_at m r c)
            (final_at s.after r c) (s.finals r c));
}

-- Stored one after the other, values that are `int`s add up: the cell holds its old value plus their
-- sum, as an `int`, and is final if there was one; no other cell changes.
pub store_results-Sums :
    (m : ResultMatrix) (vs : List ℤ) (row col : ℕ)
    → IsShaped m
    → row + 1 < i32_bound
    → col + 1 < i32_bound
    → All (AtMost i32_bound) vs
    → Sums m vs row col
store_results-Sums m [] row col w h k small = no_values m row col w
store_results-Sums m (v ∷ vs) row col w h k small =
    let s = add_result-Stores m v row col true w h k small.0 in
    one_more m v vs row col s (store_results-Sums s.after vs row col s.shaped h k small.1)
