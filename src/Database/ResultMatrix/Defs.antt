-- ===== src/Database/ResultMatrix/Defs.antt =====
-- `class ResultMatrix` of Database/ResultMatrix.h. `none` is an exception of `vector::at`, an overflow
-- of `int`, or a loop that goes on until the memory is used up.
use distributed_matrix_multi.Prelude.{
  ℕ, zero, suc, ◌+◌, ◌-◌, Bool, true, false, Option, none, some, List, [], ◌∷◌, ◌++◌, ◌>>=◌, ltb,
  ◌==◌, if◌then◌else◌, ℤ, pos, negsuc, Bytes, codes, length, get_elem?, set, to_i32, add_i64,
  i32_bound, i64_bound,
}
use distributed_matrix_multi.Decimal.Print.{number_to_string}

pub record ResultMatrix : Type 0 where
  pub matrix_index : ℤ
  pub result_matrix : List (List ℤ)
  pub final_value : List (List Bool)

-- `i + 1` in `int`
unfoldable pub plus_one : ℤ → Option ℤ
plus_one (pos n) = if n + 1 == i32_bound then none else some (pos (n + 1))
plus_one (negsuc zero) = some (pos 0)
plus_one (negsuc (suc n)) = some (negsuc n)

-- `size < n`, which compares a `size_t` with the conversion of an `int`: a negative one is huge.
abbrev pub shorter_than : ℕ → ℤ → Bool
shorter_than size (pos n) = ltb size n
shorter_than size (negsuc n) = true

-- The rounds of `while (size < n)`, each of which makes a vector longer by one.
unfoldable pub missing : ℕ → ℤ → Option ℕ
missing size (pos n) = some (n - size)
missing size (negsuc n) = none

-- `vector::at`
abbrev pub at_index {ℓ} : {A : Type ℓ} → List A → ℤ → Option A
at_index xs (pos n) = get_elem? xs n
at_index xs (negsuc n) = none

-- An assignment through `vector::at`.
unfoldable pub set_at {ℓ} : {A : Type ℓ} → List A → ℤ → A → Option (List A)
set_at xs (pos n) x = get_elem? xs n >>= λ old. some (set xs n x)
set_at xs (negsuc n) x = none

unfoldable pub push_backs {ℓ} : {A : Type ℓ} → ℕ → A → List A → List A
push_backs zero x xs = xs
push_backs (suc rounds) x xs = push_backs rounds x (xs ++ x ∷ [])

abbrev pub not_final : Bytes
not_final = codes "X"

-- Behind the test for the row: the test for the column, and the value.
unfoldable pub get_in_row : ResultMatrix → ℤ → ℤ → Option Bytes
unfolding plus_one number_to_string
get_in_row m row col = do
  cells ← at_index m.result_matrix row
  columns ← plus_one col
  let shown = do
    flags ← at_index m.final_value row
    final ← at_index flags col
    value ← at_index cells col
    if final then number_to_string i64_bound value else some not_final
  if shorter_than (length cells) columns then some not_final else shown

unfoldable pub get_result : ResultMatrix → ℤ → ℤ → Option Bytes
unfolding plus_one get_in_row
get_result m row col = do
  rows ← plus_one row
  if shorter_than (length m.result_matrix) rows then some not_final else get_in_row m row col

-- The assignments at the end, on the vectors that are long enough: `+=` of a `long long` to an `int`.
unfoldable pub store_value :
    ResultMatrix → ℤ → ℤ → ℤ → Bool → List ℤ → List Bool → Option ResultMatrix
unfolding set_at add_i64 to_i32
store_value m value row col value_final cells flags = do
  old ← at_index cells col
  stored ← add_i64 old value
  cells' ← set_at cells col (to_i32 stored)
  values ← set_at m.result_matrix row cells'
  flags' ← if value_final then set_at flags col true else some flags
  finals ← set_at m.final_value row flags'
  some (record m { result_matrix = values; final_value = finals })

unfoldable pub add_result : ResultMatrix → ℤ → ℤ → ℤ → Bool → Option ResultMatrix
unfolding plus_one missing push_backs store_value
add_result m value row col value_final = do
  rows ← plus_one row
  new_rows ← missing (length m.result_matrix) rows
  let values = push_backs new_rows [] m.result_matrix
  let finals = push_backs new_rows [] m.final_value
  columns ← plus_one col
  cells ← at_index values row
  new_columns ← missing (length cells) columns
  flags ← at_index finals row
  store_value (record m { result_matrix = values; final_value = finals }) value row col value_final
      (push_backs new_columns (pos 0) cells) (push_backs new_columns false flags)
