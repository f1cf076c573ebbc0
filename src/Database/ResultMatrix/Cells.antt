-- ===== src/Database/ResultMatrix/Cells.antt =====
-- The cells of a result matrix as a function of the position, with the defaults that
-- Database/ResultMatrix.h fills in: what the loops of `addResult` do not change.
use distributed_matrix_multi.Prelude.{
  ℕ, zero, suc, ◌+◌, ◌≤◌, ◌<◌, ◌≡◌, refl, ◌∙◌, Bool, false, List, [], ◌∷◌, ◌++◌, arith, ℤ, pos,
  some, length, length-append, get_elem?, get_or, set, ◌==◌, if◌then◌else◌,
}
use distributed_matrix_multi.Database.ResultMatrix.Defs.{ResultMatrix, push_backs}

-- The stored value and the flag at a position; zero and false where nothing was stored.
unfoldable pub value_at : ResultMatrix → ℕ → ℕ → ℤ
value_at m r c = get_or (get_or m.result_matrix r []) c (pos 0)

unfoldable pub final_at : ResultMatrix → ℕ → ℕ → Bool
final_at m r c = get_or (get_or m.final_value r []) c false

module _ {ℓ} {A : Type ℓ} where
  pub length-push_backs : (n : ℕ) (x : A) (xs : List A) → length (push_backs n x xs) ≡ length xs + n
  unfolding push_backs
  length-push_backs zero x xs = omega arith
  length-push_backs (suc n) x xs =
      omega (arith, length-push_backs n x (xs ++ x ∷ []), length-append xs (x ∷ []))

  get_or-append_default : (xs : List A) (i : ℕ) (d : A) → get_or (xs ++ d ∷ []) i d ≡ get_or xs i d
  get_or-append_default [] zero d = refl
  get_or-append_default [] (suc i) d = refl
  get_or-append_default (x ∷ xs) zero d = refl
  get_or-append_default (x ∷ xs) (suc i) d = get_or-append_default xs i d

  pub get_or-push_backs :
      (n : ℕ) (d : A) (xs : List A) (i : ℕ) → get_or (push_backs n d xs) i d ≡ get_or xs i d
  unfolding push_backs
  get_or-push_backs zero d xs i = refl
  get_or-push_backs (suc n) d xs i =
      get_or-push_backs n d (xs ++ d ∷ []) i ∙ get_or-append_default xs i d

  pub get_elem?-get_or :
      (xs : List A) (i : ℕ) (d : A) → i < length xs → get_elem? xs i ≡ some (get_or xs i d)
  get_elem?-get_or [] i d h = elim h [ ]
  get_elem?-get_or (x ∷ xs) zero d h = refl
  get_elem?-get_or (x ∷ xs) (suc i) d h = get_elem?-get_or xs i d (omega arith)

  pub get_or-outside : (xs : List A) (i : ℕ) (d : A) → length xs ≤ i → get_or xs i d ≡ d
  get_or-outside [] i d h = refl
  get_or-outside (x ∷ xs) zero d h = absurd (omega arith)
  get_or-outside (x ∷ xs) (suc i) d h = get_or-outside xs i d (omega arith)

  pub get_or-set :
      (xs : List A) (i j : ℕ) (v d : A)
      → i < length xs
      → get_or (set xs i v) j d ≡ (if j == i then v else get_or xs j d)
  get_or-set [] i j v d h = elim h [ ]
  get_or-set (x ∷ xs) zero zero v d h = refl
  get_or-set (x ∷ xs) zero (suc j) v d h =
      let other : (suc j == 0) ≡ false = ground arith in rw other refl
  get_or-set (x ∷ xs) (suc i) zero v d h =
      let other : (0 == suc i) ≡ false = ground arith in rw other refl
  get_or-set (x ∷ xs) (suc i) (suc j) v d h =
      let same : (suc j == suc i) ≡ (j == i) = ground arith in
      rw same (get_or-set xs i j v d (omega arith))
