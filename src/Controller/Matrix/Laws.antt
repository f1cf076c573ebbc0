-- ===== src/Controller/Matrix/Laws.antt =====
-- Reads and writes of Controller/Matrix.h: what a write changes, and that it keeps the sizes.
use distributed_matrix_multi.Prelude.{
  ℕ, zero, suc, ◌<◌, ◌≡◌, refl, ap, subst, ◌∙◌, ◌≢◌, none, some, List, [], ◌∷◌, ◌>>=◌, >>=-eq-some,
  arith, length, get_elem?, length-set, get_elem?-set_self, get_elem?-set_ne, All, length-replicate,
  replicate,
}
use distributed_matrix_multi.Prelude.{set as set_elem}
use mathlib.Core.Option.{some_inj}
use distributed_matrix_multi.Controller.Matrix.{Matrix, new_matrix, at, set, IsMatrix}

module _ {ℓ} {A : Type ℓ} where
  -- An index below the length finds an element.
  pub get_elem?_total : (xs : List A) (i : ℕ) → i < length xs → (x : A) × (get_elem? xs i ≡ some x)
  get_elem?_total [] i h = elim h [ ]
  get_elem?_total (x ∷ xs) zero h = (x, refl)
  get_elem?_total (x ∷ xs) (suc i) h = get_elem?_total xs i (omega arith)

  pub lt-length : (xs : List A) (i : ℕ) {x : A} → get_elem? xs i ≡ some x → i < length xs
  lt-length [] i e = cc
  lt-length (x ∷ xs) zero e = omega arith
  lt-length (x ∷ xs) (suc i) e = omega (arith, lt-length xs i e)

  pub All-get_elem? {κ} :
      (P : A → Type κ) (xs : List A) (i : ℕ) {x : A} → All P xs → get_elem? xs i ≡ some x → P x
  All-get_elem? P [] i h e = cc
  All-get_elem? P (y ∷ xs) zero {x} h e = subst P (ap (λ o. elim o [ none ↦ y | some a ↦ a ]) e) h.0
  All-get_elem? P (y ∷ xs) (suc i) h e = All-get_elem? P xs i h.1 e

  pub All-set {κ} :
      (P : A → Type κ) (xs : List A) (i : ℕ) (v : A) → All P xs → P v → All P (set_elem xs i v)
  All-set P [] i v h p = tt
  All-set P (y ∷ xs) zero v h p = (p, h.1)
  All-set P (y ∷ xs) (suc i) v h p = (h.0, All-set P xs i v h.1 p)

  pub All-replicate {κ} : (P : A → Type κ) (n : ℕ) (v : A) → P v → All P (replicate n v)
  All-replicate P zero v p = tt
  All-replicate P (suc n) v p = (p, All-replicate P n v p)

-- What a write to a cell gives: the new value there, the old ones elsewhere, the same sizes.
pub record Written {ℓ} {A : Type ℓ} (m m' : Matrix A) (row column : ℕ) (val : A) : Type ℓ where
  pub self : at m' row column ≡ some val
  pub other_row : (r c : ℕ) → row ≢ r → at m' r c ≡ at m r c
  pub other_column : (c : ℕ) → column ≢ c → at m' row c ≡ at m row c
  pub same_rows : m'.rows ≡ m.rows
  pub same_columns : m'.columns ≡ m.columns
  pub sized : IsMatrix m → IsMatrix m'

module _ {ℓ} {A : Type ℓ} where
  pub at_total :
      (m : Matrix A) (r c : ℕ)
      → IsMatrix m
      → r < m.rows
      → c < m.columns
      → (x : A) × (at m r c ≡ some x)
  unfolding at
  at_total m r c w hr hc =
      let (cells, e) = get_elem?_total m.cells r (omega (arith, w.row_count)) in
      let (x, e') =
        get_elem?_total cells c (omega (arith, All-get_elem? _ m.cells r w.row_sizes e)) in
      (x, rw e e')

  pub set_total :
      (m : Matrix A) (r c : ℕ) (v : A) {x : A}
      → at m r c ≡ some x
      → (m' : Matrix A) × (set m r c v ≡ some m')
  unfolding at set
  set_total m r c v e =
      let (cells, e1, e2) = >>=-eq-some (get_elem? m.cells r) (λ cells. get_elem? cells c) e in
      (record m { cells = set_elem m.cells r (set_elem cells c v) }, rw (e1, ◌>>=◌, e2, ◌>>=◌) refl)

  set_cells-Written :
      (m : Matrix A) (r c : ℕ) (v : A) (cells : List A) {x : A}
      → get_elem? m.cells r ≡ some cells
      → get_elem? cells c ≡ some x
      → Written m (record m { cells = set_elem m.cells r (set_elem cells c v) }) r c v
  unfolding at
  set_cells-Written m r c v cells e1 e2 = record {
    self =
        rw (get_elem?-set_self m.cells r (set_elem cells c v) (lt-length m.cells r e1), ◌>>=◌)
          (get_elem?-set_self cells c v (lt-length cells c e2));
    other_row = λ r' c' ne. rw (get_elem?-set_ne m.cells (set_elem cells c v) ne) refl;
    other_column = λ c' ne.
        rw (get_elem?-set_self m.cells r (set_elem cells c v) (lt-length m.cells r e1), ◌>>=◌)
          (get_elem?-set_ne cells v ne ∙ rw e1 refl);
    same_rows = refl;
    same_columns = refl;
    sized = λ w. record {
      row_count = length-set m.cells r _ ∙ w.row_count;
      row_sizes =
          All-set _ m.cells r (set_elem cells c v) w.row_sizes
            (length-set cells c v ∙ All-get_elem? _ m.cells r w.row_sizes e1);
    };
  }

  -- A write that succeeds changes exactly its cell.
  pub set-Written : (m m' : Matrix A) (r c : ℕ) (v : A) → set m r c v ≡ some m' → Written m m' r c v
  unfolding set
  set-Written m m' r c v e =
      let (cells, e1, rest) =
        >>=-eq-some (get_elem? m.cells r)
          (λ cells. get_elem? cells c >>= λ old.
            some (record m { cells = set_elem m.cells r (set_elem cells c v) }))
          e in
      let (old, e2, e3) =
        >>=-eq-some (get_elem? cells c)
          (λ old. some (record m { cells = set_elem m.cells r (set_elem cells c v) })) rest in
      subst (λ (o : Matrix A). Written m o r c v) (some_inj.0 e3)
        (set_cells-Written m r c v cells e1 e2)

  pub new_matrix-IsMatrix : (rows columns : ℕ) (v : A) → IsMatrix (new_matrix rows columns v)
  unfolding new_matrix
  new_matrix-IsMatrix rows columns v = record {
    row_count = length-replicate rows _;
    row_sizes = All-replicate _ rows _ (length-replicate columns v);
  }
