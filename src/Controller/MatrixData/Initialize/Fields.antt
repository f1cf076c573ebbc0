-- ===== src/Controller/MatrixData/Initialize/Fields.antt =====
-- The fields that `initialize` of Controller/MatrixData.h goes through: each in range, and none twice.
use distributed_matrix_multi.Prelude.{
  ℕ, zero, suc, ◌+◌, ◌*◌, ◌≤◌, ◌<◌, ◌≡◌, refl, ap, sym, subst, ◌⊎◌, inl, inr, List, [], ◌∷◌, ◌++◌,
  arith, In, In-append_left, Distinct, length, length-append,
}
use native.Mathlib.Nat.{add-zero, zero-add}
use distributed_matrix_multi.Controller.MatrixData.State.{ResultField}
use distributed_matrix_multi.Controller.MatrixData.Plan.Defs.{Settings}
use distributed_matrix_multi.Controller.MatrixData.Initialize.Defs.{
  fields_of_row, fields_of_matrix, fields_from, all_fields,
}

module _ {ℓ} {A : Type ℓ} where
  In-append_cases : (a : A) (xs ys : List A) → In a (xs ++ ys) → In a xs ⊎ In a ys
  In-append_cases a [] ys h = inr h
  In-append_cases a (x ∷ xs) ys (inl e) = inl (inl e)
  In-append_cases a (x ∷ xs) ys (inr h) = elim (In-append_cases a xs ys h) [
    | inl left ↦ inl (inr left)
    | inr right ↦ inr right
  ]

  Distinct-append :
      (xs ys : List A)
      → Distinct xs
      → Distinct ys
      → ((a : A) → In a xs → ¬ In a ys)
      → Distinct (xs ++ ys)
  Distinct-append [] ys dx dy apart = dy
  Distinct-append (x ∷ xs) ys dx dy apart = (
    λ h. elim (In-append_cases x xs ys h) [
      | inl left ↦ dx.0 left
      | inr right ↦ apart x (inl refl) right
    ],
    Distinct-append xs ys dx.1 dy (λ a h. apart a (inr h)),
  )

In-fields_of_row :
    (f : ResultField) (m r c n : ℕ)
    → In f (fields_of_row m r c n)
    → (f.result_matrix ≡ m) × (f.row ≡ r) × (c ≤ f.col) × (f.col < c + n)
unfolding fields_of_row
In-fields_of_row f m r c zero h = elim h [ ]
In-fields_of_row f m r c (suc n) (inl e) =
    let col = ap (λ (g : ResultField). g.col) e in
    (
      ap (λ (g : ResultField). g.result_matrix) e,
      ap (λ (g : ResultField). g.row) e,
      omega arith,
      omega arith,
    )
In-fields_of_row f m r c (suc n) (inr h) =
    let ih = In-fields_of_row f m r (c + 1) n h in (ih.0, ih.1, omega arith, omega arith)

In-fields_of_matrix :
    (f : ResultField) (cols m r n : ℕ)
    → In f (fields_of_matrix cols m r n)
    → (f.result_matrix ≡ m) × (r ≤ f.row) × (f.row < r + n) × (f.col < cols)
unfolding fields_of_matrix
In-fields_of_matrix f cols m r zero h = elim h [ ]
In-fields_of_matrix f cols m r (suc n) h =
    elim (In-append_cases f (fields_of_row m r 0 cols) (fields_of_matrix cols m (r + 1) n) h) [
      | inl here ↦
          let b = In-fields_of_row f m r 0 cols here in (b.0, omega arith, omega arith, omega arith)
      | inr later ↦
          let ih = In-fields_of_matrix f cols m (r + 1) n later in
          (ih.0, omega arith, omega arith, ih.3)
    ]

In-fields_from :
    (f : ResultField) (rows cols m n : ℕ)
    → In f (fields_from rows cols m n)
    → (m ≤ f.result_matrix) × (f.result_matrix < m + n) × (f.row < rows) × (f.col < cols)
unfolding fields_from
In-fields_from f rows cols m zero h = elim h [ ]
In-fields_from f rows cols m (suc n) h =
    elim (In-append_cases f (fields_of_matrix cols m 0 rows) (fields_from rows cols (m + 1) n) h) [
      | inl here ↦
          let b = In-fields_of_matrix f cols m 0 rows here in
          (omega arith, omega arith, omega arith, b.3)
      | inr later ↦
          let ih = In-fields_from f rows cols (m + 1) n later in
          (omega arith, omega arith, ih.2, ih.3)
    ]

fields_of_row-Distinct : (m r c n : ℕ) → Distinct (fields_of_row m r c n)
unfolding fields_of_row
fields_of_row-Distinct m r c zero = tt
fields_of_row-Distinct m r c (suc n) = (
  λ h.
      let b = In-fields_of_row (record { result_matrix = m; row = r; col = c }) m r (c + 1) n h in
      absurd (omega arith),
  fields_of_row-Distinct m r (c + 1) n,
)

fields_of_matrix-Distinct : (cols m r n : ℕ) → Distinct (fields_of_matrix cols m r n)
unfolding fields_of_matrix
fields_of_matrix-Distinct cols m r zero = tt
fields_of_matrix-Distinct cols m r (suc n) =
    Distinct-append (fields_of_row m r 0 cols) (fields_of_matrix cols m (r + 1) n)
      (fields_of_row-Distinct m r 0 cols) (fields_of_matrix-Distinct cols m (r + 1) n)
      (λ f here later.
        let b = In-fields_of_row f m r 0 cols here in
        let b' = In-fields_of_matrix f cols m (r + 1) n later in absurd (omega arith))

fields_from-Distinct : (rows cols m n : ℕ) → Distinct (fields_from rows cols m n)
unfolding fields_from
fields_from-Distinct rows cols m zero = tt
fields_from-Distinct rows cols m (suc n) =
    Distinct-append (fields_of_matrix cols m 0 rows) (fields_from rows cols (m + 1) n)
      (fields_of_matrix-Distinct cols m 0 rows) (fields_from-Distinct rows cols (m + 1) n)
      (λ f here later.
        let b = In-fields_of_matrix f cols m 0 rows here in
        let b' = In-fields_from f rows cols (m + 1) n later in absurd (omega arith))

length-fields_of_row : (m r c n : ℕ) → length (fields_of_row m r c n) ≡ n
unfolding fields_of_row
length-fields_of_row m r c zero = refl
length-fields_of_row m r c (suc n) = ap suc (length-fields_of_row m r (c + 1) n)

length-fields_of_matrix : (cols m r n : ℕ) → length (fields_of_matrix cols m r n) ≡ n * cols
unfolding fields_of_matrix
length-fields_of_matrix cols m r zero = omega arith
length-fields_of_matrix cols m r (suc n) = omega (
  arith,
  length-append (fields_of_row m r 0 cols) (fields_of_matrix cols m (r + 1) n),
  length-fields_of_row m r 0 cols,
  length-fields_of_matrix cols m (r + 1) n,
)

length-fields_from : (rows cols m n : ℕ) → length (fields_from rows cols m n) ≡ rows * cols * n
unfolding fields_from
length-fields_from rows cols m zero = omega arith
length-fields_from rows cols m (suc n) = omega (
  arith,
  length-append (fields_of_matrix cols m 0 rows) (fields_from rows cols (m + 1) n),
  length-fields_of_matrix cols m 0 rows,
  length-fields_from rows cols (m + 1) n,
)

In-append_right : {A : Type 0} (a : A) (xs ys : List A) → In a ys → In a (xs ++ ys)
In-append_right a [] ys h = h
In-append_right a (x ∷ xs) ys h = inr (In-append_right a xs ys h)

fields_of_row-In :
    (m r c n k : ℕ)
    → k < n
    → In (record { result_matrix = m; row = r; col = c + k }) (fields_of_row m r c n)
unfolding fields_of_row
fields_of_row-In m r c zero k h = absurd (omega arith)
fields_of_row-In m r c (suc n) zero h =
    inl (ap (λ x. record { result_matrix = m; row = r; col = x }) (add-zero c))
fields_of_row-In m r c (suc n) (suc k) h =
    let shift : c + suc k ≡ c + 1 + k = omega arith in
    inr (
      subst (λ x. In (record { result_matrix = m; row = r; col = x }) (fields_of_row m r (c + 1) n))
        (sym shift) (fields_of_row-In m r (c + 1) n k (omega arith)))

fields_of_matrix-In :
    (cols m r n k j : ℕ)
    → k < n
    → j < cols
    → In (record { result_matrix = m; row = r + k; col = j }) (fields_of_matrix cols m r n)
unfolding fields_of_matrix
fields_of_matrix-In cols m r zero k j h l = absurd (omega arith)
fields_of_matrix-In cols m r (suc n) zero j h l =
    In-append_left _ (fields_of_row m r 0 cols) (fields_of_matrix cols m (r + 1) n)
      (rw add-zero (rw zero-add at (fields_of_row-In m r 0 cols j l)))
fields_of_matrix-In cols m r (suc n) (suc k) j h l =
    let shift : r + suc k ≡ r + 1 + k = omega arith in
    In-append_right _ (fields_of_row m r 0 cols) (fields_of_matrix cols m (r + 1) n)
      (rw shift (fields_of_matrix-In cols m (r + 1) n k j (omega arith) l))

fields_from-In :
    (rows cols m n k i j : ℕ)
    → k < n
    → i < rows
    → j < cols
    → In (record { result_matrix = m + k; row = i; col = j }) (fields_from rows cols m n)
unfolding fields_from
fields_from-In rows cols m zero k i j h p q = absurd (omega arith)
fields_from-In rows cols m (suc n) zero i j h p q =
    In-append_left _ (fields_of_matrix cols m 0 rows) (fields_from rows cols (m + 1) n)
      (rw add-zero (rw zero-add at (fields_of_matrix-In cols m 0 rows i j p q)))
fields_from-In rows cols m (suc n) (suc k) i j h p q =
    let shift : m + suc k ≡ m + 1 + k = omega arith in
    In-append_right _ (fields_of_matrix cols m 0 rows) (fields_from rows cols (m + 1) n)
      (rw shift (fields_from-In rows cols (m + 1) n k i j (omega arith) p q))

-- The field lies in one of the result matrices.
pub record IsInside (s : Settings) (f : ResultField) : Type 0 where
  pub matrix_inside : f.result_matrix < s.number_matrices
  pub row_inside : f.row < s.a_rows
  pub col_inside : f.col < s.b_cols

pub all_fields-IsInside : (s : Settings) (f : ResultField) → In f (all_fields s) → IsInside s f
unfolding all_fields
all_fields-IsInside s f h =
    let b = In-fields_from f s.a_rows s.b_cols 0 s.number_matrices h in
    record { matrix_inside = omega arith; row_inside = b.2; col_inside = b.3 }

pub all_fields-Distinct : (s : Settings) → Distinct (all_fields s)
unfolding all_fields
all_fields-Distinct s = fields_from-Distinct s.a_rows s.b_cols 0 s.number_matrices

pub length-all_fields :
    (s : Settings) → length (all_fields s) ≡ s.a_rows * s.b_cols * s.number_matrices
unfolding all_fields
length-all_fields s = length-fields_from s.a_rows s.b_cols 0 s.number_matrices

pub IsInside-all_fields : (s : Settings) (f : ResultField) → IsInside s f → In f (all_fields s)
unfolding all_fields
IsInside-all_fields s f h = rw zero-add at (
    fields_from-In s.a_rows s.b_cols 0 s.number_matrices f.result_matrix f.row f.col h.matrix_inside
      h.row_inside h.col_inside)
