-- ===== src/Controller/MatrixData/Plan/Covers.antt =====
-- The chunks of Controller/MatrixData.h cover a row: what `createTasks` needs of the division that
-- `prepareTasks` chose, stated for the chunks that are left at any round of its loop.
use distributed_matrix_multi.Prelude.{
  ℕ, zero, suc, ◌+◌, ◌-◌, ◌*◌, ◌/◌, ◌%◌, ◌≤◌, ◌<◌, ◌≡◌, refl, inl, inr, sym, ◌∙◌, subst, Bool, true,
  false, ◌||◌, none, some, arith, ltb, ◌==◌, Bool-cases, ltb→lt,
}
use mathlib.Core.Option.{some_inj}
use native.Mathlib.Numerals.{add-one}
use distributed_matrix_multi.Controller.MatrixData.Plan.Defs.{
  Chunking, spread, place_remainder, split_row, initial_chunk_size, even_row, whole_row,
  choose_chunking,
}
use distributed_matrix_multi.Controller.MatrixData.Plan.Float.{below_fraction}

-- `rounds` chunks of the loop are left, `remaining` values are to be spread or to be the last chunk,
-- and the loop stands at `index` in a row of `a_cols` values.
abbrev pub FitsIn : Bool → ℕ → ℕ → ℕ → ℕ → ℕ → Type 0
FitsIn false size rounds remaining index a_cols =
    (remaining ≤ rounds) × (index + rounds * size + remaining ≡ a_cols)
FitsIn true size zero remaining index a_cols = (0 < remaining) × (index ≡ a_cols)
FitsIn true size (suc rounds) remaining index a_cols =
    (0 < remaining) × (index + rounds * size + remaining ≡ a_cols)

abbrev pub Fits : Chunking → ℕ → ℕ → ℕ → ℕ → Type 0
Fits c = FitsIn c.remainder_chunk c.chunk_size

abbrev pub Covers : Chunking → ℕ → Type 0
Covers c a_cols = Fits c c.chunks_per_row c.remaining_chunk_size 0 a_cols

-- The loop ends by its test, keeps the number of values, and makes no chunk larger than the values
-- that there were to spread allow.
pub record Spread (chunks size remaining : ℕ) (result : ℕ × ℕ) : Type 0 where
  pub ended : result.1 ≤ chunks
  pub kept : chunks * result.0 + result.1 ≡ chunks * size + remaining
  pub bounded : result.0 + result.1 ≤ size + remaining

pub spread-Spread :
    (fuel chunks size remaining : ℕ)
    → 0 < chunks
    → remaining ≤ fuel
    → Spread chunks size remaining (spread fuel chunks size remaining)
unfolding spread
spread-Spread zero chunks size remaining h k = record {
  ended = omega arith;
  kept = refl;
  bounded = omega arith;
}
spread-Spread (suc fuel) chunks size remaining h k = elim (Bool-cases (ltb chunks remaining)) [
  | inr done ↦ rw done (record { ended = grind (arith); kept = refl; bounded = omega arith })
  | inl more ↦
      let lt = ltb→lt chunks remaining more in
      let ih = spread-Spread fuel chunks (size + 1) (remaining - chunks) h (omega arith) in
      rw more (record {
        ended = ih.ended;
        kept = omega (arith, ih.kept);
        bounded = omega (arith, ih.bounded);
      })
]

place_remainder-Covers :
    (chunks size remaining : ℕ)
    → 0 < chunks
    → 0 < remaining
    → Covers (place_remainder chunks size remaining) (chunks * size + remaining)
unfolding place_remainder
place_remainder-Covers chunks size remaining h k =
    let s = spread-Spread remaining chunks size remaining h (omega arith) in
    elim (Bool-cases (below_fraction remaining size)) [
      | inl spreads ↦ rw spreads (s.ended, omega (arith, s.kept))
      | inr apart ↦ rw (apart, add-one) (k, omega arith)
    ]

-- A chunk size that is positive and fits into the row divides it without a fault.
pub split_row-Covers :
    (a_cols size : ℕ)
    → 0 < size
    → size ≤ a_cols
    → (c : Chunking) × (split_row a_cols size ≡ some c) × Covers c a_cols
unfolding split_row
split_row-Covers a_cols size h k =
    let q = a_cols / size in
    let r = a_cols % size in
    let whole : q * size + r ≡ a_cols = grind arith in
    let some_chunk : 0 < q = grind arith in
    let nonzero : (size == 0) ≡ false = ground arith in
    elim (Bool-cases (ltb 0 r)) [
      | inl left ↦ (
        place_remainder q size r,
        rw (nonzero, left) refl,
        subst (λ n. Covers (place_remainder q size r) n) whole
            (place_remainder-Covers q size r some_chunk (ltb→lt 0 r left)),
      )
      | inr even ↦ (even_row q size, rw (nonzero, even) refl, (omega arith, ground (arith, whole)))
    ]

-- Whatever comes out of the branch that splits covers the row.
split_row-eq-Covers :
    (a_cols size : ℕ) {c : Chunking}
    → size ≤ a_cols
    → split_row a_cols size ≡ some c
    → Covers c a_cols
split_row-eq-Covers a zero h e = unfold split_row in cc
split_row-eq-Covers a (suc size) h e =
    let (c, found, covers) = split_row-Covers a (suc size) (omega arith) h in
    subst (λ d. Covers d a) (some_inj.0 (sym found ∙ e)) covers

pub initial_chunk_size-le :
    (a_cols max_chunk_size per_worker : ℕ)
    → (initial_chunk_size a_cols max_chunk_size per_worker ≤ a_cols)
      × (initial_chunk_size a_cols max_chunk_size per_worker ≤ max_chunk_size)
unfolding initial_chunk_size
initial_chunk_size-le a m p = ground arith

initial_chunk_size_pos :
    (a_cols max_chunk_size per_worker : ℕ)
    → 0 < a_cols
    → 0 < max_chunk_size
    → 0 < per_worker
    → 0 < initial_chunk_size a_cols max_chunk_size per_worker
unfolding initial_chunk_size
initial_chunk_size_pos a m p h k l = ground arith

module _ (a_cols max_chunk_size per_worker : ℕ) where
  abbrev first_size : ℕ
  first_size = initial_chunk_size a_cols max_chunk_size per_worker

  -- The branch that splits gets a positive chunk size unless MAX_CHUNK_SIZE is zero.
  pub choose_chunking_total :
      0 < max_chunk_size
      → 0 < per_worker
      → (c : Chunking) × (choose_chunking a_cols max_chunk_size per_worker ≡ some c)
  unfolding choose_chunking
  choose_chunking_total h k =
      elim (Bool-cases (ltb per_worker a_cols || ltb max_chunk_size a_cols)) [
        | inr whole ↦ (whole_row a_cols, rw whole refl)
        | inl splits ↦
            let pos = initial_chunk_size_pos a_cols max_chunk_size per_worker (ground arith) h k in
            let le = initial_chunk_size-le a_cols max_chunk_size per_worker in
            let (c, e, _) = split_row-Covers a_cols first_size pos le.0 in (c, rw splits e)
      ]

  -- The chunks chosen cover the row.
  pub choose_chunking-Covers :
      {c : Chunking} → choose_chunking a_cols max_chunk_size per_worker ≡ some c → Covers c a_cols
  unfolding choose_chunking
  choose_chunking-Covers e =
      elim (Bool-cases (ltb per_worker a_cols || ltb max_chunk_size a_cols)) [
        | inr whole ↦
            subst (λ d. Covers d a_cols) (some_inj.0 (rw whole at e)) (omega arith, omega arith)
        | inl splits ↦
            split_row-eq-Covers a_cols first_size
              (initial_chunk_size-le a_cols max_chunk_size per_worker).0 (rw splits at e)
      ]

  -- A division by zero is met exactly when MAX_CHUNK_SIZE is zero and a row has to be split.
  pub choose_chunking_fault :
      max_chunk_size ≡ 0 → 0 < a_cols → choose_chunking a_cols max_chunk_size per_worker ≡ none
  unfolding choose_chunking initial_chunk_size split_row
  choose_chunking_fault e h = ground arith

  pub choose_chunking_empty :
      a_cols ≡ 0 → choose_chunking a_cols max_chunk_size per_worker ≡ some (whole_row a_cols)
  unfolding choose_chunking
  choose_chunking_empty e = ground arith
