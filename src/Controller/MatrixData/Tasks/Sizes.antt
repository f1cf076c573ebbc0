-- ===== src/Controller/MatrixData/Tasks/Sizes.antt =====
-- How long a chunk of Controller/MatrixData.h can be: its comment says that MAX_CHUNK_SIZE can get
-- slightly exceeded, and this says by how much.
use mathlib.Core.Option.{some_inj, none-ne-some}
use distributed_matrix_multi.Prelude.{
  ℕ, zero, suc, ◌+◌, ◌*◌, ◌/◌, ◌%◌, ◌^◌, ◌≤◌, ◌<◌, ◌≡◌, refl, ap, ◌∙◌, subst, Bool, true, false,
  ◌||◌, inl, inr, some, List, >>=-eq-some, arith, ltb, leb, ◌==◌, Bool-cases, length, get_elem?,
  drop, length-take, All, ℤ,
}
use distributed_matrix_multi.Rpc.Task.{RpcMatrixTask}
use distributed_matrix_multi.Controller.Matrix.{Matrix, get_row_array, get_col_array}
use distributed_matrix_multi.Controller.MatrixData.Plan.Float.{below_fraction, below_fraction_iff}
use distributed_matrix_multi.Controller.MatrixData.Plan.Defs.{
  Settings, Chunking, Plan, place_remainder, split_row, initial_chunk_size, choose_chunking,
  prepare_tasks,
}
use distributed_matrix_multi.Controller.MatrixData.Plan.Covers.{
  spread-Spread, initial_chunk_size-le,
}
use distributed_matrix_multi.Controller.MatrixData.Plan.Prepare.{prepare_tasks_chunking}
use distributed_matrix_multi.Controller.MatrixData.Tasks.Defs.{
  next_chunk, FieldOf, make_task, make_chunks, field_tasks,
}

-- At most one seventh more than `m`.
abbrev pub SlightlyOver : ℕ → ℕ → Type 0
SlightlyOver m size = 7 * size ≤ 8 * m

-- Every chunk that the loop can still make is at most slightly over `m`.
abbrev pub BoundIn : Bool → ℕ → ℕ → ℕ → Type 0
BoundIn true m size remaining = SlightlyOver m size × SlightlyOver m remaining
BoundIn false m size remaining = SlightlyOver m size × (0 < remaining → SlightlyOver m (size + 1))

abbrev Bound : ℕ → Chunking → Type 0
Bound m c = BoundIn c.remainder_chunk m c.chunk_size c.remaining_chunk_size

place_remainder-Bound :
    (chunks size remaining m : ℕ)
    → 0 < chunks
    → remaining < size
    → size ≤ m
    → m < 2 ^ 24
    → Bound m (place_remainder chunks size remaining)
unfolding place_remainder
place_remainder-Bound chunks size remaining m h k l fit =
    elim (Bool-cases (below_fraction remaining size)) [
      | inr apart ↦ rw apart (omega arith, omega arith)
      | inl spreads ↦
          let s = spread-Spread remaining chunks size remaining h (omega arith) in
          let few = (below_fraction_iff remaining size k (omega arith)).0 spreads in
          rw spreads (omega (arith, s.bounded), λ left. omega (arith, s.bounded))
    ]

split_row-Bound :
    (a_cols size m : ℕ) {c : Chunking}
    → size ≤ a_cols
    → size ≤ m
    → m < 2 ^ 24
    → split_row a_cols size ≡ some c
    → Bound m c
unfolding split_row
split_row-Bound a zero m h k fit e = cc
split_row-Bound a (suc size) m h k fit e =
    let nonzero : (suc size == 0) ≡ false = ground arith in
    elim (Bool-cases (ltb 0 (a % suc size))) [
      | inl left ↦ subst (Bound m) (some_inj.0 (rw (nonzero, left) at e)) (
          place_remainder-Bound (a / suc size) (suc size) (a % suc size) m (grind arith)
            (grind arith) k fit)
      | inr even ↦
          subst (Bound m) (some_inj.0 (rw (nonzero, even) at e))
            (omega arith, λ none_left. omega arith)
    ]

choose_chunking-Bound :
    (a_cols m per_worker : ℕ) {c : Chunking}
    → m < 2 ^ 24
    → choose_chunking a_cols m per_worker ≡ some c
    → Bound m c
unfolding choose_chunking
choose_chunking-Bound a m p fit e = elim (Bool-cases (ltb p a || ltb m a)) [
  | inr whole ↦
      subst (Bound m) (some_inj.0 (rw whole at e)) (ground arith, λ none_left. omega arith)
  | inl splits ↦
      let le = initial_chunk_size-le a m p in
      split_row-Bound a (initial_chunk_size a m p) m le.0 le.1 fit (rw splits at e)
]

length-get_row_array :
    (m : Matrix ℤ) (row start_col len : ℕ) {xs : List ℤ}
    → get_row_array m row start_col len ≡ some (some xs)
    → length xs ≤ len
unfolding get_row_array
length-get_row_array m row start_col len {xs} e =
    elim (Bool-cases (leb (start_col + len) m.columns)) [
      | inr outside ↦ absurd (none-ne-some xs (some_inj.0 (rw outside at e)))
      | inl inside ↦
          let (cells, _, cut) = >>=-eq-some (get_elem? m.cells row) _ (rw inside at e) in
          omega
            (arith, length-take len (drop start_col cells), ap length (some_inj.0 (some_inj.0 cut)))
    ]

length-make_task :
    (f : FieldOf) (index size : ℕ) {t : RpcMatrixTask}
    → make_task f index size ≡ some t
    → length t.matrix_chunk_a ≤ size
unfolding make_task
length-make_task f index size e =
    let (chunk_a, ea, rest) = >>=-eq-some (get_row_array f.matrix_a f.row index size) _ e in
    let (chunk_b, _, rest_b) = >>=-eq-some (get_col_array f.matrix_b f.col index size) _ rest in
    let (values_a, va, rest_a) = >>=-eq-some chunk_a _ rest_b in
    let (values_b, _, made) = >>=-eq-some chunk_b _ rest_a in
    let short = length-get_row_array f.matrix_a f.row index size (ea ∙ ap some va) in
    subst (λ (u : RpcMatrixTask). length u.matrix_chunk_a ≤ size) (some_inj.0 made) short

next_chunk-BoundIn :
    (c : Chunking) (b : Bool) (m chunk remaining : ℕ)
    → c.remainder_chunk ≡ b
    → BoundIn b m c.chunk_size remaining
    → SlightlyOver m (next_chunk c chunk remaining).0
      × BoundIn b m c.chunk_size (next_chunk c chunk remaining).1
unfolding next_chunk
next_chunk-BoundIn c true m chunk remaining e h = ground arith
next_chunk-BoundIn c false m chunk remaining e h = ground (arith, h.1)

make_chunks-SlightlyOver :
    (c : Chunking) (f : FieldOf) (m rounds chunk remaining index : ℕ) {ts : List RpcMatrixTask}
    → BoundIn c.remainder_chunk m c.chunk_size remaining
    → make_chunks rounds c f chunk remaining index ≡ some ts
    → All (λ t. SlightlyOver m (length t.matrix_chunk_a)) ts
unfolding make_chunks
make_chunks-SlightlyOver c f m zero chunk remaining index h e =
    subst (All (λ t. SlightlyOver m (length t.matrix_chunk_a))) (some_inj.0 e) tt
make_chunks-SlightlyOver c f m (suc rounds) chunk remaining index h e =
    let next = next_chunk c chunk remaining in
    let step = next_chunk-BoundIn c c.remainder_chunk m chunk remaining refl h in
    let (t, et, rest) = >>=-eq-some (make_task f index next.0) _ e in
    let (us, eu, made) =
      >>=-eq-some (make_chunks rounds c f (chunk + 1) next.1 (index + next.0)) _ rest in
    let short = length-make_task f index next.0 et in
    subst (All (λ t. SlightlyOver m (length t.matrix_chunk_a))) (some_inj.0 made) (
      omega arith,
      make_chunks-SlightlyOver c f m rounds (chunk + 1) next.1 (index + next.0) step.1 eu,
    )

-- With MAX_CHUNK_SIZE below 2^24, where the comparison in `float` is exact, no task that is made from
-- the stored division has a chunk that exceeds MAX_CHUNK_SIZE by more than a seventh.
pub field_tasks-SlightlyOver :
    (s : Settings) (p : Plan) (f : FieldOf) {ts : List RpcMatrixTask}
    → s.max_chunk_size < 2 ^ 24
    → prepare_tasks s ≡ some p
    → field_tasks p.chunking f ≡ some ts
    → All (λ t. SlightlyOver s.max_chunk_size (length t.matrix_chunk_a)) ts
unfolding field_tasks
field_tasks-SlightlyOver s p f fit e made =
    make_chunks-SlightlyOver p.chunking f s.max_chunk_size p.chunks_per_row 0 p.remaining_chunk_size
      0
      (choose_chunking-Bound s.a_cols s.max_chunk_size p.calculations_per_worker fit
        (prepare_tasks_chunking s e))
      made
