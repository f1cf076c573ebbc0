-- ===== src/Controller/MatrixData/Plan/Chunks.antt =====
-- Every row is divided into at least one chunk by `prepareTasks` of Controller/MatrixData.h.
use mathlib.Core.Option.{some_inj}
use distributed_matrix_multi.Prelude.{
  ℕ, zero, suc, ◌/◌, ◌%◌, ◌≤◌, ◌<◌, ◌≡◌, inl, inr, subst, false, ◌||◌, some, arith, ltb, ◌==◌,
  Bool-cases,
}
use distributed_matrix_multi.Controller.MatrixData.Plan.Float.{below_fraction}
use distributed_matrix_multi.Controller.MatrixData.Plan.Defs.{
  Settings, Chunking, Plan, place_remainder, split_row, initial_chunk_size, choose_chunking,
  prepare_tasks,
}
use distributed_matrix_multi.Controller.MatrixData.Plan.Covers.{initial_chunk_size-le}
use distributed_matrix_multi.Controller.MatrixData.Plan.Prepare.{prepare_tasks_chunking}

abbrev HasChunk : Chunking → Type 0
HasChunk c = 0 < c.chunks_per_row

place_remainder-HasChunk :
    (chunks size remaining : ℕ) → 0 < chunks → HasChunk (place_remainder chunks size remaining)
unfolding place_remainder
place_remainder-HasChunk chunks size remaining h =
    elim (Bool-cases (below_fraction remaining size)) [
      | inl spreads ↦ rw spreads h
      | inr apart ↦ rw apart (omega arith)
    ]

split_row-HasChunk :
    (a_cols size : ℕ) {c : Chunking} → size ≤ a_cols → split_row a_cols size ≡ some c → HasChunk c
unfolding split_row
split_row-HasChunk a zero h e = cc
split_row-HasChunk a (suc size) h e =
    let nonzero : (suc size == 0) ≡ false = ground arith in
    let q_pos : 0 < a / suc size = grind arith in
    elim (Bool-cases (ltb 0 (a % suc size))) [
      | inl left ↦
          subst HasChunk (some_inj.0 (rw (nonzero, left) at e))
            (place_remainder-HasChunk (a / suc size) (suc size) (a % suc size) q_pos)
      | inr even ↦ subst HasChunk (some_inj.0 (rw (nonzero, even) at e)) q_pos
    ]

choose_chunking-HasChunk :
    (a_cols max_chunk_size per_worker : ℕ) {c : Chunking}
    → choose_chunking a_cols max_chunk_size per_worker ≡ some c
    → HasChunk c
unfolding choose_chunking
choose_chunking-HasChunk a m p e = elim (Bool-cases (ltb p a || ltb m a)) [
  | inr whole ↦ subst HasChunk (some_inj.0 (rw whole at e)) (omega arith)
  | inl splits ↦
      split_row-HasChunk a (initial_chunk_size a m p) (initial_chunk_size-le a m p).0
        (rw splits at e)
]

pub prepare_tasks_has_chunk :
    (s : Settings) (p : Plan) → prepare_tasks s ≡ some p → 0 < p.chunks_per_row
prepare_tasks_has_chunk s p e =
    choose_chunking-HasChunk s.a_cols s.max_chunk_size p.calculations_per_worker
      (prepare_tasks_chunking s e)
