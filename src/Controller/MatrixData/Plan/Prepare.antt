-- ===== src/Controller/MatrixData/Plan/Prepare.antt =====
-- `MatrixData::prepareTasks` of Controller/MatrixData.h as a whole: when it faults, and what it
-- stores when it does not.
use mathlib.Core.Option.{some_inj}
use distributed_matrix_multi.Prelude.{
  ℕ, ◌*◌, ◌/◌, ◌≤◌, ◌<◌, ◌≡◌, refl, ◌⊎◌, ◌↔◌, inl, inr, sym, ◌∙◌, subst, some, ◌>>=◌, >>=-eq-some,
  arith, dec_lt,
}
use distributed_matrix_multi.Controller.MatrixData.Plan.Defs.{
  Settings, Chunking, Plan, max_i64, mul_i64, whole_row, count_multiplications, choose_chunking,
  at_least_one, prepare_tasks,
}
use distributed_matrix_multi.Controller.MatrixData.Plan.Covers.{
  Covers, choose_chunking_total, choose_chunking-Covers, choose_chunking_fault,
  choose_chunking_empty,
}

-- No product of `prepareTasks` overflows a `long long`.
pub record InRange (s : Settings) : Type 0 where
  pub fields : s.a_rows * s.b_cols ≤ max_i64
  pub products : s.a_rows * s.b_cols * s.a_cols ≤ max_i64
  pub total : s.a_rows * s.b_cols * s.a_cols * s.number_matrices ≤ max_i64

-- There is a chunk size to divide by, or no value to divide.
abbrev pub IsDivisible : Settings → Type 0
IsDivisible s = (s.a_cols ≡ 0) ⊎ (0 < s.max_chunk_size)

abbrev total_of : Settings → ℕ
total_of s = s.a_rows * s.b_cols * s.a_cols * s.number_matrices

mul_i64_fits : (a b : ℕ) → a * b ≤ max_i64 → mul_i64 a b ≡ some (a * b)
unfolding mul_i64
mul_i64_fits a b h = ground arith

mul_i64-eq-some : (a b : ℕ) {n : ℕ} → mul_i64 a b ≡ some n → (n ≡ a * b) × (a * b ≤ max_i64)
unfolding mul_i64
mul_i64-eq-some a b e = ground arith

count_multiplications_fits :
    (s : Settings) → InRange s → count_multiplications s ≡ some (total_of s)
unfolding count_multiplications
count_multiplications_fits s r =
    rw (mul_i64_fits _ _ r.fields, ◌>>=◌, mul_i64_fits _ _ r.products, ◌>>=◌)
      (mul_i64_fits _ _ r.total)

count_multiplications-eq-some :
    (s : Settings) {n : ℕ} → count_multiplications s ≡ some n → InRange s × (n ≡ total_of s)
unfolding count_multiplications
count_multiplications-eq-some s e = ground arith

prepare_tasks-counted : (s : Settings) {p : Plan} → prepare_tasks s ≡ some p → InRange s
unfolding prepare_tasks
prepare_tasks-counted s e =
    let (n, counted, _) = >>=-eq-some (count_multiplications s) _ e in
    (count_multiplications-eq-some s counted).0

-- The calculation of the plan from the number of multiplications.
abbrev per_worker : Settings → ℕ
per_worker s = at_least_one (total_of s / at_least_one s.number_workers)

at_least_one_pos : (n : ℕ) → 0 < at_least_one n
at_least_one_pos n = ground arith

per_worker_pos : (s : Settings) → 0 < per_worker s
per_worker_pos s = at_least_one_pos (total_of s / at_least_one s.number_workers)

prepare_tasks-InRange :
    (s : Settings)
    → InRange s
    → prepare_tasks s ≡ (
        choose_chunking s.a_cols s.max_chunk_size (per_worker s) >>= λ c. some (record {
          total_multiplications = total_of s;
          number_workers = at_least_one s.number_workers;
          calculations_per_worker = per_worker s;
          chunking = c;
        }))
unfolding prepare_tasks
prepare_tasks-InRange s r = rw (count_multiplications_fits s r, ◌>>=◌)

prepare_tasks-eq-some :
    (s : Settings) {p : Plan}
    → prepare_tasks s ≡ some p
    → InRange s
      × (c : Chunking) × (choose_chunking s.a_cols s.max_chunk_size (per_worker s) ≡ some c)
      × (record {
        total_multiplications = total_of s;
        number_workers = at_least_one s.number_workers;
        calculations_per_worker = per_worker s;
        chunking = c;
      }
          ≡ p)
prepare_tasks-eq-some s e =
    let (c, chosen, made) =
      >>=-eq-some (choose_chunking s.a_cols s.max_chunk_size (per_worker s)) _
        (sym (prepare_tasks-InRange s inside) ∙ e) in
    (inside, c, chosen, some_inj.0 made)
  where
    inside : InRange s
    inside = prepare_tasks-counted s e

-- What `prepareTasks` stores, whenever it returns: a division whose chunks cover a row, at least one
-- worker and one calculation for each, and the number of all multiplications.
pub prepare_tasks-Covers :
    (s : Settings) {p : Plan}
    → prepare_tasks s ≡ some p
    → Covers p.chunking s.a_cols
      × (0 < p.number_workers)
      × (0 < p.calculations_per_worker)
      × (p.total_multiplications ≡ total_of s)
prepare_tasks-Covers s {p} e =
    let (inside, c, chosen, made) = prepare_tasks-eq-some s e in
    subst
      (λ (q : Plan).
        Covers q.chunking s.a_cols
        × (0 < q.number_workers)
        × (0 < q.calculations_per_worker)
        × (q.total_multiplications ≡ total_of s))
      made
      (
        choose_chunking-Covers s.a_cols s.max_chunk_size (per_worker s) chosen,
        at_least_one_pos s.number_workers,
        per_worker_pos s,
        refl,
      )

choose_chunking_divisible :
    (s : Settings)
    → IsDivisible s
    → (c : Chunking) × (choose_chunking s.a_cols s.max_chunk_size (per_worker s) ≡ some c)
choose_chunking_divisible s (inl empty) =
    (whole_row s.a_cols, choose_chunking_empty s.a_cols s.max_chunk_size (per_worker s) empty)
choose_chunking_divisible s (inr pos) =
    choose_chunking_total s.a_cols s.max_chunk_size (per_worker s) pos (per_worker_pos s)

prepare_tasks_total :
    (s : Settings) → InRange s → IsDivisible s → (p : Plan) × (prepare_tasks s ≡ some p)
prepare_tasks_total s r d =
    let (c, chosen) = choose_chunking_divisible s d in
    let plan : Plan = record {
      total_multiplications = total_of s;
      number_workers = at_least_one s.number_workers;
      calculations_per_worker = per_worker s;
      chunking = c;
    } in
    (plan, prepare_tasks-InRange s r ∙ rw (chosen, ◌>>=◌) refl)

prepare_tasks-IsDivisible : (s : Settings) {p : Plan} → prepare_tasks s ≡ some p → IsDivisible s
prepare_tasks-IsDivisible s e =
    let (_, _, chosen, _) = prepare_tasks-eq-some s e in
    elim (dec_lt 0 s.max_chunk_size) [
      | yes pos ↦ inr pos
      | no zero_size ↦ elim (dec_lt 0 s.a_cols) [
        | no empty ↦ inl (omega arith)
        | yes filled ↦
            let faults =
              choose_chunking_fault s.a_cols s.max_chunk_size (per_worker s) (omega arith) filled in
            cc
      ]
    ]

-- `prepareTasks` returns exactly when none of the products of the sizes overflows a `long long`, and
-- MAX_CHUNK_SIZE is positive or the rows of A are empty; otherwise it overflows or divides by zero.
pub prepare_tasks_iff :
    (s : Settings) → ((p : Plan) × (prepare_tasks s ≡ some p)) ↔ (InRange s × IsDivisible s)
prepare_tasks_iff s = (
  (λ (p, e). (prepare_tasks-counted s e, prepare_tasks-IsDivisible s e)),
  (λ (r, d). prepare_tasks_total s r d),
)

-- The division that `prepareTasks` stores is the one that it chose.
pub prepare_tasks_chunking :
    (s : Settings) {p : Plan}
    → prepare_tasks s ≡ some p
    → choose_chunking s.a_cols s.max_chunk_size p.calculations_per_worker ≡ some p.chunking
prepare_tasks_chunking s e =
    let (_, c, chosen, made) = prepare_tasks-eq-some s e in
    subst
      (λ (q : Plan).
        choose_chunking s.a_cols s.max_chunk_size q.calculations_per_worker ≡ some q.chunking)
      made chosen
