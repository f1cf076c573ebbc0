-- ===== src/Controller/MatrixData/Plan/Defs.antt =====
-- `MatrixData::prepareTasks` of Controller/MatrixData.h: how a row of matrix A is divided into
-- chunks. `none` is undefined behaviour: a signed overflow or a division by zero.

use distributed_matrix_multi.Prelude.{
  ℕ, zero, suc, ◌+◌, ◌-◌, ◌*◌, ◌/◌, ◌%◌, ◌^◌, Bool, true, false, ◌||◌, Option, none, some, ◌>>=◌,
  leb, ltb, ◌==◌, if◌then◌else◌,
}
use distributed_matrix_multi.Controller.MatrixData.Plan.Float.{below_fraction}

-- The arguments of `initialize`, which it stores in the fields of the same names.
pub record Settings : Type 0 where
  pub number_workers : ℕ
  pub a_rows : ℕ
  pub a_cols : ℕ
  pub b_cols : ℕ
  pub number_matrices : ℕ
  pub max_chunk_size : ℕ

-- The fields that say how a row is divided.
pub record Chunking : Type 0 where
  pub chunks_per_row : ℕ
  pub chunk_size : ℕ
  pub remainder_chunk : Bool
  pub remaining_chunk_size : ℕ

pub record Plan : Type 0 where
  pub total_multiplications : ℕ
  pub number_workers : ℕ
  pub calculations_per_worker : ℕ
  pub chunking : Chunking
  pub open chunking use *

abbrev pub max_i64 : ℕ
max_i64 = 2 ^ 63 - 1

-- `a * b` in `long long`
unfoldable pub mul_i64 : ℕ → ℕ → Option ℕ
mul_i64 a b = if leb (a * b) max_i64 then some (a * b) else none

-- RESULT_ROWS * RESULT_COLS * MATRIX_A_COLS * NUMBER_MATRICES
unfoldable pub count_multiplications : Settings → Option ℕ
unfolding mul_i64
count_multiplications s = do
  fields ← mul_i64 s.a_rows s.b_cols
  products ← mul_i64 fields s.a_cols
  mul_i64 products s.number_matrices

unfoldable pub initial_chunk_size : ℕ → ℕ → ℕ → ℕ
initial_chunk_size a_cols max_chunk_size per_worker =
    let chunk_size = if ltb a_cols max_chunk_size then a_cols else max_chunk_size in
    if ltb per_worker chunk_size then per_worker else chunk_size

-- `while (remaining_chunk_size > chunks_per_row)`, with the rounds bounded by the first argument; the
-- result is the pair of `chunk_size` and `remaining_chunk_size`.
unfoldable pub spread : ℕ → ℕ → ℕ → ℕ → ℕ × ℕ
spread zero chunks_per_row chunk_size remaining = (chunk_size, remaining)
spread (suc fuel) chunks_per_row chunk_size remaining =
    let rest = spread fuel chunks_per_row (chunk_size + 1) (remaining - chunks_per_row) in
    if ltb chunks_per_row remaining then rest else (chunk_size, remaining)

-- What becomes of the values that are left when `chunk_size` does not divide the row.
unfoldable pub place_remainder : ℕ → ℕ → ℕ → Chunking
unfolding spread
place_remainder chunks_per_row chunk_size remaining =
    if below_fraction remaining chunk_size
    then (let (size, left) = spread remaining chunks_per_row chunk_size remaining in
        record {
          chunks_per_row = chunks_per_row;
          chunk_size = size;
          remainder_chunk = false;
          remaining_chunk_size = left;
        })
    else record {
      chunks_per_row = chunks_per_row + 1;
      chunk_size = chunk_size;
      remainder_chunk = true;
      remaining_chunk_size = remaining;
    }

abbrev pub even_row : ℕ → ℕ → Chunking
even_row chunks_per_row chunk_size = record {
  chunks_per_row = chunks_per_row;
  chunk_size = chunk_size;
  remainder_chunk = false;
  remaining_chunk_size = 0;
}

-- The branch that splits the rows, from the chunk size chosen at first.
unfoldable pub split_row : ℕ → ℕ → Option Chunking
unfolding place_remainder
split_row a_cols chunk_size =
    if chunk_size == 0
    then none
    else some (
        if ltb 0 (a_cols % chunk_size)
        then place_remainder (a_cols / chunk_size) chunk_size (a_cols % chunk_size)
        else even_row (a_cols / chunk_size) chunk_size)

abbrev pub whole_row : ℕ → Chunking
whole_row a_cols = even_row 1 a_cols

unfoldable pub choose_chunking : ℕ → ℕ → ℕ → Option Chunking
unfolding initial_chunk_size split_row
choose_chunking a_cols max_chunk_size per_worker =
    if ltb per_worker a_cols || ltb max_chunk_size a_cols
    then split_row a_cols (initial_chunk_size a_cols max_chunk_size per_worker)
    else some (whole_row a_cols)

-- at least one worker, and at least one calculation for each
abbrev pub at_least_one : ℕ → ℕ
at_least_one n = if n == 0 then 1 else n

unfoldable pub prepare_tasks : Settings → Option Plan
unfolding count_multiplications choose_chunking
prepare_tasks s = do
  total ← count_multiplications s
  let workers = at_least_one s.number_workers
  let per_worker = at_least_one (total / workers)
  chunking ← choose_chunking s.a_cols s.max_chunk_size per_worker
  some (record {
    total_multiplications = total;
    number_workers = workers;
    calculations_per_worker = per_worker;
    chunking = chunking;
  })
