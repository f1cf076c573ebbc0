-- ===== src/Controller/MatrixData/Tasks/Dots.antt =====
-- The entries of a matrix product, and what the workers of Worker/RPCImplementation.h return for chunks, as
-- dot products; for the tasks of `createTasks` of Controller/MatrixData.h.
use mathlib.Core.List.{flat_map}
use mathlib.Core.Option.{some_inj}
use native.Mathlib.Numerals.{add-one}
use distributed_matrix_multi.Prelude.{
  sum, ℕ, zero, suc, ◌+◌, ◌≤◌, ◌<◌, ◌≡◌, refl, ap, sym, ◌∙◌, Option, some, List, [], ◌∷◌, ◌>>=◌,
  >>=-eq-some, arith, ℤ, pos, ◌+ℤ◌, ◌*ℤ◌, i32_bound, length, length-append, get_elem?, drop, All,
  All-append_split,
}
use distributed_matrix_multi.Rpc.Task.{RpcMatrixTask}
use distributed_matrix_multi.Controller.Matrix.{Matrix, at, copy_col, IsMatrix}
use distributed_matrix_multi.Controller.Matrix.Laws.{get_elem?_total, All-get_elem?}
use distributed_matrix_multi.Worker.Handler.Defs.{Handler, calc_task}
use distributed_matrix_multi.Worker.Handler.Dot.{
  dot, dot-append, IsSmall, IsComputable, calc_task-dot,
}

-- The entry of the product of two matrices, as the sum over k from `k` of a[r][k] * b[k][c], `n` terms.
unfoldable pub product_entry : Matrix ℤ → Matrix ℤ → ℕ → ℕ → ℕ → ℕ → Option ℤ
product_entry a b r c k zero = some (pos 0)
product_entry a b r c k (suc n) = do
  x ← at a r k
  y ← at b k c
  rest ← product_entry a b r c (k + 1) n
  some ((x *ℤ y) +ℤ rest)

-- A worker that computes one task after the other, and the results that it holds after each.
unfoldable pub calc_all : List RpcMatrixTask → Handler → Option (List ℤ)
calc_all [] h = some []
calc_all (t ∷ ts) h = do
  (accepted, h') ← calc_task t h
  results ← calc_all ts h'
  some (h'.current_result ∷ results)

module _ {ℓ} {A : Type ℓ} where
  drop-cons :
      (k : ℕ) (xs : List A) {x : A} {ys : List A}
      → drop k xs ≡ x ∷ ys
      → (get_elem? xs k ≡ some x) × (drop (k + 1) xs ≡ ys)
  drop-cons zero [] e = cc
  drop-cons zero (x ∷ xs) e = (cc, cc)
  drop-cons (suc k) [] e = cc
  drop-cons (suc k) (x ∷ xs) e =
      let ih = drop-cons k xs e in (ih.0, rw add-one (rw add-one at ih.1))

-- The sum by indices is the scalar product of the row and the column.
pub product_entry-dot :
    (a b : Matrix ℤ) (r c k n : ℕ) (row xs ys : List ℤ)
    → get_elem? a.cells r ≡ some row
    → drop k row ≡ xs
    → length xs ≡ n
    → copy_col b c k n ≡ some ys
    → product_entry a b r c k n ≡ some (dot xs ys)
unfolding product_entry dot copy_col at
product_entry-dot a b r c k zero row [] ys er ed el ec = refl
product_entry-dot a b r c k zero row (x ∷ xs) ys er ed el ec = absurd (omega arith)
product_entry-dot a b r c k (suc n) row [] ys er ed el ec = absurd (omega arith)
product_entry-dot a b r c k (suc n) row (x ∷ xs) ys er ed el ec =
    let (y, ey, rest) = >>=-eq-some (at b k c) _ ec in
    let (zs, ez, made) = >>=-eq-some (copy_col b c (k + 1) n) _ rest in
    let (ex, ed') = drop-cons k row ed in
    let ih = product_entry-dot a b r c (k + 1) n row xs zs er ed' (omega arith) ez in
    rw (er, ◌>>=◌, ex, ◌>>=◌, ey, ◌>>=◌, ih, ◌>>=◌)
      (ap (λ ws. some (dot (x ∷ xs) ws)) (some_inj.0 made))

-- A worker that can compute each task returns their scalar products.
pub calc_all-dot :
    (ts : List RpcMatrixTask) (h : Handler)
    → All IsComputable ts
    → All (λ t. length t.matrix_chunk_a ≡ length t.matrix_chunk_b) ts
    → (results : List ℤ) × (calc_all ts h ≡ some results)
      × (sum results
          ≡ dot (flat_map (λ t. t.matrix_chunk_a) ts) (flat_map (λ t. t.matrix_chunk_b) ts))
unfolding calc_all flat_map sum dot
calc_all-dot [] h c p = ([], refl, refl)
calc_all-dot (t ∷ ts) h c p =
    let d = dot t.matrix_chunk_a t.matrix_chunk_b in
    let (results, e, s) =
      calc_all-dot ts (record h { current_task = t; current_result = d }) c.1 p.1 in
    (
      d ∷ results,
      rw (calc_task-dot t h c.0, ◌>>=◌, e, ◌>>=◌) refl,
      ap (λ z. d +ℤ z) s ∙ sym (dot-append t.matrix_chunk_a t.matrix_chunk_b _ _ p.0),
    )

-- Predicates on the concatenated chunks, chunk by chunk.
module _ (chunk : RpcMatrixTask → List ℤ) where
  pub All-chunks :
      (P : ℤ → Type 0) (ts : List RpcMatrixTask)
      → All P (flat_map chunk ts)
      → All (λ t. All P (chunk t)) ts
  unfolding flat_map
  All-chunks P [] h = tt
  All-chunks P (t ∷ ts) h =
      let (here, later) = All-append_split P (chunk t) (flat_map chunk ts) h in
      (here, All-chunks P ts later)

  pub length-chunks :
      (ts : List RpcMatrixTask) (n : ℕ)
      → length (flat_map chunk ts) ≤ n
      → All (λ t. length (chunk t) ≤ n) ts
  unfolding flat_map
  length-chunks [] n h = tt
  length-chunks (t ∷ ts) n h =
      let both = length-append (chunk t) (flat_map chunk ts) in
      (omega (arith, both), length-chunks ts n (omega (arith, both)))

pub IsComputable-All :
    (ts : List RpcMatrixTask)
    → All (λ t. length t.matrix_chunk_a ≡ length t.matrix_chunk_b) ts
    → All (λ t. All IsSmall t.matrix_chunk_a) ts
    → All (λ t. All IsSmall t.matrix_chunk_b) ts
    → All (λ t. length t.matrix_chunk_a ≤ i32_bound) ts
    → All IsComputable ts
IsComputable-All [] p a b s = tt
IsComputable-All (t ∷ ts) p a b s = (
  record { paired = p.0; small_a = a.0; small_b = b.0; short = s.0 },
  IsComputable-All ts p.1 a.1 b.1 s.1,
)

pub copy_col_total :
    (m : Matrix ℤ) (col i n : ℕ)
    → IsMatrix m
    → All (All IsSmall) m.cells
    → col < m.columns
    → i + n ≤ m.rows
    → (xs : List ℤ) × (copy_col m col i n ≡ some xs) × All IsSmall xs
unfolding copy_col at
copy_col_total m col i zero w s h k = ([], refl, tt)
copy_col_total m col i (suc n) w s h k =
    let (row, er) = get_elem?_total m.cells i (omega (arith, w.row_count)) in
    let (x, ex) =
      get_elem?_total row col (omega (arith, All-get_elem? _ m.cells i w.row_sizes er)) in
    let (xs, exs, small) = copy_col_total m col (i + 1) n w s h (omega arith) in
    let here = All-get_elem? _ row col (All-get_elem? _ m.cells i s er) ex in
    (x ∷ xs, rw (er, ◌>>=◌, ex, ◌>>=◌, exs, ◌>>=◌) refl, (here, small))
