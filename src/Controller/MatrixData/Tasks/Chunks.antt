-- ===== src/Controller/MatrixData/Tasks/Chunks.antt =====
-- The loop of `createTasks` in Controller/MatrixData.h, for a division that covers the row: it meets
-- no null pointer, and its chunks put together are the row of A and the column of B.
use mathlib.Core.List.{flat_map}
use distributed_matrix_multi.Prelude.{
  ℕ, zero, suc, ◌+◌, ◌-◌, ◌≤◌, ◌≡◌, refl, ap, sym, ◌∙◌, Bool, true, false, some, List, [], ◌∷◌,
  ◌++◌, ◌>>=◌, >>=-eq-some, arith, leb, length, get_elem?, take, drop, take-append-drop,
  length-take, length-drop, All, ℤ,
}
use mathlib.Core.Option.{some_inj}
use native.Mathlib.Nat.{add-zero, zero-add, suc-add, sub-zero}
use distributed_matrix_multi.Rpc.Task.{RpcMatrixTask}
use distributed_matrix_multi.Controller.Matrix.{Matrix, at, copy_col}
use distributed_matrix_multi.Controller.MatrixData.Plan.Defs.{Chunking}
use distributed_matrix_multi.Controller.MatrixData.Plan.Covers.{FitsIn, Fits, Covers}
use distributed_matrix_multi.Controller.MatrixData.Tasks.Defs.{
  next_chunk, FieldOf, make_task, make_chunks, field_tasks,
}

module _ {ℓ} {A : Type ℓ} where
  drop-drop : (i j : ℕ) (xs : List A) → drop j (drop i xs) ≡ drop (i + j) xs
  drop-drop zero j xs = rw zero-add
  drop-drop (suc i) zero [] = rw suc-add
  drop-drop (suc i) (suc j) [] = rw suc-add
  drop-drop (suc i) j (x ∷ xs) = rw suc-add (drop-drop i j xs)

  drop_all : (n : ℕ) (xs : List A) → length xs ≤ n → drop n xs ≡ []
  drop_all zero [] h = refl
  drop_all zero (x ∷ xs) h = absurd (omega arith)
  drop_all (suc n) [] h = refl
  drop_all (suc n) (x ∷ xs) h = drop_all n xs (omega arith)

  -- A shorter copy of a column is its beginning, and a copy that starts later is the rest.
  copy_col-take :
      (m : Matrix A) (col i n k : ℕ) {xs : List A}
      → copy_col m col i n ≡ some xs
      → k ≤ n
      → copy_col m col i k ≡ some (take k xs)
  unfolding copy_col
  copy_col-take m col i n zero e h = refl
  copy_col-take m col i zero (suc k) e h = absurd (omega arith)
  copy_col-take m col i (suc n) (suc k) e h =
      let (x, ex, e') = >>=-eq-some (at m i col) _ e in
      let (ys, ey, made) = >>=-eq-some (copy_col m col (i + 1) n) _ e' in
      let ih = copy_col-take m col (i + 1) n k ey (omega arith) in
      rw (ex, ◌>>=◌, ih, ◌>>=◌) (ap (λ zs. some (take (suc k) zs)) (some_inj.0 made))

  copy_col-drop :
      (m : Matrix A) (col i n k : ℕ) {xs : List A}
      → copy_col m col i n ≡ some xs
      → k ≤ n
      → copy_col m col (i + k) (n - k) ≡ some (drop k xs)
  unfolding copy_col
  copy_col-drop m col i n zero e h = rw (add-zero, sub-zero) e
  copy_col-drop m col i zero (suc k) e h = absurd (omega arith)
  copy_col-drop m col i (suc n) (suc k) e h =
      let (x, ex, e') = >>=-eq-some (at m i col) _ e in
      let (ys, ey, made) = >>=-eq-some (copy_col m col (i + 1) n) _ e' in
      let ih = copy_col-drop m col (i + 1) n k ey (omega arith) in
      let here : i + suc k ≡ i + 1 + k = omega arith in
      let left : suc n - suc k ≡ n - k = omega arith in
      rw (here, left) (ih ∙ ap (λ zs. some (drop (suc k) zs)) (some_inj.0 made))

  pub length-copy_col :
      (m : Matrix A) (col i n : ℕ) {xs : List A} → copy_col m col i n ≡ some xs → length xs ≡ n
  unfolding copy_col
  length-copy_col m col i zero e = ap length (sym (some_inj.0 e))
  length-copy_col m col i (suc n) e =
      let (x, ex, e') = >>=-eq-some (at m i col) _ e in
      let (ys, ey, made) = >>=-eq-some (copy_col m col (i + 1) n) _ e' in
      ap length (sym (some_inj.0 made)) ∙ ap suc (length-copy_col m col (i + 1) n ey)

-- What the two factors give for a field: the values of its row in A and of its column in B.
pub record IsField (f : FieldOf) (n : ℕ) (xs ys : List ℤ) : Type 0 where
  pub row_found : get_elem? f.matrix_a.cells f.row ≡ some xs
  pub col_found : copy_col f.matrix_b f.col 0 n ≡ some ys
  pub row_length : length xs ≡ n
  pub a_columns : f.matrix_a.columns ≡ n
  pub b_rows : f.matrix_b.rows ≡ n

abbrev pub task_of : FieldOf → List ℤ → List ℤ → RpcMatrixTask
task_of f chunk_a chunk_b = record {
  result_matrix = f.result_matrix;
  row = f.row;
  col = f.col;
  matrix_chunk_a = chunk_a;
  matrix_chunk_b = chunk_b;
}

-- The tasks of `rounds` chunks, which hold the values of `xs` and `ys` in order.
pub record Cut (f : FieldOf) (rounds : ℕ) (xs ys : List ℤ) (tasks : List RpcMatrixTask)
    : Type 0 where
  pub count : length tasks ≡ rounds
  pub all_a : flat_map (λ t. t.matrix_chunk_a) tasks ≡ xs
  pub all_b : flat_map (λ t. t.matrix_chunk_b) tasks ≡ ys
  pub paired : All (λ t. length t.matrix_chunk_a ≡ length t.matrix_chunk_b) tasks
  pub owned :
      All (λ t. (t.result_matrix ≡ f.result_matrix) × (t.row ≡ f.row) × (t.col ≡ f.col)) tasks

next_chunk-FitsIn :
    (c : Chunking) (b : Bool) (rounds chunk remaining index n : ℕ)
    → c.remainder_chunk ≡ b
    → chunk + suc rounds ≡ c.chunks_per_row
    → FitsIn b c.chunk_size (suc rounds) remaining index n
    → (index + (next_chunk c chunk remaining).0 ≤ n)
      × FitsIn b c.chunk_size rounds
          (next_chunk c chunk remaining).1
          (index + (next_chunk c chunk remaining).0)
          n
unfolding next_chunk
next_chunk-FitsIn c true zero chunk remaining index n e k fits = ground arith
next_chunk-FitsIn c true (suc rounds) chunk remaining index n e k fits = ground arith
next_chunk-FitsIn c false rounds chunk remaining index n e k fits = ground arith

FitsIn-end : (b : Bool) (size remaining index n : ℕ) → FitsIn b size 0 remaining index n → index ≡ n
FitsIn-end true size remaining index n fits = fits.1
FitsIn-end false size remaining index n fits = omega arith

module _ (f : FieldOf) (n : ℕ) (xs ys : List ℤ) (field : IsField f n xs ys) where
  copy_inside :
      (index size : ℕ)
      → index + size ≤ n
      → copy_col f.matrix_b f.col index size ≡ some (take size (drop index ys))
  copy_inside index size h =
      let rest = copy_col-drop f.matrix_b f.col 0 n index field.col_found (omega arith) in
      copy_col-take f.matrix_b f.col index (n - index) size (rw zero-add at rest) (omega arith)

  -- A chunk inside the row is found in both factors.
  make_task_fits :
      (index size : ℕ)
      → index + size ≤ n
      → make_task f index size
        ≡ some (task_of f (take size (drop index xs)) (take size (drop index ys)))
  unfolding make_task
  make_task_fits index size h =
      let in_row : leb (index + size) f.matrix_a.columns ≡ true = ground (arith, field.a_columns) in
      let in_col : leb (index + size) f.matrix_b.rows ≡ true = ground (arith, field.b_rows) in
      rw (in_row, field.row_found, ◌>>=◌, in_col, copy_inside index size h, ◌>>=◌) refl

  Cut-cons :
      (index size rounds : ℕ) (tasks : List RpcMatrixTask)
      → index + size ≤ n
      → length ys ≡ n
      → Cut f rounds (drop (index + size) xs) (drop (index + size) ys) tasks
      → Cut f
          (suc rounds)
          (drop index xs)
          (drop index ys)
          (task_of f (take size (drop index xs)) (take size (drop index ys)) ∷ tasks)
  unfolding flat_map
  Cut-cons index size rounds tasks h col_length cut = record {
    count = ap suc cut.count;
    all_a =
        ap (λ zs. take size (drop index xs) ++ zs) (cut.all_a ∙ sym (drop-drop index size xs))
        ∙ take-append-drop size (drop index xs);
    all_b =
        ap (λ zs. take size (drop index ys) ++ zs) (cut.all_b ∙ sym (drop-drop index size ys))
        ∙ take-append-drop size (drop index ys);
    paired = (
      omega (
        arith,
        length-take size (drop index xs),
        length-take size (drop index ys),
        length-drop index xs,
        length-drop index ys,
        field.row_length,
      ),
      cut.paired,
    );
    owned = ((refl, refl, refl), cut.owned);
  }

  -- From any round on, the loop makes the tasks of the values that are left.
  make_chunks-Cut :
      (c : Chunking) (rounds chunk remaining index : ℕ)
      → chunk + rounds ≡ c.chunks_per_row
      → Fits c rounds remaining index n
      → (tasks : List RpcMatrixTask) × (make_chunks rounds c f chunk remaining index ≡ some tasks)
        × Cut f rounds (drop index xs) (drop index ys) tasks
  unfolding make_chunks flat_map
  make_chunks-Cut c zero chunk remaining index k fits =
      let end = FitsIn-end c.remainder_chunk c.chunk_size remaining index n fits in
      let col_length = length-copy_col f.matrix_b f.col 0 n field.col_found in
      (
        [],
        refl,
        record {
          count = refl;
          all_a = sym (drop_all index xs (omega (arith, field.row_length)));
          all_b = sym (drop_all index ys (omega arith));
          paired = tt;
          owned = tt;
        },
      )
  make_chunks-Cut c (suc rounds) chunk remaining index k fits =
      let next = next_chunk c chunk remaining in
      let step = next_chunk-FitsIn c c.remainder_chunk rounds chunk remaining index n refl k fits in
      let (tasks, made, cut) =
        make_chunks-Cut c rounds (chunk + 1) next.1 (index + next.0) (omega arith) step.1 in
      let col_length = length-copy_col f.matrix_b f.col 0 n field.col_found in
      (
        _,
        rw (make_task_fits index next.0 step.0, ◌>>=◌, made, ◌>>=◌) refl,
        Cut-cons index next.0 rounds tasks step.0 col_length cut,
      )

  -- The tasks of a field: as many as there are chunks in a row, and together the whole row and column.
  pub field_tasks-Cut :
      (c : Chunking)
      → Covers c n
      → (tasks : List RpcMatrixTask) × (field_tasks c f ≡ some tasks)
        × Cut f c.chunks_per_row xs ys tasks
  unfolding field_tasks
  field_tasks-Cut c covers =
      make_chunks-Cut c c.chunks_per_row 0 c.remaining_chunk_size 0 (zero-add c.chunks_per_row)
        covers
