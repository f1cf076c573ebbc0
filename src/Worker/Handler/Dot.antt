-- ===== src/Worker/Handler/Dot.antt =====
-- `calcTask` of Worker/RPCImplementation.h computes a dot product, without overflow for values and
-- chunks of a bounded size.
use distributed_matrix_multi.Prelude.{
  ℕ, ◌+◌, ◌*◌, ◌≤◌, ◌≡◌, refl, ap, sym, ◌∙◌, true, some, List, [], ◌∷◌, ◌++◌, ◌>>=◌, arith, ℤ, pos,
  ◌+ℤ◌, ◌*ℤ◌, +ℤ_assoc, +ℤ_zero, zero_+ℤ, AtMost, mul-AtMost, add-AtMost, mul_i32-AtMost,
  add_i64-AtMost, i32_bound, length, All,
}
use distributed_matrix_multi.Rpc.Task.{RpcMatrixTask}
use distributed_matrix_multi.Worker.Handler.Defs.{Handler, sum_products, calc_task}

-- The scalar product of two rows of numbers.
unfoldable pub dot : List ℤ → List ℤ → ℤ
dot (x ∷ xs) (y ∷ ys) = (x *ℤ y) +ℤ dot xs ys
dot xs ys = pos 0

pub dot-append :
    (xs ys xs' ys' : List ℤ)
    → length xs ≡ length ys
    → dot (xs ++ xs') (ys ++ ys') ≡ dot xs ys +ℤ dot xs' ys'
unfolding dot
dot-append [] [] xs' ys' h = sym (zero_+ℤ (dot xs' ys'))
dot-append [] (y ∷ ys) xs' ys' h = absurd (omega arith)
dot-append (x ∷ xs) [] xs' ys' h = absurd (omega arith)
dot-append (x ∷ xs) (y ∷ ys) xs' ys' h =
    rw (dot-append xs ys xs' ys' (omega arith)) (sym (+ℤ_assoc (x *ℤ y) (dot xs ys) (dot xs' ys')))

-- Factors small enough for their product to be an `int`.
abbrev pub IsSmall : ℤ → Type 0
IsSmall = AtMost 46340

-- With `done` products behind it, the sum is far from the bounds of a `long long`.
sum_products-dot :
    (xs ys : List ℤ) (acc : ℤ) (done : ℕ)
    → length xs ≡ length ys
    → All IsSmall xs
    → All IsSmall ys
    → done + length xs ≤ i32_bound
    → AtMost (done * 2147395600) acc
    → sum_products xs ys acc ≡ some (acc +ℤ dot xs ys)
unfolding sum_products dot
sum_products-dot [] ys acc done h sx sy k b = ap some (sym (+ℤ_zero acc))
sum_products-dot (x ∷ xs) [] acc done h sx sy k b = absurd (omega arith)
sum_products-dot (x ∷ xs) (y ∷ ys) acc done h sx sy k b =
    let p = mul-AtMost x y sx.0 sy.0 in
    let s = add-AtMost acc (x *ℤ y) b p in
    let next : AtMost ((done + 1) * 2147395600) (acc +ℤ (x *ℤ y)) = record {
      above = omega (arith, s.above);
      below = omega (arith, s.below);
    } in
    rw (mul_i32-AtMost x y sx.0 sy.0, ◌>>=◌, add_i64-AtMost acc (x *ℤ y) b p (omega arith), ◌>>=◌)
      (sum_products-dot xs ys (acc +ℤ (x *ℤ y)) (done + 1) (omega arith) sx.1 sy.1 (omega arith)
          next
        ∙ ap some (+ℤ_assoc acc (x *ℤ y) (dot xs ys)))

-- What a task needs so that its worker can compute it.
pub record IsComputable (t : RpcMatrixTask) : Type 0 where
  pub paired : length t.matrix_chunk_a ≡ length t.matrix_chunk_b
  pub small_a : All IsSmall t.matrix_chunk_a
  pub small_b : All IsSmall t.matrix_chunk_b
  pub short : length t.matrix_chunk_a ≤ i32_bound

pub calc_task-dot :
    (t : RpcMatrixTask) (h : Handler)
    → IsComputable t
    → calc_task t h
      ≡ some (
        true,
        record h { current_task = t; current_result = dot t.matrix_chunk_a t.matrix_chunk_b },
      )
unfolding calc_task
calc_task-dot t h c =
    let done =
      sum_products-dot t.matrix_chunk_a t.matrix_chunk_b (pos 0) 0 c.paired c.small_a c.small_b
        (omega (arith, c.short)) (record { above = omega arith; below = omega arith }) in
    rw (done ∙ ap some (zero_+ℤ (dot t.matrix_chunk_a t.matrix_chunk_b)), ◌>>=◌) refl
