-- ===== src/Prelude/Wrap.antt =====
-- The conversion to `int` agrees with sums: only the last conversion counts.
use Prim.Native.Nat.{◌+◌, ◌%◌}
use mathlib.Core.Path.{◌≡◌}
use mathlib.Core.Bool.{true}
use native.Mathlib.Omega.{arith}
use distributed_matrix_multi.Prelude.Int.{ℤ, pos_part, neg_part, ◌+ℤ◌, +ℤ_parts}
use distributed_matrix_multi.Prelude.Words.{fits, i32_bound, to_i32, to_i32-fits}

-- Equal up to multiples of 2^32.
abbrev SameWord : ℤ → ℤ → Type 0
SameWord x y = (pos_part x + neg_part y) % 4294967296 ≡ (pos_part y + neg_part x) % 4294967296

to_i32-SameWord : (x : ℤ) → SameWord (to_i32 x) x
unfolding to_i32
to_i32-SameWord x = ground arith

SameWord-unique :
    (x y : ℤ) → fits i32_bound x ≡ true → fits i32_bound y ≡ true → SameWord x y → x ≡ y
SameWord-unique x y h k s = ground arith

add-SameWord : (x x' y : ℤ) → SameWord x x' → SameWord (x +ℤ y) (x' +ℤ y)
add-SameWord x x' y s = omega (arith, +ℤ_parts x y, +ℤ_parts x' y)

trans-SameWord : (x y z : ℤ) → SameWord x y → SameWord y z → SameWord x z
trans-SameWord x y z h k = omega arith

sym-SameWord : (x y : ℤ) → SameWord x y → SameWord y x
sym-SameWord x y h = omega arith

pub to_i32-add : (x y : ℤ) → to_i32 (to_i32 x +ℤ y) ≡ to_i32 (x +ℤ y)
to_i32-add x y =
    SameWord-unique (to_i32 (to_i32 x +ℤ y)) (to_i32 (x +ℤ y)) (to_i32-fits (to_i32 x +ℤ y))
      (to_i32-fits (x +ℤ y))
      (trans-SameWord _ (to_i32 x +ℤ y) _ (to_i32-SameWord (to_i32 x +ℤ y)) (
        trans-SameWord _ (x +ℤ y) _ (add-SameWord (to_i32 x) x y (to_i32-SameWord x))
          (sym-SameWord (to_i32 (x +ℤ y)) (x +ℤ y) (to_i32-SameWord (x +ℤ y)))))
