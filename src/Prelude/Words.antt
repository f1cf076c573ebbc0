-- ===== src/Prelude/Words.antt =====
-- C++ `int` and `long long`: signed arithmetic whose overflow is undefined, as a fault, and the
-- conversion to `int`, which wraps around.
use Prim.Native.Nat.{ℕ, ◌+◌, ◌-◌, ◌*◌, ◌%◌, ◌^◌, ◌≤◌, ◌<◌}
use mathlib.Core.Path.{◌≡◌}
use mathlib.Core.Bool.{Bool, true, ◌&&◌}
use mathlib.Core.Option.{Option, none, some}
use native.Mathlib.Omega.{arith}
use distributed_matrix_multi.Prelude.Tests.{ltb, leb, if◌then◌else◌}
use distributed_matrix_multi.Prelude.Int.{ℤ, pos, negsuc, pos_part, neg_part, ◌+ℤ◌, ◌*ℤ◌}

-- The values of a signed type whose least value is -bound.
abbrev pub fits : ℕ → ℤ → Bool
fits bound x = ltb (pos_part x) bound && leb (neg_part x) bound

abbrev pub i32_bound : ℕ
i32_bound = 2 ^ 31

abbrev pub i64_bound : ℕ
i64_bound = 2 ^ 63

unfoldable pub mul_i32 : ℤ → ℤ → Option ℤ
mul_i32 a b = let p = a *ℤ b in if fits i32_bound p then some p else none

unfoldable pub add_i64 : ℤ → ℤ → Option ℤ
add_i64 a b = let s = a +ℤ b in if fits i64_bound s then some s else none

-- The value modulo 2^32 that an `int` holds.
unfoldable pub to_i32 : ℤ → ℤ
to_i32 x =
    let u = (pos_part x + (2 ^ 32 - neg_part x % 2 ^ 32)) % 2 ^ 32 in
    if ltb u i32_bound then pos u else negsuc (2 ^ 32 - u - 1)

pub to_i32-fits : (x : ℤ) → fits i32_bound (to_i32 x) ≡ true
unfolding to_i32
to_i32-fits x = ground arith

-- A value in the range of `int` is not changed.
pub to_i32_id : (x : ℤ) → fits i32_bound x ≡ true → to_i32 x ≡ x
unfolding to_i32
to_i32_id (pos n) h = ground arith
to_i32_id (negsuc n) h = ground arith

-- Values whose magnitude is at most `m`.
pub record AtMost (m : ℕ) (x : ℤ) : Type 0 where
  pub above : pos_part x ≤ m
  pub below : neg_part x ≤ m

pub mul-AtMost : (a b : ℤ) {m : ℕ} → AtMost m a → AtMost m b → AtMost (m * m) (a *ℤ b)
unfolding ◌*ℤ◌
mul-AtMost (pos a) (pos b) h k = record { above = grind arith; below = grind arith }
mul-AtMost (pos a) (negsuc b) h k = record { above = grind arith; below = grind arith }
mul-AtMost (negsuc a) (pos b) h k = record { above = grind arith; below = grind arith }
mul-AtMost (negsuc a) (negsuc b) h k = record { above = grind arith; below = grind arith }

pub add-AtMost : (a b : ℤ) {m n : ℕ} → AtMost m a → AtMost n b → AtMost (m + n) (a +ℤ b)
unfolding ◌+ℤ◌
add-AtMost a b h k = record { above = ground arith; below = ground arith }

pub mul_i32-AtMost : (a b : ℤ) → AtMost 46340 a → AtMost 46340 b → mul_i32 a b ≡ some (a *ℤ b)
unfolding mul_i32
mul_i32-AtMost a b h k = let p = mul-AtMost a b h k in ground arith

pub add_i64-AtMost :
    (a b : ℤ) {m n : ℕ} → AtMost m a → AtMost n b → m + n < i64_bound → add_i64 a b ≡ some (a +ℤ b)
unfolding add_i64
add_i64-AtMost a b h k l = let s = add-AtMost a b h k in ground arith
