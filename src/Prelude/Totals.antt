-- ===== src/Prelude/Totals.antt =====
-- Sums of weights over a list, under a write of one element, and sums of two weights compared.
use Prim.Native.Nat.{ℕ, zero, suc, ◌+◌, ◌≤◌}
use mathlib.Core.Path.{◌≡◌, refl}
use mathlib.Core.List.{List, [], ◌∷◌, ◌++◌}
use mathlib.Core.Option.{some}
use native.Mathlib.Omega.{arith}
use distributed_matrix_multi.Prelude.Lists.{get_elem?, set}

module _ {ℓ} {A : Type ℓ} where
  abbrev pub total : (A → ℕ) → List A → ℕ
  total w [] = 0
  total w (x ∷ xs) = w x + total w xs

  -- A write trades the old element's weight for the new one's.
  pub total-set :
      (w : A → ℕ) (xs : List A) (i : ℕ) (v : A) {x : A}
      → get_elem? xs i ≡ some x
      → total w (set xs i v) + w x ≡ total w xs + w v
  total-set w [] i v e = cc
  total-set w (y ∷ xs) zero v {x} e = let same : w y ≡ w x = cc in omega arith
  total-set w (y ∷ xs) (suc i) v e = omega (arith, total-set w xs i v e)

  pub total_mono : (w u : A → ℕ) (xs : List A) → ((x : A) → w x ≤ u x) → total w xs ≤ total u xs
  total_mono w u [] h = omega arith
  total_mono w u (x ∷ xs) h = omega (arith, h x, total_mono w u xs h)

  -- One element takes part in the gap between two sums.
  pub total_gap :
      (w u : A → ℕ) (xs : List A) (i : ℕ) {x : A}
      → ((y : A) → w y ≤ u y)
      → get_elem? xs i ≡ some x
      → total w xs + u x ≤ total u xs + w x
  total_gap w u [] i h e = cc
  total_gap w u (y ∷ xs) zero {x} h e =
      let same : w y ≡ w x = cc in let same' : u y ≡ u x = cc in omega (arith, total_mono w u xs h)
  total_gap w u (y ∷ xs) (suc i) h e = omega (arith, h y, total_gap w u xs i h e)

  pub total_congr :
      (w u : A → ℕ) (xs : List A)
      → ((i : ℕ) (x : A) → get_elem? xs i ≡ some x → w x ≡ u x)
      → total w xs ≡ total u xs
  total_congr w u [] h = refl
  total_congr w u (x ∷ xs) h =
      omega (arith, h 0 x refl, total_congr w u xs (λ i y e. h (suc i) y e))

  pub total-append : (w : A → ℕ) (xs ys : List A) → total w (xs ++ ys) ≡ total w xs + total w ys
  total-append w [] ys = omega arith
  total-append w (x ∷ xs) ys = omega (arith, total-append w xs ys)

  pub total-insert :
      (w : A → ℕ) (xs : List A) (x : A) (ys : List A)
      → total w (xs ++ x ∷ ys) ≡ total w (xs ++ ys) + w x
  total-insert w xs x ys = omega (arith, total-append w xs (x ∷ ys), total-append w xs ys)
