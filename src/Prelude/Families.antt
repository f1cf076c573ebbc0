-- ===== src/Prelude/Families.antt =====
-- Families indexed by numbers: a write at one index, and sums over the indices below a bound.
use Prim.Native.Nat.{ℕ, zero, suc, ◌+◌, ◌*◌, ◌≤◌, ◌<◌}
use mathlib.Core.Path.{◌≡◌, refl, sym, subst, ap, ◌∙◌}
use mathlib.Core.Logic.{◌≢◌}
use native.Mathlib.Omega.{arith}
use mathlib.Core.Bool.{true, false}
use native.Mathlib.Decide.{dec_lt, ℕ_discrete}
use distributed_matrix_multi.Prelude.Tests.{◌==◌, if◌then◌else◌}

abbrev pub update {ℓ} : {A : Type ℓ} → (ℕ → A) → ℕ → A → ℕ → A
update f k x i = if k == i then x else f i

pub update_at {ℓ} : {A : Type ℓ} (f : ℕ → A) (k : ℕ) (x : A) → update f k x k ≡ x
update_at f k x = let e : (k == k) ≡ true = ground arith in rw e refl

pub update_other {ℓ} : {A : Type ℓ} (f : ℕ → A) (k i : ℕ) (x : A) → i ≢ k → update f k x i ≡ f i
update_other f k i x d = let e : (k == i) ≡ false = ground arith in rw e refl

-- One if the numbers are the same.
abbrev pub same : ℕ → ℕ → ℕ
same i j = if i == j then 1 else 0

pub sum_below : ℕ → (ℕ → ℕ) → ℕ
sum_below zero f = 0
sum_below (suc n) f = sum_below n f + f n

pub sum_below_congr :
    (n : ℕ) (f g : ℕ → ℕ) → ((i : ℕ) → i < n → f i ≡ g i) → sum_below n f ≡ sum_below n g
unfolding sum_below
sum_below_congr zero f g h = refl
sum_below_congr (suc n) f g h =
    omega (arith, h n (omega arith), sum_below_congr n f g (λ i lt. h i (omega arith)))

pub sum_below_add :
    (n : ℕ) (f g : ℕ → ℕ) → sum_below n (λ i. f i + g i) ≡ sum_below n f + sum_below n g
unfolding sum_below
sum_below_add zero f g = refl
sum_below_add (suc n) f g = omega (arith, sum_below_add n f g)

pub sum_below_zero : (n : ℕ) → sum_below n (λ i. 0) ≡ 0
unfolding sum_below
sum_below_zero zero = refl
sum_below_zero (suc n) = omega (arith, sum_below_zero n)

-- A sum in which one summand is exchanged.
pub sum_below-exchange :
    (n k : ℕ) (f g : ℕ → ℕ)
    → k < n
    → ((i : ℕ) → i ≢ k → f i ≡ g i)
    → sum_below n f + g k ≡ sum_below n g + f k
unfolding sum_below
sum_below-exchange zero k f g h e = absurd (omega arith)
sum_below-exchange (suc n) k f g h e = elim (dec_lt k n) [
  | yes below ↦ omega (arith, sum_below-exchange n k f g below e, e n (λ eq. absurd (omega arith)))
  | no last ↦
      let k_last : k ≡ n = omega arith in
      let init = sum_below_congr n f g (λ i lt. e i (λ eq. absurd (omega arith))) in
      rw k_last (omega (arith, init))
]

pub sum_below-le : (n k : ℕ) (f : ℕ → ℕ) → k < n → f k ≤ sum_below n f
unfolding sum_below
sum_below-le zero k f h = absurd (omega arith)
sum_below-le (suc n) k f h = elim (dec_lt k n) [
  | yes below ↦ omega (arith, sum_below-le n k f below)
  | no last ↦ let k_last : k ≡ n = omega arith in rw k_last (omega arith)
]

pub sum_below_const : (n c : ℕ) → sum_below n (λ i. c) ≡ n * c
unfolding sum_below
sum_below_const zero c = omega arith
sum_below_const (suc n) c =
    let step : suc n * c ≡ n * c + c = grind arith in omega (arith, step, sum_below_const n c)

-- To prove of a written family what holds of the new value and of the old ones.
pub update_cases {ℓ κ} :
    {A : Type ℓ} (P : A → Type κ) (f : ℕ → A) (k i : ℕ) (x : A)
    → (i ≡ k → P x)
    → (i ≢ k → P (f i))
    → P (update f k x i)
update_cases P f k i x here there = elim (ℕ_discrete i k) [
  | yes e ↦ subst P (sym (ap (update f k x) e ∙ update_at f k x)) (here e)
  | no d ↦ subst P (sym (update_other f k i x d)) (there d)
]

-- A sum of ones and zeros that is as large as it can be has ones only.
pub sum_below-at_most : (n : ℕ) (f : ℕ → ℕ) → ((i : ℕ) → f i ≤ 1) → sum_below n f ≤ n
unfolding sum_below
sum_below-at_most zero f h = omega arith
sum_below-at_most (suc n) f h = omega (arith, h n, sum_below-at_most n f h)

pub sum_below-full :
    (n : ℕ) (f : ℕ → ℕ) → ((i : ℕ) → f i ≤ 1) → sum_below n f ≡ n → (i : ℕ) → i < n → f i ≡ 1
unfolding sum_below
sum_below-full zero f h e i lt = absurd (omega arith)
sum_below-full (suc n) f h e i lt = elim (dec_lt i n) [
  | yes below ↦ sum_below-full n f h (omega (arith, h n, sum_below-at_most n f h)) i below
  | no last ↦
      let i_last : i ≡ n = omega arith in rw i_last (omega (arith, h n, sum_below-at_most n f h))
]
