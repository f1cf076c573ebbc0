-- ===== src/Prelude/Sums.antt =====
-- Sums of lists of integers, and that their order does not matter.
use mathlib.Core.List.{List, [], ◌∷◌, Permᴰ}
use mathlib.Core.Path.{◌≡◌, refl, sym, ap, ◌∙◌}
use Prim.Native.Nat.{suc}
use distributed_matrix_multi.Prelude.Int.{ℤ, pos, ◌+ℤ◌, +ℤ_assoc, +ℤ_comm}
use distributed_matrix_multi.Prelude.Lists.{length}

unfoldable pub sum : List ℤ → ℤ
sum [] = pos 0
sum (x ∷ xs) = x +ℤ sum xs

-- Sums do not depend on the order.
pub sum-Permᴰ : (xs ys : List ℤ) → Permᴰ xs ys → sum xs ≡ sum ys
unfolding sum
sum-Permᴰ xs ys Permᴰ.nil = refl
sum-Permᴰ xs ys (Permᴰ.cons {a} {b} {l₁} {l₂} e p) = rw (e, sum-Permᴰ l₁ l₂ p) refl
sum-Permᴰ xs ys (Permᴰ.swap {a} {b} {a'} {b'} {l} e₁ e₂) =
    rw (e₁, e₂)
      (sym (+ℤ_assoc b' a' (sum l)) ∙ ap (λ z. z +ℤ sum l) (+ℤ_comm b' a') ∙ +ℤ_assoc a' b' (sum l))
sum-Permᴰ xs ys (Permᴰ.trans {l₁} {l₂} {l₃} p q) = sum-Permᴰ l₁ l₂ p ∙ sum-Permᴰ l₂ l₃ q

pub length-Permᴰ {ℓ} : {A : Type ℓ} (xs ys : List A) → Permᴰ xs ys → length xs ≡ length ys
length-Permᴰ xs ys Permᴰ.nil = refl
length-Permᴰ xs ys (Permᴰ.cons {a} {b} {l₁} {l₂} e p) = ap suc (length-Permᴰ l₁ l₂ p)
length-Permᴰ xs ys (Permᴰ.swap e₁ e₂) = refl
length-Permᴰ xs ys (Permᴰ.trans {l₁} {l₂} {l₃} p q) = length-Permᴰ l₁ l₂ p ∙ length-Permᴰ l₂ l₃ q
