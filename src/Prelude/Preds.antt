-- ===== src/Prelude/Preds.antt =====
-- Predicates on all elements of a list, by recursion, so that the tactics read them.
use mathlib.Core.List.{List, [], ◌∷◌, ◌++◌}
use mathlib.Core.Path.{◌≡◌, refl, sym}
use mathlib.Core.Logic.{◌⊎◌, inl, inr}

-- The empty type, at every level.
pub data Empty {ℓ} : Type ℓ where

module _ {ℓ κ} {A : Type ℓ} (P : A → Type κ) where
  abbrev pub All : List A → Type κ
  All [] = Unit
  All (x ∷ xs) = P x × All xs

  pub All-append : (xs ys : List A) → All xs → All ys → All (xs ++ ys)
  All-append [] ys _ hy = hy
  All-append (x ∷ xs) ys (px, hx) hy = (px, All-append xs ys hx hy)

  pub All-append_split : (xs ys : List A) → All (xs ++ ys) → All xs × All ys
  All-append_split [] ys h = (tt, h)
  All-append_split (x ∷ xs) ys h = let (hx, hy) = All-append_split xs ys h.1 in ((h.0, hx), hy)

-- Membership and distinctness by recursion, which can be taken apart into data.
module _ {ℓ} {A : Type ℓ} where
  abbrev pub In : A → List A → Type ℓ
  In a [] = Empty
  In a (x ∷ xs) = (a ≡ x) ⊎ In a xs

  abbrev pub Distinct : List A → Type ℓ
  Distinct [] = Unit
  Distinct (x ∷ xs) = ¬ In x xs × Distinct xs

  pub In-append_left : (a : A) (xs ys : List A) → In a xs → In a (xs ++ ys)
  In-append_left a [] ys h = elim h [ ]
  In-append_left a (x ∷ xs) ys (inl e) = inl e
  In-append_left a (x ∷ xs) ys (inr h) = inr (In-append_left a xs ys h)

  pub In-concat : (a : A) (xs : List A) → In a (xs ++ a ∷ [])
  In-concat a [] = inl refl
  In-concat a (x ∷ xs) = inr (In-concat a xs)

  pub In-concat_cases : (a b : A) (xs : List A) → In a (xs ++ b ∷ []) → In a xs ⊎ (a ≡ b)
  In-concat_cases a b [] (inl e) = inr e
  In-concat_cases a b [] (inr h) = elim h [ ]
  In-concat_cases a b (x ∷ xs) (inl e) = inl (inl e)
  In-concat_cases a b (x ∷ xs) (inr h) = elim (In-concat_cases a b xs h) [
    | inl old ↦ inl (inr old)
    | inr new ↦ inr new
  ]

  pub Distinct-concat : (b : A) (xs : List A) → Distinct xs → ¬ In b xs → Distinct (xs ++ b ∷ [])
  Distinct-concat b [] d n = (λ h. elim h [ ], tt)
  Distinct-concat b (x ∷ xs) d n = (
    λ h. elim (In-concat_cases x b xs h) [ inl old ↦ d.0 old | inr new ↦ n (inl (sym new)) ],
    Distinct-concat b xs d.1 (λ h. n (inr h)),
  )
