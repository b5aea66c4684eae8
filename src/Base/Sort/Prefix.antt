-- ===== src/Base/Sort/Prefix.antt =====
-- The first `n` of a sorted list.
use mathlib.Core.Path.{◌≡◌, refl, ap}
use mathlib.Core.Bool.{Bool, true}
use mathlib.Core.Logic.{◌⊎◌, inl, inr}
use mathlib.Core.List.{List, [], ◌∷◌, ◌++◌}
use Prim.Native.Nat.{ℕ, zero, suc}
use field_service_management.Base.Lists.{All, take, drop, length}
use field_service_management.Base.Sort.{IsSorted}

module _ {ℓ} {A : Type ℓ} where
  pub take-append-drop : (n : ℕ) (xs : List A) → take n xs ++ drop n xs ≡ xs
  take-append-drop zero xs = refl
  take-append-drop (suc n) [] = refl
  take-append-drop (suc n) (x ∷ xs) = ap (◌∷◌ x) (take-append-drop n xs)

  -- Nothing is left out, or `n` are taken.
  pub take_cases : (n : ℕ) (xs : List A) → (drop n xs ≡ []) ⊎ (length (take n xs) ≡ n)
  take_cases zero xs = inr refl
  take_cases (suc n) [] = inl refl
  take_cases (suc n) (x ∷ xs) = elim (take_cases n xs) [
    | inl none_left ↦ inl none_left
    | inr full ↦ inr (ap suc full)
  ]

  All-take {κ} : (P : A → Type κ) (n : ℕ) (xs : List A) → All P xs → All P (take n xs)
  All-take P zero xs h = tt
  All-take P (suc n) [] h = tt
  All-take P (suc n) (x ∷ xs) h = (h.0, All-take P n xs h.1)

  All-drop {κ} : (P : A → Type κ) (n : ℕ) (xs : List A) → All P xs → All P (drop n xs)
  All-drop P zero xs h = h
  All-drop P (suc n) [] h = tt
  All-drop P (suc n) (x ∷ xs) h = All-drop P n xs h.1

  module _ (before : A → A → Bool) where
    pub take-IsSorted : (n : ℕ) (xs : List A) → IsSorted before xs → IsSorted before (take n xs)
    take-IsSorted zero xs h = tt
    take-IsSorted (suc n) [] h = tt
    take-IsSorted (suc n) (x ∷ xs) h = (All-take _ n xs h.0, take-IsSorted n xs h.1)

    -- Each of the first may stand before each of the others.
    pub take-before-drop :
        (n : ℕ) (xs : List A)
        → IsSorted before xs
        → All (λ x. All (λ y. before x y ≡ true) (drop n xs)) (take n xs)
    take-before-drop zero xs h = tt
    take-before-drop (suc n) [] h = tt
    take-before-drop (suc n) (x ∷ xs) h = (All-drop _ n xs h.0, take-before-drop n xs h.1)
