-- ===== src/Base/Sort.antt =====
-- Python's `sorted`: stable, by a test that holds of what may stand first.
pub mod Order
pub mod Prefix
use mathlib.Core.Path.{◌≡◌, refl, ap, ◌∙◌}
use mathlib.Core.Bool.{Bool, true}
use mathlib.Core.List.{List, [], ◌∷◌}
use field_service_management.Base.Tests.{if◌then◌else◌}
use field_service_management.Base.Lists.{All}

module _ {ℓ} {A : Type ℓ} (before : A → A → Bool) where
  pub insert_by : A → List A → List A
  insert_by a [] = a ∷ []
  insert_by a (b ∷ bs) = if before a b then a ∷ b ∷ bs else b ∷ insert_by a bs

  unfoldable pub sort_by : List A → List A
  unfolding insert_by
  sort_by [] = []
  sort_by (a ∷ rest) = insert_by a (sort_by rest)

  -- Each may stand before all that follow it.
  abbrev pub IsSorted : List A → Type ℓ
  IsSorted [] = Unit
  IsSorted (a ∷ rest) = All (λ b. before a b ≡ true) rest × IsSorted rest

  -- Sorting leaves what is in order.
  pub sort_by-eq : (xs : List A) → IsSorted xs → sort_by xs ≡ xs
  unfolding sort_by
  sort_by-eq [] h = refl
  sort_by-eq (a ∷ []) h = refl
  sort_by-eq (a ∷ b ∷ rest) h = ap (insert_by a) (sort_by-eq (b ∷ rest) h.1) ∙ rw (h.0.0) refl
