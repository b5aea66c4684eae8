-- ===== src/Base/Rows.antt =====
-- A table of rows that carry their own key: look up by key, and overwrite the row of a key.
use field_service_management.Base.Tests.{◌==◌, if◌then◌else◌}
use field_service_management.Base.Lists.{All, length}
use Prim.Native.Nat.{ℕ}
use mathlib.Core.Path.{◌≡◌, refl}
use mathlib.Core.Logic.{◌≢◌}
use mathlib.Core.Option.{Option, none, some}
use mathlib.Core.List.{List, [], ◌∷◌}
use native.Mathlib.Omega.{arith}

module _ {ℓ} {A : Type ℓ} (key : A → ℕ) where
  -- `session.get(Row, id)`.
  abbrev pub find : ℕ → List A → Option A
  find k [] = none
  find k (x ∷ xs) = if key x == k then some x else find k xs

  -- Writes the columns of the row that has the key of `a`.
  abbrev pub put : A → List A → List A
  put a [] = []
  put a (x ∷ xs) = if key x == key a then a ∷ xs else x ∷ put a xs

  pub find-key : (k : ℕ) (xs : List A) (a : A) → find k xs ≡ some a → key a ≡ k
  find-key k [] a h = ground arith
  find-key k (x ∷ xs) a h = ground (arith, find-key k xs a)

  pub find-put_self :
      (a b : A) (xs : List A) → find (key a) xs ≡ some b → find (key a) (put a xs) ≡ some a
  find-put_self a b [] h = ground arith
  find-put_self a b (x ∷ xs) h = ground (arith, find-put_self a b xs)

  pub find-put_ne : (k : ℕ) (a : A) (xs : List A) → key a ≢ k → find k (put a xs) ≡ find k xs
  find-put_ne k a [] h = refl
  find-put_ne k a (x ∷ xs) h = ground (arith, find-put_ne k a xs h)

  pub All-put {κ} : (P : A → Type κ) (a : A) (xs : List A) → P a → All P xs → All P (put a xs)
  All-put P a [] pa h = tt
  All-put P a (x ∷ xs) pa h = ground (arith, All-put P a xs pa h.1)

  pub All-find {κ} :
      (P : A → Type κ) (k : ℕ) (xs : List A) (a : A) → find k xs ≡ some a → All P xs → P a
  All-find P k [] a h all = ground arith
  All-find P k (x ∷ xs) a h all =
      ground (arith, λ (e : find k xs ≡ some a). All-find P k xs a e all.1)

  pub length-put : (a : A) (xs : List A) → length (put a xs) ≡ length xs
  length-put a [] = refl
  length-put a (x ∷ xs) = ground (arith, length-put a xs)
