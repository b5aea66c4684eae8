-- ===== src/Base/Sort/Order.antt =====
-- How sorting goes with a map that keeps the order, with a filter, and with the multiset of a list.
use mathlib.Core.Path.{◌≡◌, refl, sym, ap, ◌∙◌}
use mathlib.Core.Bool.{Bool, true, false}
use mathlib.Core.List.{List, [], ◌∷◌, map, Perm}
use mathlib.Core.List.Perm
use mathlib.Core.Logic.{inl, inr}
use native.Mathlib.Omega.{arith}
use field_service_management.Base.Tests.{Bool-cases}
use field_service_management.Base.Lists.{All, filter, All-filter}
use field_service_management.Base.Sort.{insert_by, sort_by, IsSorted}

module _ {ℓ} {A : Type ℓ} (before : A → A → Bool) where
  insert_by-Perm : (a : A) (xs : List A) → Perm (insert_by before a xs) (a ∷ xs)
  unfolding insert_by
  insert_by-Perm a [] = Perm.refl (a ∷ [])
  insert_by-Perm a (b ∷ bs) = elim (Bool-cases (before a b)) [
    | inl first ↦ rw first (Perm.refl (a ∷ b ∷ bs))
    | inr later ↦ rw later (Perm.trans (Perm.cons b (insert_by-Perm a bs)) (Perm.swap a b bs))
  ]

  pub sort_by-Perm : (xs : List A) → Perm (sort_by before xs) xs
  unfolding sort_by
  sort_by-Perm [] = Perm.nil
  sort_by-Perm (a ∷ rest) =
      Perm.trans (insert_by-Perm a (sort_by before rest)) (Perm.cons a (sort_by-Perm rest))

  module _ (f : A → A) (keeps : (a b : A) → before (f a) (f b) ≡ before a b) where
    insert_by-map :
        (a : A) (xs : List A) → insert_by before (f a) (map f xs) ≡ map f (insert_by before a xs)
    unfolding insert_by
    insert_by-map a [] = refl
    insert_by-map a (b ∷ bs) = elim (Bool-cases (before a b)) [
      | inl first ↦ rw (keeps a b, first) refl
      | inr later ↦ rw (keeps a b, later) (ap (◌∷◌ (f b)) (insert_by-map a bs))
    ]

    pub sort_by-map : (xs : List A) → sort_by before (map f xs) ≡ map f (sort_by before xs)
    unfolding sort_by
    sort_by-map [] = refl
    sort_by-map (a ∷ rest) =
        ap (insert_by before (f a)) (sort_by-map rest) ∙ insert_by-map a (sort_by before rest)

  -- A stable sort by a total order, and a filter: either may come first.
  module _ (total : (a b : A) → before a b ≡ false → before b a ≡ true)
      (transitive : (a b c : A) → before a b ≡ true → before b c ≡ true → before a c ≡ true) where
    All-insert_by :
        (P : A → Type 0) (a : A) (xs : List A) → P a → All P xs → All P (insert_by before a xs)
    unfolding insert_by
    All-insert_by P a [] pa all = (pa, tt)
    All-insert_by P a (b ∷ bs) pa all = elim (Bool-cases (before a b)) [
      | inl first ↦ rw first (pa, all)
      | inr later ↦ rw later (all.0, All-insert_by P a bs pa all.1)
    ]

    precedes-All :
        (a b : A) (xs : List A)
        → before a b ≡ true
        → All (λ c. before b c ≡ true) xs
        → All (λ c. before a c ≡ true) xs
    precedes-All a b [] first all = tt
    precedes-All a b (c ∷ cs) first all =
        (transitive a b c first all.0, precedes-All a b cs first all.1)

    insert_by-IsSorted :
        (a : A) (xs : List A) → IsSorted before xs → IsSorted before (insert_by before a xs)
    unfolding insert_by
    insert_by-IsSorted a [] h = (tt, tt)
    insert_by-IsSorted a (b ∷ bs) h = elim (Bool-cases (before a b)) [
      | inl first ↦ rw first ((first, precedes-All a b bs first h.0), h)
      | inr later ↦ rw later (
        All-insert_by (λ c. before b c ≡ true) a bs (total a b later) h.0,
        insert_by-IsSorted a bs h.1,
      )
    ]

    pub sort_by-IsSorted : (xs : List A) → IsSorted before (sort_by before xs)
    unfolding sort_by
    sort_by-IsSorted [] = tt
    sort_by-IsSorted (a ∷ rest) = insert_by-IsSorted a (sort_by before rest) (sort_by-IsSorted rest)

    insert_by-front :
        (a : A) (xs : List A) → All (λ c. before a c ≡ true) xs → insert_by before a xs ≡ a ∷ xs
    unfolding insert_by
    insert_by-front a [] h = refl
    insert_by-front a (b ∷ bs) h = rw h.0 refl

    filter-insert_by_out :
        (p : A → Bool) (a : A) (xs : List A)
        → p a ≡ false
        → filter p (insert_by before a xs) ≡ filter p xs
    unfolding insert_by
    filter-insert_by_out p a [] out = rw out refl
    filter-insert_by_out p a (b ∷ bs) out = elim (Bool-cases (before a b)) [
      | inl first ↦ rw (first, out) refl
      | inr later ↦ rw later (ground (arith, filter-insert_by_out p a bs out))
    ]

    filter-insert_by_in :
        (p : A → Bool) (a : A) (xs : List A)
        → p a ≡ true
        → IsSorted before xs
        → filter p (insert_by before a xs) ≡ insert_by before a (filter p xs)
    unfolding insert_by
    filter-insert_by_in p a [] kept h = rw kept refl
    filter-insert_by_in p a (b ∷ bs) kept h = elim (Bool-cases (before a b)) [
      | inl first ↦
          rw (first, kept)
            (sym (
              insert_by-front a (filter p (b ∷ bs))
                (All-filter _ p (b ∷ bs) (first, precedes-All a b bs first h.0))))
      | inr later ↦ elim (Bool-cases (p b)) [
        | inl in_b ↦ rw (later, in_b, later) (ap (◌∷◌ b) (filter-insert_by_in p a bs kept h.1))
        | inr out_b ↦ rw (later, out_b) (filter-insert_by_in p a bs kept h.1)
      ]
    ]

    pub sort_by-filter :
        (p : A → Bool) (xs : List A) → sort_by before (filter p xs) ≡ filter p (sort_by before xs)
    unfolding sort_by
    sort_by-filter p [] = refl
    sort_by-filter p (a ∷ rest) = elim (Bool-cases (p a)) [
      | inl kept ↦ rw kept (
          ap (insert_by before a) (sort_by-filter p rest)
          ∙ sym (filter-insert_by_in p a (sort_by before rest) kept (sort_by-IsSorted rest)))
      | inr out ↦
          rw out (sort_by-filter p rest ∙ sym (filter-insert_by_out p a (sort_by before rest) out))
    ]
