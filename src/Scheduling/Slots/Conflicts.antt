-- ===== src/Scheduling/Slots/Conflicts.antt =====
-- The two pointers of `generate_slots` lose no conflict: what is skipped cannot overlap.
use field_service_management.Base.{
  ℕ, ◌≤◌, ◌≡◌, refl, false, not, List, [], ◌∷◌, arith, All, ltb, Bool-cases, inl, inr, All-mono,
}
use field_service_management.Scheduling.TimeRange.{TimeRange}
use field_service_management.Scheduling.Slots.{insert_by_start, sort_by_start, advance, scan}
use field_service_management.Scheduling.Slots.Reference.{conflicts}

-- In the order of their starts.
abbrev pub IsSorted : List TimeRange → Type 0
IsSorted [] = Unit
IsSorted (b ∷ bs) = All (λ c. b.start ≤ c.start) bs × IsSorted bs

insert_by_start-All :
    (m : ℕ) (b : TimeRange) (bs : List TimeRange)
    → m ≤ b.start
    → All (λ c. m ≤ c.start) bs
    → All (λ c. m ≤ c.start) (insert_by_start b bs)
unfolding insert_by_start
insert_by_start-All m b [] h all = (h, tt)
insert_by_start-All m b (c ∷ cs) h all = ground (arith, insert_by_start-All m b cs h all.1)

insert_by_start-IsSorted :
    (b : TimeRange) (bs : List TimeRange) → IsSorted bs → IsSorted (insert_by_start b bs)
unfolding insert_by_start
insert_by_start-IsSorted b [] s = (tt, tt)
insert_by_start-IsSorted b (c ∷ cs) s = ground (
  arith,
  insert_by_start-IsSorted b cs s.1,
  insert_by_start-All c.start b cs,
  All-mono {P = λ (x : TimeRange). c.start ≤ x.start} {Q = λ (x : TimeRange). b.start ≤ x.start} cs,
)

pub sort_by_start-IsSorted : (bs : List TimeRange) → IsSorted (sort_by_start bs)
unfolding sort_by_start
sort_by_start-IsSorted [] = tt
sort_by_start-IsSorted (b ∷ bs) =
    insert_by_start-IsSorted b (sort_by_start bs) (sort_by_start-IsSorted bs)

conflicts-insert_by_start :
    (b t : TimeRange) (bs : List TimeRange)
    → conflicts (insert_by_start b bs) t ≡ conflicts (b ∷ bs) t
unfolding insert_by_start conflicts
conflicts-insert_by_start b t [] = refl
conflicts-insert_by_start b t (c ∷ cs) = ground (arith, conflicts-insert_by_start b t cs)

pub conflicts-sort_by_start :
    (bs : List TimeRange) (t : TimeRange) → conflicts (sort_by_start bs) t ≡ conflicts bs t
unfolding sort_by_start conflicts
conflicts-sort_by_start [] t = refl
conflicts-sort_by_start (b ∷ bs) t =
    ground (arith, conflicts-insert_by_start b t (sort_by_start bs), conflicts-sort_by_start bs t)

-- Intervals that end at or before `start` overlap no slot that begins there or later.
pub conflicts-advance :
    (start : ℕ) (bs : List TimeRange) (t : TimeRange)
    → start ≤ t.start
    → conflicts (advance start bs) t ≡ conflicts bs t
unfolding advance conflicts
conflicts-advance start [] t h = refl
conflicts-advance start (b ∷ bs) t h = ground (arith, conflicts-advance start bs t h)

pub advance-IsSorted : (start : ℕ) (bs : List TimeRange) → IsSorted bs → IsSorted (advance start bs)
unfolding advance
advance-IsSorted start [] s = tt
advance-IsSorted start (b ∷ bs) s = ground (arith, advance-IsSorted start bs s.1)

conflicts_late :
    (bs : List TimeRange) (t : TimeRange) → All (λ c. t.end ≤ c.start) bs → conflicts bs t ≡ false
unfolding conflicts
conflicts_late [] t h = refl
conflicts_late (b ∷ bs) t h = ground (arith, conflicts_late bs t h.1)

-- The scan of a sorted list may stop at the first interval that starts at the slot's end or later.
pub scan-eq-not-conflicts :
    (bs : List TimeRange) (t : TimeRange) → IsSorted bs → scan t bs ≡ not (conflicts bs t)
unfolding scan conflicts
scan-eq-not-conflicts [] t s = refl
scan-eq-not-conflicts (b ∷ bs) t s = elim (Bool-cases (ltb b.start t.end)) [
  | inl early ↦ ground (arith, scan-eq-not-conflicts bs t s.1)
  | inr late ↦ ground (
    arith,
    conflicts_late bs t (
        All-mono {P = λ (x : TimeRange). b.start ≤ x.start} {Q = λ (x : TimeRange). t.end ≤ x.start}
          bs (λ x p. ground arith) s.0),
  )
]
