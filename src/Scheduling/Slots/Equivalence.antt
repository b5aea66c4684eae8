-- ===== src/Scheduling/Slots/Equivalence.antt =====
-- `generate_slots` keeps exactly the free slots of its working days.
use native.Mathlib.Nat.{div-eq-sub-div, div-eq_of_lt}
use native.Mathlib.Numerals.{add-one}
use mathlib.Core.List.{append-nil, append_assoc}
use field_service_management.Base.{
  ℕ, zero, suc, ◌+◌, ◌-◌, ◌/◌, ◌≤◌, ◌<◌, ◌≡◌, refl, ap, ◌∙◌, sym, Bool, false, not, List, [], ◌∷◌,
  ◌++◌, arith, leb, filter, Bool-cases, Option-cases, inl, inr,
}
use field_service_management.Scheduling.Outcome.{ok}
use field_service_management.Scheduling.TimeRange.{TimeRange}
use field_service_management.Scheduling.WorkingHours.{DailyHours, WeeklyWorkingHours, window_for}
use field_service_management.Scheduling.Slots.{
  Zone, Sweep, weekday_of, at_minute, advance, visit, slot_at, carve, carve_window, visit_day,
  visit_days, sort_by_start, generate_slots,
}
use field_service_management.Scheduling.Slots.Reference.{
  conflicts, row_of_slots, window_slots, day_slots, all_slots, IsChronological,
}
use field_service_management.Scheduling.Slots.Conflicts.{
  IsSorted, sort_by_start-IsSorted, conflicts-sort_by_start, conflicts-advance, advance-IsSorted,
  scan-eq-not-conflicts,
}

sweep : List TimeRange → Sweep → Sweep
sweep [] w = w
sweep (s ∷ ss) w = sweep ss (visit s w)

sweep-append : (ss ts : List TimeRange) (w : Sweep) → sweep (ss ++ ts) w ≡ sweep ts (sweep ss w)
unfolding sweep
sweep-append [] ts w = refl
sweep-append (s ∷ ss) ts w = sweep-append ss ts (visit s w)

-- The inner loop visits each whole slot of the window once, and has fuel for it.
carve-eq-sweep :
    (fuel : ℕ) (tz : Zone) (d e s : ℕ) (w : Sweep)
    → 0 < d
    → e - s < fuel
    → carve fuel tz d e s w ≡ ok (sweep (row_of_slots ((e - s) / d) tz d s) w)
unfolding carve sweep row_of_slots slot_at
carve-eq-sweep zero tz d e s w pos lt = elim lt [ ]
carve-eq-sweep (suc fuel) tz d e s w pos lt = elim (Bool-cases (leb (s + d) e)) [
  | inl more ↦
      let count : (e - s) / d ≡ suc ((e - (s + d)) / d) =
        div-eq-sub-div {m = d} {n = e - s} pos (ground arith)
        ∙ (add-one ((e - s - d) / d) ∙ ap (λ k. suc (k / d)) (ground arith)) in
      let built : leb (s + d) s ≡ false = ground arith in
      rw (count, more, built)
        (carve-eq-sweep fuel tz d e (s + d)
          (visit (record { start = tz.localize s; end = tz.localize (s + d) }) w) pos
          (ground arith))
  | inr done ↦ rw (div-eq_of_lt {n = e - s} {m = d} (ground arith), done)
]

carve_window-eq-sweep :
    (tz : Zone) (d day : ℕ) (daily : DailyHours) (w : Sweep)
    → 0 < d
    → carve_window tz d day daily w ≡ ok (sweep (window_slots tz d day daily) w)
unfolding carve_window window_slots
carve_window-eq-sweep tz d day daily w pos =
    let s : ℕ = at_minute day daily.start in
    let e : ℕ = at_minute day daily.end in
    carve-eq-sweep (suc (suc (e - s))) tz d e s w pos (omega arith)

visit_day-eq-sweep :
    (hours : WeeklyWorkingHours) (tz : Zone) (holidays : ℕ → Bool) (d day : ℕ) (w : Sweep)
    → 0 < d
    → visit_day hours tz holidays d day w ≡ ok (sweep (day_slots hours tz holidays d day) w)
unfolding visit_day day_slots sweep
visit_day-eq-sweep hours tz holidays d day w pos = elim (Bool-cases (holidays day)) [
  | inl off ↦ rw off
  | inr on ↦ elim (Option-cases (window_for hours (weekday_of day))) [
    | inl closed ↦ rw (on, closed)
    | inr (daily, e) ↦ rw (on, e) (carve_window-eq-sweep tz d day daily w pos)
  ]
]

visit_days-eq-sweep :
    (n : ℕ) (hours : WeeklyWorkingHours) (tz : Zone) (holidays : ℕ → Bool) (d day : ℕ) (w : Sweep)
    → 0 < d
    → visit_days n hours tz holidays d day w ≡ ok (sweep (all_slots n hours tz holidays d day) w)
unfolding visit_days all_slots sweep
visit_days-eq-sweep zero hours tz holidays d day w pos = refl
visit_days-eq-sweep (suc n) hours tz holidays d day w pos =
    rw
      (
        visit_day-eq-sweep hours tz holidays d day w pos,
        sweep-append (day_slots hours tz holidays d day) (all_slots n hours tz holidays d (day + 1))
            w,
      )
      (visit_days-eq-sweep n hours tz holidays d (day + 1)
        (sweep (day_slots hours tz holidays d day) w) pos)

-- The pointer's list answers for every slot from `bound` on as the whole busy list does.
record Tracks (busy : List TimeRange) (bound : ℕ) (left : List TimeRange) : Type 0 where
  sorted : IsSorted left
  faithful : (t : TimeRange) → bound ≤ t.start → conflicts left t ≡ conflicts busy t

abbrev is_free : List TimeRange → TimeRange → Bool
is_free busy t = not (conflicts busy t)

visit-Tracks :
    (busy : List TimeRange) (bound : ℕ) (s : TimeRange) (w : Sweep)
    → bound ≤ s.start
    → Tracks busy bound w.left
    → Tracks busy s.start (visit s w).left
unfolding visit
visit-Tracks busy bound s w h v = record {
  sorted = advance-IsSorted s.start w.left v.sorted;
  faithful = λ t le. conflicts-advance s.start w.left t le ∙ v.faithful t (omega arith);
}

visit-slots :
    (busy : List TimeRange) (bound : ℕ) (s : TimeRange) (w : Sweep)
    → bound ≤ s.start
    → Tracks busy bound w.left
    → (visit s w).slots ≡ w.slots ++ filter (is_free busy) (s ∷ [])
unfolding visit
visit-slots busy bound s w h v =
    rw
      (
        scan-eq-not-conflicts (advance s.start w.left) s (advance-IsSorted s.start w.left v.sorted),
        conflicts-advance s.start w.left s (omega arith),
        v.faithful s h,
      )
      (ground (arith, append-nil w.slots))

sweep-slots :
    (ss busy : List TimeRange) (bound : ℕ) (w : Sweep)
    → IsChronological bound ss
    → Tracks busy bound w.left
    → (sweep ss w).slots ≡ w.slots ++ filter (is_free busy) ss
unfolding sweep
sweep-slots [] busy bound w c v = sym (append-nil w.slots)
sweep-slots (s ∷ ss) busy bound w c v =
    sweep-slots ss busy s.start (visit s w) c.1 (visit-Tracks busy bound s w c.0 v)
    ∙ (rw (visit-slots busy bound s w c.0 v) (
        append_assoc w.slots (filter (is_free busy) (s ∷ [])) (filter (is_free busy) ss)
        ∙ ap (λ t. w.slots ++ t) (ground arith)))

-- For a positive slot length, and where the slots of the range start in chronological order,
-- `generate_slots` returns: each whole slot of each working day that is no holiday, in order, less
-- those that overlap a busy interval. The busy intervals may come in any order and may overlap.
pub generate_slots-eq-filter :
    (hours : WeeklyWorkingHours) (start_date end_date : ℕ) (busy : List TimeRange)
    (holidays : ℕ → Bool) (d : ℕ) (tz : Zone)
    → 0 < d
    → IsChronological 0 (all_slots (end_date + 1 - start_date) hours tz holidays d start_date)
    → generate_slots hours start_date end_date busy holidays d tz
      ≡ ok (
          filter
            (λ t. not (conflicts busy t))
            (all_slots (end_date + 1 - start_date) hours tz holidays d start_date))
unfolding generate_slots
generate_slots-eq-filter hours start_date end_date busy holidays d tz pos c =
    rw
      (visit_days-eq-sweep (end_date + 1 - start_date) hours tz holidays d start_date
        (record { left = sort_by_start busy; slots = [] }) pos)
      (ap ok (
        sweep-slots _ busy 0 (record { left = sort_by_start busy; slots = [] }) c
          (record {
            sorted = sort_by_start-IsSorted busy;
            faithful = λ t _. conflicts-sort_by_start busy t;
          })))
