-- ===== src/Scheduling/Policy/Offered.antt =====
-- The slots that `generate_slots` offers pass the booking policy of `is_available`.
use field_service_management.Base.{
  ℕ, zero, suc, ◌+◌, ◌-◌, ◌*◌, ◌/◌, ◌%◌, ◌≤◌, ◌<◌, ◌≡◌, Bool, true, false, not, some, List, arith,
  All, All-append, All-filter, filter, Bool-cases, Option-cases, inl, inr,
}
use native.Mathlib.Nat.{div-mul-le_self}
use field_service_management.Scheduling.Outcome.{ok}
use field_service_management.Scheduling.TimeRange.{TimeRange}
use field_service_management.Scheduling.WorkingHours.{
  DailyHours, WeeklyWorkingHours, window_for, micros_per_day, micros_per_minute,
}
use field_service_management.Scheduling.Slots.{Zone, weekday_of, at_minute, generate_slots}
use field_service_management.Scheduling.Slots.Reference.{
  conflicts, row_of_slots, day_slots, all_slots, IsChronological,
}
use field_service_management.Scheduling.Slots.Equivalence.{generate_slots-eq-filter}
use field_service_management.Scheduling.Policy.{is_available}

-- Times of day, the start at a whole minute.
abbrev pub IsWholeMinutes : DailyHours → Type 0
IsWholeMinutes dh =
    (dh.start % micros_per_minute ≡ 0) × (dh.start < micros_per_day) × (dh.end < micros_per_day)

-- Every window that the week has for a weekday is of that kind.
abbrev pub HasWholeMinutes : WeeklyWorkingHours → Type 0
HasWholeMinutes hours =
    (weekday : ℕ) (dh : DailyHours) → window_for hours weekday ≡ some dh → IsWholeMinutes dh

-- No working window meets a clock change: its naive times survive the way to an instant and back.
abbrev pub AvoidsClockChanges : WeeklyWorkingHours → Zone → Type 0
AvoidsClockChanges hours tz =
    (day t : ℕ) (dh : DailyHours)
    → window_for hours (weekday_of day) ≡ some dh
    → at_minute day dh.start ≤ t
    → t ≤ at_minute day dh.end
    → tz.to_local (tz.localize t) ≡ t

module _ (hours : WeeklyWorkingHours) (tz : Zone) (holidays : ℕ → Bool)
    (round_trip : AvoidsClockChanges hours tz) (whole : HasWholeMinutes hours) (d : ℕ)
    (pos : 0 < d) where
  abbrev Available : TimeRange → Type 0
  Available t = is_available hours tz holidays t ≡ true

  slot-Available :
      (day s : ℕ) (dh : DailyHours)
      → holidays day ≡ false
      → window_for hours (weekday_of day) ≡ some dh
      → at_minute day dh.start ≤ s
      → s + d ≤ at_minute day dh.end
      → Available (record { start = tz.localize s; end = tz.localize (s + d) })
  unfolding is_available
  slot-Available day s dh on e lo hi =
      let minutes : IsWholeMinutes dh = whole (weekday_of day) dh e in
      let same_start : s / micros_per_day ≡ day = omega arith in
      let same_end : (s + d) / micros_per_day ≡ day = omega arith in
      rw
        (
          round_trip day s dh e lo (omega arith),
          round_trip day (s + d) dh e (omega arith) hi,
          same_start,
          same_end,
          on,
          e,
        )
        (ground arith)

  row_of_slots-Available :
      (n day s : ℕ) (dh : DailyHours)
      → holidays day ≡ false
      → window_for hours (weekday_of day) ≡ some dh
      → at_minute day dh.start ≤ s
      → n * d ≤ at_minute day dh.end - s
      → All Available (row_of_slots n tz d s)
  unfolding row_of_slots
  row_of_slots-Available zero day s dh on e lo hi = tt
  row_of_slots-Available (suc n) day s dh on e lo hi = (
    slot-Available day s dh on e lo (grind arith),
    row_of_slots-Available n day (s + d) dh on e (omega arith) (grind arith),
  )

  day_slots-Available : (day : ℕ) → All Available (day_slots hours tz holidays d day)
  unfolding day_slots
  day_slots-Available day = elim (Bool-cases (holidays day)) [
    | inl off ↦ rw off tt
    | inr on ↦ elim (Option-cases (window_for hours (weekday_of day))) [
      | inl closed ↦ rw (on, closed) tt
      | inr (dh, e) ↦
          rw (on, e)
            (row_of_slots-Available _ day (at_minute day dh.start) dh on e (omega arith)
              (div-mul-le_self (at_minute day dh.end - at_minute day dh.start) d))
    ]
  ]

  all_slots-Available : (n day : ℕ) → All Available (all_slots n hours tz holidays d day)
  unfolding all_slots
  all_slots-Available zero day = tt
  all_slots-Available (suc n) day =
      All-append Available (day_slots hours tz holidays d day)
        (all_slots n hours tz holidays d (day + 1)) (day_slots-Available day)
        (all_slots-Available n (day + 1))

  -- For a positive slot length, working windows whose starts are whole minutes and that meet no
  -- clock change, and slots in chronological order, `generate_slots` returns, and `is_available`
  -- accepts every slot that it offers, with the holidays as the excluded dates.
  pub generate_slots-Available :
      (start_date end_date : ℕ) (busy : List TimeRange)
      → IsChronological 0 (all_slots (end_date + 1 - start_date) hours tz holidays d start_date)
      → (slots : List TimeRange) × (generate_slots hours start_date end_date busy holidays d tz
          ≡ ok slots)
        × All (λ t. is_available hours tz holidays t ≡ true) slots
  generate_slots-Available start_date end_date busy c = (
    filter (λ t. not (conflicts busy t)) offered,
    generate_slots-eq-filter hours start_date end_date busy holidays d tz pos c,
    All-filter Available (λ t. not (conflicts busy t)) offered
        (all_slots-Available (end_date + 1 - start_date) start_date),
  )
    where
      offered : List TimeRange
      offered = all_slots (end_date + 1 - start_date) hours tz holidays d start_date
