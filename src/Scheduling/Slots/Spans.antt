-- ===== src/Scheduling/Slots/Spans.antt =====
-- Where the slots of backend/src/fsm/scheduling/domain/availability.py lie, between two days with
-- no forward clock change.
use native.Mathlib.Nat.{div-mul-le_self}
use field_service_management.Base.{
  ℕ, zero, suc, ◌+◌, ◌-◌, ◌*◌, ◌/◌, ◌≤◌, ◌<◌, ◌≡◌, sym, ◌==◌, Bool, some, List, [], ◌∷◌, ◌++◌,
  arith, All, All-append, All-mono, Bool-cases, Option-cases, inl, inr,
}
use field_service_management.Scheduling.TimeRange.{TimeRange}
use field_service_management.Scheduling.WorkingHours.{
  DailyHours, WeeklyWorkingHours, window_for, micros_per_day,
}
use field_service_management.Scheduling.Slots.{Zone, weekday_of, at_minute}
use field_service_management.Scheduling.Slots.Reference.{
  row_of_slots, window_slots, day_slots, all_slots, IsChronological,
}

-- Every window of the week ends within its day.
abbrev pub EndsWithinDay : WeeklyWorkingHours → Type 0
EndsWithinDay hours =
    (weekday : ℕ) (dh : DailyHours) → window_for hours weekday ≡ some dh → dh.end < micros_per_day

-- The clock is not set forward between two naive times.
abbrev pub KeepsOrder : Zone → ℕ → ℕ → Type 0
KeepsOrder tz lo hi = (a b : ℕ) → lo ≤ a → a < b → b ≤ hi → tz.localize a < tz.localize b

-- A valid slot between two naive times.
abbrev pub Spans : Zone → ℕ → ℕ → TimeRange → Type 0
Spans tz a b t = (tz.localize a ≤ t.start) × (t.start < t.end) × (t.end ≤ tz.localize b)

IsChronological-append :
    (bound c : ℕ) (xs ys : List TimeRange)
    → bound ≤ c
    → IsChronological bound xs
    → All (λ t. t.start ≤ c) xs
    → IsChronological c ys
    → IsChronological bound (xs ++ ys)
IsChronological-append bound c [] [] le cx all cy = tt
IsChronological-append bound c [] (y ∷ ys) le cx all cy = (omega arith, cy.1)
IsChronological-append bound c (x ∷ xs) ys le cx all cy =
    (cx.0, IsChronological-append x.start c xs ys all.0 cx.1 all.1 cy)

module _ (hours : WeeklyWorkingHours) (tz : Zone) (holidays : ℕ → Bool) (d lo hi : ℕ) (pos : 0 < d)
    (keeps : KeepsOrder tz lo hi) (ends : EndsWithinDay hours) where
  localize_mono : (a b : ℕ) → lo ≤ a → a ≤ b → b ≤ hi → tz.localize a ≤ tz.localize b
  localize_mono a b from le to = elim (Bool-cases (a == b)) [
    | inl same ↦ (let e : a ≡ b = ground arith in rw e (omega arith))
    | inr other ↦
        let lt : tz.localize a < tz.localize b = keeps a b from (ground arith) to in
        omega (arith, lt)
  ]

  row_of_slots-Spans :
      (n a b s : ℕ)
      → lo ≤ a
      → a ≤ s
      → n * d ≤ b - s
      → b ≤ hi
      → All (Spans tz a b) (row_of_slots n tz d s)
  unfolding row_of_slots
  row_of_slots-Spans zero a b s from le fit to = tt
  row_of_slots-Spans (suc n) a b s from le fit to =
      let last : s + d ≤ b = grind arith in
      (
        (
          localize_mono a s from le (omega arith),
          keeps s (s + d) (omega arith) (omega arith) (omega arith),
          localize_mono (s + d) b (omega arith) last to,
        ),
        row_of_slots-Spans n a b (s + d) from (omega arith) (grind arith) to,
      )

  row_of_slots-IsChronological :
      (n a b s : ℕ)
      → lo ≤ a
      → a ≤ s
      → n * d ≤ b - s
      → b ≤ hi
      → IsChronological (tz.localize a) (row_of_slots n tz d s)
  unfolding row_of_slots
  row_of_slots-IsChronological zero a b s from le fit to = tt
  row_of_slots-IsChronological (suc n) a b s from le fit to =
      let last : s + d ≤ b = grind arith in
      (
        localize_mono a s from le (omega arith),
        row_of_slots-IsChronological n s b (s + d) (omega arith) (omega arith) (grind arith) to,
      )

  abbrev pub Placed : ℕ → ℕ → List TimeRange → Type 0
  Placed a b ts = IsChronological (tz.localize a) ts × All (Spans tz a b) ts

  day_slots-Placed :
      (day : ℕ)
      → lo ≤ day * micros_per_day
      → (day + 1) * micros_per_day ≤ hi
      → Placed
          (day * micros_per_day)
          ((day + 1) * micros_per_day)
          (day_slots hours tz holidays d day)
  unfolding day_slots window_slots
  day_slots-Placed day from to = elim (Bool-cases (holidays day)) [
    | inl off ↦ rw off (tt, tt)
    | inr on ↦ elim (Option-cases (window_for hours (weekday_of day))) [
      | inl closed ↦ rw (on, closed) (tt, tt)
      | inr (dh, e) ↦
          let short : dh.end < micros_per_day = ends (weekday_of day) dh e in
          let s : ℕ = at_minute day dh.start in
          let b : ℕ = at_minute day dh.end in
          let fit : (b - s) / d * d ≤ b - s = div-mul-le_self (b - s) d in
          rw (on, e)
            (
              row_of_slots-IsChronological ((b - s) / d) (day * micros_per_day)
                  ((day + 1) * micros_per_day) s from (omega arith) (omega arith) to,
              row_of_slots-Spans ((b - s) / d) (day * micros_per_day) ((day + 1) * micros_per_day) s
                  from (omega arith) (omega arith) to,
            )
    ]
  ]

  pub all_slots-Placed :
      (n day : ℕ)
      → lo ≤ day * micros_per_day
      → (day + n) * micros_per_day ≤ hi
      → Placed
          (day * micros_per_day)
          ((day + n) * micros_per_day)
          (all_slots n hours tz holidays d day)
  unfolding all_slots
  all_slots-Placed zero day from to = (tt, tt)
  all_slots-Placed (suc n) day from to =
      let first : Placed (day * micros_per_day) ((day + 1) * micros_per_day)
          (day_slots hours tz holidays d day) =
        day_slots-Placed day from (omega arith) in
      let rest : Placed ((day + 1) * micros_per_day) ((day + 1 + n) * micros_per_day)
          (all_slots n hours tz holidays d (day + 1)) =
        all_slots-Placed n (day + 1) (omega arith) (omega arith) in
      let up : tz.localize ((day + 1) * micros_per_day)
          ≤ tz.localize ((day + suc n) * micros_per_day) =
        localize_mono ((day + 1) * micros_per_day) ((day + suc n) * micros_per_day) (omega arith)
          (omega arith) to in
      let down : tz.localize (day * micros_per_day) ≤ tz.localize ((day + 1) * micros_per_day) =
        localize_mono (day * micros_per_day) ((day + 1) * micros_per_day) from (omega arith)
          (omega arith) in
      let same : day + 1 + n ≡ day + suc n = omega arith in
      (
        IsChronological-append _ (tz.localize ((day + 1) * micros_per_day)) _ _ down first.0
            (All-mono (day_slots hours tz holidays d day)
              (λ (t : TimeRange)
                  (h : Spans tz (day * micros_per_day) ((day + 1) * micros_per_day) t).
                omega (arith, h.1, h.2))
              first.1)
            rest.0,
        All-append (Spans tz (day * micros_per_day) ((day + suc n) * micros_per_day)) _ _
            (All-mono (day_slots hours tz holidays d day)
              (λ (t : TimeRange)
                  (h : Spans tz (day * micros_per_day) ((day + 1) * micros_per_day) t).
                (h.0, h.1, omega (arith, h.2, up)))
              first.1)
            (All-mono (all_slots n hours tz holidays d (day + 1))
              (λ (t : TimeRange)
                  (h : Spans tz ((day + 1) * micros_per_day) ((day + 1 + n) * micros_per_day) t).
                (omega (arith, h.0, down), h.1, rw (sym same) h.2))
              rest.1),
      )
