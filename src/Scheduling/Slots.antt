-- ===== src/Scheduling/Slots.antt =====
-- backend/src/fsm/scheduling/domain/availability.py, lines 25 to 101: `generate_slots`, the
-- two-pointer sweep. A date is its proleptic ordinal (`date.toordinal`), a naive datetime the
-- microseconds from the midnight of ordinal 0. The pointer `left_ptr` into the sorted busy list is
-- the rest of that list from it on.
pub mod Reference
pub mod Conflicts
pub mod Equivalence
pub mod Spans
use field_service_management.Base.{
  ℕ, zero, suc, ◌+◌, ◌-◌, ◌*◌, ◌/◌, ◌%◌, Bool, true, false, Option, none, some, List, [], ◌∷◌, ◌++◌,
  leb, ltb, if◌then◌else◌,
}
use field_service_management.Scheduling.Outcome.{Result, ok, err, Error, ◌>>=◌}
use field_service_management.Scheduling.TimeRange.{TimeRange, make_range, overlaps}
use field_service_management.Scheduling.WorkingHours.{
  DailyHours, WeeklyWorkingHours, window_for, micros_per_minute, micros_per_day,
}

-- A `tzinfo`: `naive.replace(tzinfo=tz)` as an instant, and `instant.astimezone(tz)` as a naive
-- datetime. The zone database is not part of the repository.
pub record Zone : Type 0 where
  pub localize : ℕ → ℕ
  pub to_local : ℕ → ℕ

-- `date.weekday()`.
abbrev pub weekday_of : ℕ → ℕ
weekday_of day = (day + 6) % 7

-- `datetime(y, m, d, t.hour, t.minute)`: seconds and below are dropped.
abbrev pub at_minute : ℕ → ℕ → ℕ
at_minute day t = day * micros_per_day + t / micros_per_minute * micros_per_minute

-- `sorted(busy, key=lambda b: b.start)`, which is stable.
pub insert_by_start : TimeRange → List TimeRange → List TimeRange
insert_by_start b [] = b ∷ []
insert_by_start b (c ∷ cs) = if leb b.start c.start then b ∷ c ∷ cs else c ∷ insert_by_start b cs

pub sort_by_start : List TimeRange → List TimeRange
unfolding insert_by_start
sort_by_start [] = []
sort_by_start (b ∷ bs) = insert_by_start b (sort_by_start bs)

-- `while left_ptr < len(busy_list) and busy_list[left_ptr].end <= slot.start`.
pub advance : ℕ → List TimeRange → List TimeRange
advance start [] = []
advance start (b ∷ bs) = if leb b.end start then advance start bs else b ∷ bs

-- `while i < len(busy_list) and busy_list[i].start < slot.end`: is the slot free?
pub scan : TimeRange → List TimeRange → Bool
scan slot [] = true
scan slot (b ∷ bs) =
    if ltb b.start slot.end then (if overlaps slot b then false else scan slot bs) else true

pub record Sweep : Type 0 where
  pub left : List TimeRange
  pub slots : List TimeRange

-- The body of the inner `while`, once the slot is built.
unfoldable pub visit : TimeRange → Sweep → Sweep
unfolding advance scan
visit slot w =
    let left = advance slot.start w.left in
    record { left = left; slots = if scan slot left then w.slots ++ slot ∷ [] else w.slots }

-- `TimeRange(start=naive_s.replace(tzinfo=tz), end=naive_e.replace(tzinfo=tz))`. Python compares
-- two datetimes of one `tzinfo` by their naive values, so the check of the constructor does.
unfoldable pub slot_at : Zone → ℕ → ℕ → Result TimeRange
slot_at tz naive_s naive_e =
    if leb naive_e naive_s
    then err Error.invalid_time_range
    else ok (record { start = tz.localize naive_s; end = tz.localize naive_e })

-- `while naive_s + slot_duration <= naive_window_end`, on fuel.
pub carve : ℕ → Zone → ℕ → ℕ → ℕ → Sweep → Result Sweep
carve zero tz duration window_end naive_s w = err Error.out_of_fuel
carve (suc fuel) tz duration window_end naive_s w =
    let rest : Result Sweep = slot_at tz naive_s (naive_s + duration) >>= λ slot.
    carve fuel tz duration window_end (naive_s + duration) (visit slot w) in
    if leb (naive_s + duration) window_end then rest else ok w

-- The body of the day loop for a working day. Each round moves `naive_s` on by a microsecond at
-- least, so the length of the window is enough fuel.
pub carve_window : Zone → ℕ → ℕ → DailyHours → Sweep → Result Sweep
unfolding carve
carve_window tz duration day daily w =
    carve (suc (suc (at_minute day daily.end - at_minute day daily.start))) tz duration
      (at_minute day daily.end) (at_minute day daily.start) w

pub visit_day : WeeklyWorkingHours → Zone → (ℕ → Bool) → ℕ → ℕ → Sweep → Result Sweep
unfolding carve_window window_for
visit_day hours tz holidays duration day w =
    if holidays day then ok w else elim (window_for hours (weekday_of day)) [
      | none ↦ ok w
      | some daily ↦ carve_window tz duration day daily w
    ]

-- `while current <= end_date`, on the days that are left.
pub visit_days : ℕ → WeeklyWorkingHours → Zone → (ℕ → Bool) → ℕ → ℕ → Sweep → Result Sweep
unfolding visit_day
visit_days zero hours tz holidays duration current w = ok w
visit_days (suc days) hours tz holidays duration current w =
    visit_day hours tz holidays duration current w >>= λ w'.
    visit_days days hours tz holidays duration (current + 1) w'

unfoldable pub generate_slots :
    WeeklyWorkingHours → ℕ → ℕ → List TimeRange → (ℕ → Bool) → ℕ → Zone → Result (List TimeRange)
unfolding sort_by_start visit_days
generate_slots hours start_date end_date busy holidays duration tz =
    visit_days (end_date + 1 - start_date) hours tz holidays duration start_date
      (record { left = sort_by_start busy; slots = [] })
    >>= λ w. ok w.slots
