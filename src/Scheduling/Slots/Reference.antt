-- ===== src/Scheduling/Slots/Reference.antt =====
-- What backend/src/fsm/scheduling/domain/availability.py promises of `generate_slots`, without the
-- sweep: the slots of each working day, of which the free ones are kept.
use field_service_management.Base.{
  ℕ, zero, suc, ◌+◌, ◌-◌, ◌/◌, ◌≤◌, Bool, none, some, List, [], ◌∷◌, ◌++◌, if◌then◌else◌, any,
}
use field_service_management.Scheduling.TimeRange.{TimeRange, overlaps}
use field_service_management.Scheduling.WorkingHours.{DailyHours, WeeklyWorkingHours, window_for}
use field_service_management.Scheduling.Slots.{Zone, weekday_of, at_minute}

-- Some busy interval overlaps the slot.
unfoldable pub conflicts : List TimeRange → TimeRange → Bool
conflicts busy slot = any (overlaps slot) busy

-- `n` consecutive slots of one length, from a naive start.
unfoldable pub row_of_slots : ℕ → Zone → ℕ → ℕ → List TimeRange
row_of_slots zero tz duration s = []
row_of_slots (suc n) tz duration s =
    record { start = tz.localize s; end = tz.localize (s + duration) }
    ∷ row_of_slots n tz duration (s + duration)

-- As many whole slots as the window holds: trailing partial slots are excluded.
unfoldable pub window_slots : Zone → ℕ → ℕ → DailyHours → List TimeRange
unfolding row_of_slots
window_slots tz duration day daily =
    row_of_slots ((at_minute day daily.end - at_minute day daily.start) / duration) tz duration
      (at_minute day daily.start)

unfoldable pub day_slots : WeeklyWorkingHours → Zone → (ℕ → Bool) → ℕ → ℕ → List TimeRange
unfolding window_slots
day_slots hours tz holidays duration day =
    if holidays day then [] else elim (window_for hours (weekday_of day)) [
      | none ↦ []
      | some daily ↦ window_slots tz duration day daily
    ]

unfoldable pub all_slots : ℕ → WeeklyWorkingHours → Zone → (ℕ → Bool) → ℕ → ℕ → List TimeRange
unfolding day_slots
all_slots zero hours tz holidays duration day = []
all_slots (suc days) hours tz holidays duration day =
    day_slots hours tz holidays duration day ++ all_slots days hours tz holidays duration (day + 1)

-- Each slot starts no earlier than the one before it.
abbrev pub IsChronological : ℕ → List TimeRange → Type 0
IsChronological bound [] = Unit
IsChronological bound (s ∷ ss) = (bound ≤ s.start) × IsChronological s.start ss
