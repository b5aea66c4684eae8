-- ===== src/Scheduling/WorkingHours.antt =====
-- backend/src/fsm/scheduling/domain/working_hours.py. A time of day is a number of microseconds
-- after midnight; a weekday is a number, Monday 0 to Sunday 6.
pub mod Lookup
use field_service_management.Base.{
  ℕ, ◌*◌, ◌≤◌, ◌<◌, ◌≡◌, refl, ◌≢◌, Bool, true, false, ◌||◌, Option, none, some, List, [], ◌∷◌, map,
  any, All, arith, leb, ◌==◌, if◌then◌else◌,
}
use field_service_management.Scheduling.Outcome.{Result, ok, err, Error, ◌>>=◌, ◌>>◌, raise_if}

pub record DailyHours : Type 0 where
  pub weekday : ℕ
  pub start : ℕ
  pub end : ℕ

-- `DailyHours(weekday, start, end)` with the check of `__post_init__`.
unfoldable pub make_daily : ℕ → ℕ → ℕ → Result DailyHours
make_daily weekday start end =
    if leb end start
    then err Error.invalid_time_range
    else ok (record { weekday = weekday; start = start; end = end })

pub record WeeklyWorkingHours : Type 0 where
  pub windows : List DailyHours

-- `len(weekdays) != len(set(weekdays))`: some weekday stands twice.
has_duplicates : List ℕ → Bool
has_duplicates [] = false
has_duplicates (x ∷ xs) = any (λ y. x == y) xs || has_duplicates xs

-- `WeeklyWorkingHours(windows)` with the check of `__post_init__`.
unfoldable pub make_weekly : List DailyHours → Result WeeklyWorkingHours
unfolding has_duplicates
make_weekly windows =
    if has_duplicates (map (λ (dh : DailyHours). dh.weekday) windows)
    then err Error.scheduling_error
    else ok (record { windows = windows })

first_window : ℕ → List DailyHours → Option DailyHours
first_window weekday [] = none
first_window weekday (dh ∷ rest) =
    if dh.weekday == weekday then some dh else first_window weekday rest

unfoldable pub window_for : WeeklyWorkingHours → ℕ → Option DailyHours
unfolding first_window
window_for hours weekday = first_window weekday hours.windows

abbrev pub micros_per_minute : ℕ
micros_per_minute = 60_000_000

abbrev pub micros_per_day : ℕ
micros_per_day = 86_400_000_000

-- `time(hour, 0)`.
abbrev pub oclock : ℕ → ℕ
oclock hour = hour * 60 * micros_per_minute

default_windows : List ℕ → Result (List DailyHours)
unfolding make_daily
default_windows [] = ok []
default_windows (wd ∷ wds) = do
  dh ← make_daily wd (oclock 9) (oclock 17)
  rest ← default_windows wds
  ok (dh ∷ rest)

-- `WeeklyWorkingHours.default()`: Sunday to Thursday, 09:00 to 17:00.
unfoldable pub default_hours : Result WeeklyWorkingHours
unfolding default_windows make_weekly
default_hours = default_windows (6 ∷ 0 ∷ 1 ∷ 2 ∷ 3 ∷ []) >>= make_weekly
