-- ===== src/Scheduling/Policy.antt =====
-- backend/src/fsm/scheduling/domain/availability.py, lines 104 to 140: `is_available`.
pub mod Offered
use field_service_management.Base.{
  ℕ, ◌/◌, ◌%◌, Bool, true, false, not, ◌&&◌, Option, none, some, leb, ◌==◌, if◌then◌else◌,
}
use field_service_management.Scheduling.TimeRange.{TimeRange}
use field_service_management.Scheduling.WorkingHours.{
  DailyHours, WeeklyWorkingHours, window_for, micros_per_day,
}
use field_service_management.Scheduling.Slots.{Zone, weekday_of}

pub record AvailabilityInputs : Type 0 where
  pub working_hours : WeeklyWorkingHours
  pub tz : Zone
  pub excluded_dates : ℕ → Bool

-- `d.date()` and `d.time()` of a naive datetime.
abbrev pub date_of : ℕ → ℕ
date_of t = t / micros_per_day

abbrev pub time_of : ℕ → ℕ
time_of t = t % micros_per_day

fits_window : Option DailyHours → ℕ → ℕ → Bool
fits_window none local_start local_end = false
fits_window (some window) local_start local_end =
    leb window.start (time_of local_start) && leb (time_of local_end) window.end

pub is_available : WeeklyWorkingHours → Zone → (ℕ → Bool) → TimeRange → Bool
unfolding fits_window
is_available hours tz excluded_dates time_range =
    let local_start : ℕ = tz.to_local time_range.start in
    let local_end : ℕ = tz.to_local time_range.end in
    if not (date_of local_start == date_of local_end)
    then false
    else if excluded_dates (date_of local_start)
    then false
    else fits_window (window_for hours (weekday_of (date_of local_start))) local_start local_end
