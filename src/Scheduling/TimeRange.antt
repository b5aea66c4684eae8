-- ===== src/Scheduling/TimeRange.antt =====
-- backend/src/fsm/scheduling/domain/time_range.py. An aware datetime is its instant: a number of
-- microseconds counted from `datetime.min` in UTC.
use field_service_management.Base.{ℕ, ◌-◌, ◌<◌, ◌≡◌, Bool, ◌&&◌, ltb, leb, if◌then◌else◌, arith}
use field_service_management.Scheduling.Outcome.{Result, ok, err, Error}

pub record TimeRange : Type 0 where
  pub start : ℕ
  pub end : ℕ

-- `TimeRange(start, end)` with the check of `__post_init__`.
unfoldable pub make_range : ℕ → ℕ → Result TimeRange
make_range start end =
    if leb end start then err Error.invalid_time_range else ok (record { start = start; end = end })

unfoldable pub duration : TimeRange → ℕ
duration r = r.end - r.start

abbrev pub overlaps : TimeRange → TimeRange → Bool
overlaps r other = ltb r.start other.end && ltb other.start r.end

abbrev pub IsValidRange : TimeRange → Type 0
IsValidRange r = r.start < r.end

-- What the constructor accepts ends after its start.
pub make_range-IsValidRange :
    (start end : ℕ) (r : TimeRange) → make_range start end ≡ ok r → IsValidRange r
unfolding make_range
make_range-IsValidRange start end r h = ground (arith, h)
