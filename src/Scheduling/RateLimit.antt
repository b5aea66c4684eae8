-- ===== src/Scheduling/RateLimit.antt =====
-- backend/src/fsm/scheduling/domain/booking_rate_limit.py. A `timedelta` is its microseconds; the
-- fields are the source's, which are never negative once the constructor has accepted them.
pub mod Window
use field_service_management.Base.{
  ℕ, ◌+◌, ◌-◌, Bool, true, false, ◌||◌, Option, none, some, List, [], ◌∷◌, leb, ltb, length,
  if◌then◌else◌,
}
use field_service_management.Scheduling.Outcome.{Result, ok, err, Error, ◌>>=◌, ◌>>◌, raise_if}

pub record CancellationRateLimit : Type 0 where
  pub max_cancellations : ℕ
  pub window : ℕ
  pub cooloff : ℕ

-- `CancellationRateLimit(...)` with the checks of `__post_init__`.
pub make_limit : ℕ → ℕ → ℕ → Result CancellationRateLimit
make_limit max_cancellations window cooloff = do
  raise_if (ltb max_cancellations 1) Error.value_error
  raise_if (leb window 0 || leb cooloff 0) Error.value_error
  ok (record { max_cancellations = max_cancellations; window = window; cooloff = cooloff })

-- `moment - delta`: a datetime before `datetime.min` is an OverflowError.
unfoldable pub minus : ℕ → ℕ → Result ℕ
minus moment delta = if ltb moment delta then err Error.overflow_error else ok (moment - delta)

-- `[t for t in cancellations if t >= now - self.window]`.
recent : List ℕ → ℕ → ℕ → Result (List ℕ)
unfolding minus
recent [] now window = ok []
recent (t ∷ ts) now window = do
  since ← minus now window
  rest ← recent ts now window
  ok (if leb since t then t ∷ rest else rest)

-- `max(xs)` of a nonempty sequence.
latest : ℕ → List ℕ → ℕ
latest m [] = m
latest m (t ∷ ts) = latest (if ltb m t then t else m) ts

max_of : List ℕ → Result ℕ
unfolding latest
max_of [] = err Error.value_error
max_of (t ∷ ts) = ok (latest t ts)

unfoldable pub blocked_until : CancellationRateLimit → List ℕ → ℕ → Result (Option ℕ)
unfolding recent max_of
blocked_until limit cancellations now = recent cancellations now limit.window >>= λ times.
    if ltb (length times) limit.max_cancellations
    then ok none
    else (max_of times >>= λ last.
        ok (if ltb now (last + limit.cooloff) then some (last + limit.cooloff) else none))
