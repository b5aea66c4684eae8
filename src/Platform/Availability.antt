-- ===== src/Platform/Availability.antt =====
-- The availability routes of backend/src/fsm/platform/api/scheduling_routes.py. The calendar of a
-- technician is a parameter: none where resolving it raises, else its busy times, which may raise. The
-- reads of holidays and days off do not raise here, so their fallbacks are not entered.
pub mod Pool
use field_service_management.Base.{
  ℕ, ◌*◌, Bool, true, false, ◌&&◌, ◌||◌, Option, none, some, List, [], ◌∷◌, ◌++◌, map, any, take,
  leb, ltb, ◌==◌, if◌then◌else◌,
}
use field_service_management.Base.Sort.{sort_by}
use field_service_management.Base.Text.{Text}
use field_service_management.Identity.User.{
  User, Answer, returned, raised, is_approved_technician, preferred_name,
}
use field_service_management.Identity.Users
use field_service_management.Scheduling.Outcome.{Result, ok, err, Error}
use field_service_management.Scheduling.Outcome
use field_service_management.Scheduling.TimeRange.{TimeRange}
use field_service_management.Scheduling.WorkingHours.{
  WeeklyWorkingHours, default_hours, micros_per_minute,
}
use field_service_management.Scheduling.Booking.{AppointmentService, propose_slots}
use field_service_management.Platform.Backend.{
  Backend, Settings, Handler, Response, answers, crashes, of_result,
}
use field_service_management.Platform.Session.{Session, SessionUser, require_user}
use field_service_management.Platform.Backend
use field_service_management.Platform.Schedules.{
  get_for_technician, holidays_between, days_off_between,
}

abbrev pub BusyTimes : Type 0
BusyTimes = ℕ → ℕ → ℕ → Result (List TimeRange)

abbrev pub Calendars : Type 0
Calendars = ℕ → Option BusyTimes

-- `NullCalendarPort`.
abbrev pub never_busy : BusyTimes
never_busy technician_id start end = ok []

-- `_resolve_calendar`.
abbrev pub resolve_calendar : Calendars → ℕ → BusyTimes
resolve_calendar calendars technician_id = elim (calendars technician_id) [
  | none ↦ never_busy
  | some busy ↦ busy
]

-- Stored hours that the domain refuses are replaced by the default.
abbrev pub or_default : Result WeeklyWorkingHours → Result WeeklyWorkingHours
or_default (ok hours) = ok hours
or_default (err e) = default_hours

abbrev pub is_excluded : ℕ → ℕ → ℕ → Backend → ℕ → Bool
is_excluded technician_id date_from date_to b day =
    any (λ d. d == day) (holidays_between date_from date_to b.holidays)
    || any (λ d. d == day) (days_off_between technician_id date_from date_to b.time_off)

unfoldable pub compute_slots :
    Settings → Calendars → ℕ → ℕ → ℕ → ℕ → ℕ → Backend → Result (List TimeRange)
compute_slots settings calendars now technician_id date_from date_to slot_minutes b =
    Outcome.◌>>=◌ (or_default (get_for_technician technician_id b.working_hours)) λ hours.
      propose_slots
        (record {
          get_busy = resolve_calendar calendars technician_id;
          contact_resolver = none;
          cancellation_limit = none;
        })
        now technician_id hours settings.timezone date_from date_to
        (slot_minutes * micros_per_minute) (is_excluded technician_id date_from date_to b) b.store

unfoldable pub get_availability :
    Settings → Calendars → ℕ → Session → ℕ → ℕ → ℕ → ℕ → Handler (List TimeRange)
get_availability settings calendars now session technician_id date_from date_to slot_minutes =
    Backend.◌>>=◌ (require_user session) λ user. λ b. (
      of_result
          (compute_slots settings calendars now technician_id date_from date_to slot_minutes b),
      b,
    )

pub record PooledSlot : Type 0 where
  pub technician_id : ℕ
  pub technician_name : Text
  pub start : ℕ
  pub end : ℕ

abbrev pub pooled : User → TimeRange → PooledSlot
pooled user slot = record {
  technician_id = user.id;
  technician_name = preferred_name user;
  start = slot.start;
  end = slot.end;
}

-- A technician whose slots raise is skipped.
abbrev pub or_skipped : Result (List TimeRange) → List TimeRange
or_skipped (ok slots) = slots
or_skipped (err e) = []

-- What one connected technician offers.
abbrev pub offers : (ℕ → Result (List TimeRange)) → User → List PooledSlot
offers slots_of user =
    if is_approved_technician user then map (pooled user) (or_skipped (slots_of user.id)) else []

-- The loop over the connections; a user who is not there raises.
unfoldable pub rank : (ℕ → Result (List TimeRange)) → List User → List ℕ → Answer (List PooledSlot)
rank slots_of users [] = returned []
rank slots_of users (technician_id ∷ rest) = elim (Users.get technician_id users) [
  | raised e ↦ raised e
  | returned user ↦ elim (rank slots_of users rest) [
    | raised e ↦ raised e
    | returned ranked ↦ returned (offers slots_of user ++ ranked)
  ]
]

-- `key=lambda r: (r[1], str(r[0]))`: the texts of two UUIDs stand in the order of their numbers.
abbrev pub earlier : PooledSlot → PooledSlot → Bool
earlier p q = ltb p.start q.start || (p.start == q.start && leb p.technician_id q.technician_id)

abbrev pub cap : Option ℕ → List PooledSlot → List PooledSlot
cap none slots = slots
cap (some limit) slots = take limit slots

unfoldable pub pool_of :
    (ℕ → Result (List TimeRange)) → List User → List ℕ → Option ℕ → Answer (List PooledSlot)
unfolding rank
pool_of slots_of users connected limit = elim (rank slots_of users connected) [
  | raised e ↦ raised e
  | returned ranked ↦ returned (cap limit (sort_by earlier ranked))
]

-- `connected` are the technicians of `list_connected`; a missing user escapes as a server error.
unfoldable pub get_availability_pool :
    Settings → Calendars → List ℕ → ℕ → Session → ℕ → ℕ → ℕ → Option ℕ → Handler (List PooledSlot)
unfolding pool_of
get_availability_pool settings calendars connected now session date_from date_to slot_minutes
      limit =
    Backend.◌>>=◌ (require_user session) λ user. λ b.
      elim (pool_of (λ id. compute_slots settings calendars now id date_from date_to slot_minutes b)
        b.users connected limit) [
          | raised e ↦ (crashes Error.not_found, b)
          | returned slots ↦ (answers slots, b)
        ]
