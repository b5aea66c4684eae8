-- ===== src/Platform/Appointments/Requests.antt =====
-- The scheduling requests of backend/src/fsm/platform/api/scheduling_routes.py: who may make them,
-- and what they do.
pub mod Callers
pub mod UseCases
pub mod Access
pub mod Invariant
use field_service_management.Base.{ℕ, ◌≡◌, true, Option, none, List, [], ◌∷◌, ◌++◌, ◌==◌}
use field_service_management.Base.Text.{Text, strip}
use field_service_management.Identity.User.{Role}
use field_service_management.Scheduling.Outcome.{Result, ok}
use field_service_management.Scheduling.TimeRange.{TimeRange, make_range}
use field_service_management.Scheduling.RateLimit.{CancellationRateLimit}
use field_service_management.Scheduling.Appointment.{Appointment}
use field_service_management.Scheduling.ServiceCall.{ServiceCall}
use field_service_management.Scheduling.WorkingHours.{DailyHours, WeeklyWorkingHours, make_weekly}
use field_service_management.Scheduling.Store.{Action}
use field_service_management.Scheduling.Repositories.ServiceCalls
use field_service_management.Scheduling.Repositories.Appointments
use field_service_management.Scheduling.Opening.{open_service_call}
use field_service_management.Scheduling.Booking
use field_service_management.Platform.Backend.{
  Backend, Response, answers, refuses, crashes, Handler, Settings, appointment_changed,
}
use field_service_management.Platform.Session.{
  Session, SessionUser, require_user, has_role, is_participant,
}
use field_service_management.Platform.Schedules.{
  add_day_off, remove_day_off, put_working_hours, add_time_off, remove_time_off, set_for_technician,
  make_windows,
}
use field_service_management.Platform.Appointments.{
  cancellation_limit, service_with, target_is_bookable, open_call, book_appointment,
  reschedule_appointment, cancel_appointment, add_details,
}

pub data ApiRequest : Type 0 where
  opens : ℕ → Text → ApiRequest
  books : ℕ → ℕ → ℕ → ℕ → ℕ → ApiRequest
  reschedules : ℕ → ℕ → ℕ → ℕ → ApiRequest
  cancels : ℕ → ℕ → ApiRequest
  adds_details : ℕ → ℕ → Text → ApiRequest
  adds_day_off removes_day_off : ℕ → ℕ → ApiRequest
  puts_hours : ℕ → List DailyHours → ApiRequest

abbrev pub done : {A : Type 0} → Response A × Backend → Response (Unit {0}) × Backend
done (answers a, b) = (answers tt, b)
done (refuses status, b) = (refuses status, b)
done (crashes e, b) = (crashes e, b)

pub serve : Settings → Session → ApiRequest → Handler (Unit {0})
serve settings session (opens now description) b = done (open_call session now description b)
serve settings session (books now call technician start end) b =
    done (book_appointment settings session now call technician start end b)
serve settings session (reschedules now id start end) b =
    done (reschedule_appointment settings session now id start end b)
serve settings session (cancels now id) b = done (cancel_appointment settings session now id b)
serve settings session (adds_details now id text) b =
    done (add_details settings session now id text b)
serve settings session (adds_day_off technician date) b = add_day_off session technician date b
serve settings session (removes_day_off technician date) b =
    remove_day_off session technician date b
serve settings session (puts_hours technician body) b =
    done (put_working_hours session technician body b)

-- The use case returned, and what it left is all that changed, but for a cue to the parties and the
-- back office.
abbrev pub Performs : Action Appointment → Backend → Backend → Type 0
Performs use_case b b' =
    (a : Appointment) × ((use_case b.store).0 ≡ ok a)
    × (b' ≡ record b {
      store = (use_case b.store).1;
      cues = b.cues ++ appointment_changed a.id a.customer_id a.technician_id ∷ [];
    })

-- The user is the customer or the technician of the appointment, and the use case is performed.
abbrev pub PerformsOwn : ℕ → Action Appointment → SessionUser → Backend → Backend → Type 0
PerformsOwn id use_case user b b' =
    (appt : Appointment) × ((Appointments.get id b.store).0 ≡ ok appt)
    × (is_participant appt user ≡ true)
    × Performs use_case b b'

-- A customer whose own call it is, for a technician who is approved.
abbrev pub PerformsBooking :
    Settings → ℕ → ℕ → ℕ → TimeRange → SessionUser → Backend → Backend → Type 0
PerformsBooking settings now call technician time_range user b b' =
    (sc : ServiceCall) × ((ServiceCalls.get call b.store).0 ≡ ok sc)
    × ((sc.customer_id == user.id) ≡ true)
    × (has_role Role.customer user ≡ true)
    × (target_is_bookable technician b.users ≡ true)
    × (limit : Option CancellationRateLimit) × (cancellation_limit settings ≡ ok limit)
    × Performs
        (Booking.book_appointment (service_with b.users limit) now call technician user.id
          time_range)
        b b'

-- An approved technician changes only what is that technician's.
abbrev pub IsOwnTechnician : ℕ → SessionUser → Type 0
IsOwnTechnician technician user =
    (has_role Role.technician user ≡ true) × ((technician == user.id) ≡ true)

-- Who may make a request, and what an answered one does.
abbrev pub Permits : Settings → ApiRequest → SessionUser → Backend → Backend → Type 0
Permits settings (opens now description) user b b' =
    (has_role Role.customer user ≡ true)
    × (b' ≡ record b {
      store = (open_service_call now user.id (strip description) none none b.store).1;
    })
Permits settings (books now call technician start end) user b b' =
    (r : TimeRange) × (make_range start end ≡ ok r)
    × PerformsBooking settings now call technician r user b b'
Permits settings (reschedules now id start end) user b b' =
    (r : TimeRange) × (make_range start end ≡ ok r)
    × PerformsOwn id (Booking.reschedule_appointment now id r) user b b'
Permits settings (cancels now id) user b b' =
    PerformsOwn id (Booking.cancel_appointment now id) user b b'
Permits settings (adds_details now id text) user b b' =
    PerformsOwn id (Booking.add_details now id text) user b b'
Permits settings (adds_day_off technician date) user b b' =
    IsOwnTechnician technician user
    × (b' ≡ record b { time_off = add_time_off technician date b.time_off })
Permits settings (removes_day_off technician date) user b b' =
    IsOwnTechnician technician user
    × (b' ≡ record b { time_off = remove_time_off technician date b.time_off })
Permits settings (puts_hours technician body) user b b' =
    IsOwnTechnician technician user
    × (make_windows body ≡ ok body)
    × (make_weekly body ≡ ok (record { windows = body }))
    × (b' ≡ record b {
      working_hours = set_for_technician technician (record { windows = body }) b.working_hours;
    })
