-- ===== src/Platform/Appointments.antt =====
-- The routes of backend/src/fsm/platform/api/scheduling_routes.py that change appointments and
-- service calls. The clock is an argument; the notices of the store stand for the notification port.
pub mod Requests
use field_service_management.Base.{
  ℕ, Bool, true, false, Option, none, some, List, [], ◌∷◌, ◌==◌, if◌then◌else◌,
}
use field_service_management.Base.Rows.{find}
use field_service_management.Base.Text.{Text, strip, truthy}
use field_service_management.Identity.User.{User, Role, is_approved_technician}
use field_service_management.Identity.Users.{user_id}
use field_service_management.Scheduling.Outcome.{Result, ok, err, Error}
use field_service_management.Scheduling.Outcome
use field_service_management.Scheduling.TimeRange.{TimeRange, make_range}
use field_service_management.Scheduling.RateLimit.{CancellationRateLimit, make_limit}
use field_service_management.Scheduling.Contact.{ContactInfo, no_contact}
use field_service_management.Scheduling.Appointment.{Appointment}
use field_service_management.Scheduling.ServiceCall.{ServiceCall}
use field_service_management.Scheduling.Repositories.ServiceCalls
use field_service_management.Scheduling.Repositories.Appointments
use field_service_management.Scheduling.Opening.{open_service_call}
use field_service_management.Scheduling.Booking.{AppointmentService}
use field_service_management.Scheduling.Booking
use field_service_management.Platform.Backend.{
  Backend, Settings, Handler, Response, answers, refuses, pure, respond, require, ◌>>=◌, ◌>>◌, call,
  attempt, in_uow, appointment_changed, publish,
}
use field_service_management.Platform.Session.{
  Session, SessionUser, require_user, require_role, assert_participant,
}

-- `build_contact_resolver` of backend/src/fsm/platform/identity_lookup.py.
unfoldable pub contact_resolver : List User → ℕ → ContactInfo
contact_resolver users id = elim (find user_id id users) [
  | none ↦ no_contact
  | some user ↦ record { address = user.address; phone = user.phone }
]

-- `_cancellation_limit`.
unfoldable pub cancellation_limit : Settings → Result (Option CancellationRateLimit)
cancellation_limit settings =
    if settings.booking_cancel_limit == 0
    then ok none
    else Outcome.◌>>=◌
        (make_limit settings.booking_cancel_limit settings.booking_cancel_window
          settings.booking_cancel_cooloff)
        λ limit. ok (some limit)

-- `_appointment_service`: `NullCalendarPort` is never busy.
abbrev pub service_with : List User → Option CancellationRateLimit → AppointmentService
service_with users limit = record {
  get_busy = λ technician_id from to. ok [];
  contact_resolver = some (contact_resolver users);
  cancellation_limit = limit;
}

unfoldable pub appointment_service : Settings → Handler AppointmentService
unfolding cancellation_limit
appointment_service settings = attempt (cancellation_limit settings) >>= λ limit.
    λ b. (answers (service_with b.users limit), b)

-- The description comes stripped, and a blank one is refused with 422 before the route.
unfoldable pub open_call : Session → ℕ → Text → Handler ServiceCall
open_call session now description = require_role Role.customer session >>= λ user.
    require (truthy (strip description)) 422
    >> in_uow (call (open_service_call now user.id (strip description) none none))

abbrev pub publish_changed : Appointment → Handler Appointment
publish_changed appt =
    publish (appointment_changed appt.id appt.customer_id appt.technician_id) >> pure appt

-- `target_is_bookable`.
abbrev pub target_is_bookable : ℕ → List User → Bool
target_is_bookable technician_id users = elim (find user_id technician_id users) [
  | none ↦ false
  | some user ↦ is_approved_technician user
]

abbrev pub require_bookable : ℕ → Handler (Unit {0})
require_bookable technician_id b = require (target_is_bookable technician_id b.users) 404 b

unfoldable pub book_in_uow : Settings → ℕ → SessionUser → ℕ → ℕ → TimeRange → Handler Appointment
book_in_uow settings now user service_call_id technician_id time_range =
    call (ServiceCalls.get service_call_id) >>= λ sc.
    require (sc.customer_id == user.id) 403
    >> (require_bookable technician_id
        >> (appointment_service settings >>= λ service. call (
            Booking.book_appointment service now service_call_id technician_id user.id time_range)))

unfoldable pub book_appointment : Settings → Session → ℕ → ℕ → ℕ → ℕ → ℕ → Handler Appointment
unfolding book_in_uow
book_appointment settings session now service_call_id technician_id start end =
    require_role Role.customer session >>= λ user. attempt (make_range start end) >>= λ time_range.
    in_uow (book_in_uow settings now user service_call_id technician_id time_range)
    >>= publish_changed

-- The participants' routes: the guard, the service, and the use case.
unfoldable pub as_participant :
    Settings → SessionUser → ℕ → (AppointmentService → Handler Appointment) → Handler Appointment
as_participant settings user appointment_id use_case =
    in_uow (
      call (Appointments.get appointment_id) >>= λ appt.
      assert_participant appt user >> (appointment_service settings >>= use_case))
    >>= publish_changed

unfoldable pub reschedule_appointment : Settings → Session → ℕ → ℕ → ℕ → ℕ → Handler Appointment
unfolding as_participant
reschedule_appointment settings session now appointment_id start end =
    require_user session >>= λ user. attempt (make_range start end) >>= λ new_range.
    as_participant settings user appointment_id
      (λ service. call (Booking.reschedule_appointment now appointment_id new_range))

unfoldable pub cancel_appointment : Settings → Session → ℕ → ℕ → Handler Appointment
unfolding as_participant
cancel_appointment settings session now appointment_id = require_user session >>= λ user.
    as_participant settings user appointment_id
      (λ service. call (Booking.cancel_appointment now appointment_id))

unfoldable pub add_details : Settings → Session → ℕ → ℕ → Text → Handler Appointment
unfolding as_participant
add_details settings session now appointment_id text = require_user session >>= λ user.
    as_participant settings user appointment_id
      (λ service. call (Booking.add_details now appointment_id text))
