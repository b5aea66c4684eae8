-- ===== src/Platform/Appointments/Requests/UseCases.antt =====
-- The units of work of backend/src/fsm/platform/api/scheduling_routes.py.
use field_service_management.Base.{ℕ, true, ◌≡◌, refl, Option, ◌==◌}
use field_service_management.Identity.User.{Role}
use field_service_management.Scheduling.Outcome.{ok}
use field_service_management.Scheduling.TimeRange.{TimeRange}
use field_service_management.Scheduling.RateLimit.{CancellationRateLimit}
use field_service_management.Scheduling.Appointment.{Appointment}
use field_service_management.Scheduling.ServiceCall.{ServiceCall}
use field_service_management.Scheduling.Store.{Action}
use field_service_management.Scheduling.Repositories.ServiceCalls
use field_service_management.Scheduling.Repositories.Appointments
use field_service_management.Scheduling.Booking.{AppointmentService}
use field_service_management.Scheduling.Booking
use field_service_management.Platform.Backend.{
  Backend, answers, Handler, Settings, require, ◌>>=◌, ◌>>◌, call, attempt, in_uow,
}
use field_service_management.Platform.Backend.Post.{
  Authorizes, Yields, bind-Yields, uow-Authorizes, require-Yields, call-Yields, read_call-Yields,
  result-Yields,
}
use field_service_management.Platform.Session.{
  SessionUser, has_role, is_participant, assert_participant,
}
use field_service_management.Platform.Appointments.{
  cancellation_limit, service_with, appointment_service, target_is_bookable, require_bookable,
  book_in_uow, as_participant, publish_changed,
}
use field_service_management.Platform.Appointments.Requests.{Performs, PerformsOwn, PerformsBooking}
use field_service_management.Platform.Appointments.Requests.Callers.{get-keeps, get_call-keeps}

module _ (settings : Settings) (b : Backend) where
  -- The service of a request, over tables that are still those of `b`.
  appointment_service-Yields :
      (R : AppointmentService → Backend → Type 0)
      → ((limit : Option CancellationRateLimit)
          → cancellation_limit settings ≡ ok limit
          → R (service_with b.users limit) b)
      → Yields R (appointment_service settings b)
  unfolding appointment_service
  appointment_service-Yields R y =
      bind-Yields R (attempt (cancellation_limit settings))
        (λ limit b'. (answers (service_with b'.users limit), b')) b
        (result-Yields (λ limit b'. R (service_with b'.users limit) b')
          (cancellation_limit settings) b y)

  -- The last step of a unit of work, and the cue after its commit.
  performs :
      (P : Backend → Type 0) (m : Action Appointment)
      → ((b' : Backend) → Performs m b b' → P b')
      → Yields (λ a b'. Authorizes P b (publish_changed a b')) (call m b)
  performs P m y = call-Yields _ m b (λ a e. y _ (a, e, refl))

  pub as_participant-Authorizes :
      (user : SessionUser) (id : ℕ) (m : Action Appointment)
      → Authorizes
          (PerformsOwn id m user b)
          b
          (as_participant settings user id (λ service. call m) b)
  unfolding as_participant
  as_participant-Authorizes user id m =
      let P : Backend → Type 0 = PerformsOwn id m user b in
      let R : Appointment → Backend → Type 0 = λ a b'. Authorizes P b (publish_changed a b') in
      let served : Handler Appointment = appointment_service settings >>= λ service. call m in
      let guarded : Appointment → Handler Appointment =
        λ appt. assert_participant appt user >> served in
      uow-Authorizes P (call (Appointments.get id) >>= guarded) publish_changed b (
        bind-Yields R (call (Appointments.get id)) guarded b (
          read_call-Yields (λ appt b'. Yields R (guarded appt b')) (Appointments.get id) b
            (get-keeps id b.store)
            (λ appt found. require-Yields R (is_participant appt user) 403 served b (λ part.
              bind-Yields R (appointment_service settings) (λ service. call m) b
                (appointment_service-Yields (λ service b'. Yields R (call m b'))
                  (λ limit e. performs P m (λ b' done. (appt, found, part, done))))))))

  pub book_in_uow-Authorizes :
      (user : SessionUser) (now id technician : ℕ) (r : TimeRange)
      → has_role Role.customer user ≡ true
      → Authorizes
          (PerformsBooking settings now id technician r user b)
          b
          ((in_uow (book_in_uow settings now user id technician r) >>= publish_changed) b)
  unfolding book_in_uow
  book_in_uow-Authorizes user now id technician r customer =
      let P : Backend → Type 0 = PerformsBooking settings now id technician r user b in
      let R : Appointment → Backend → Type 0 = λ a b'. Authorizes P b (publish_changed a b') in
      let use_case : AppointmentService → Action Appointment =
        λ service. Booking.book_appointment service now id technician user.id r in
      let served : Handler Appointment =
        appointment_service settings >>= λ service. call (use_case service) in
      let bookable_only : Handler Appointment = require_bookable technician >> served in
      let guarded : ServiceCall → Handler Appointment =
        λ sc. require (sc.customer_id == user.id) 403 >> bookable_only in
      uow-Authorizes P (call (ServiceCalls.get id) >>= guarded) publish_changed b (
        bind-Yields R (call (ServiceCalls.get id)) guarded b (
          read_call-Yields (λ sc b'. Yields R (guarded sc b')) (ServiceCalls.get id) b
            (get_call-keeps id b.store)
            (λ sc found. require-Yields R (sc.customer_id == user.id) 403 bookable_only b (λ owned.
              require-Yields R (target_is_bookable technician b.users) 404 served b (λ bookable.
                bind-Yields R (appointment_service settings) (λ service. call (use_case service)) b
                  (appointment_service-Yields (λ service b'. Yields R (call (use_case service) b'))
                    (λ limit e.
                      performs P (use_case (service_with b.users limit))
                        (λ b' done. (sc, found, owned, customer, bookable, limit, e, done)))))))))
