-- ===== src/Scheduling/Booking.antt =====
-- backend/src/fsm/scheduling/application/appointment_service.py. The clock is an argument: each
-- use case reads it once. `display_tz` only changes how the reopening time is shown.
pub mod Checks
pub mod Guards
pub mod Outcomes
pub mod Booked
pub mod Invariant
pub mod Proposals
use field_service_management.Base.{
  ℕ, ◌+◌, ◌-◌, ◌*◌, Bool, true, false, not, Option, none, some, List, [], ◌∷◌, ◌++◌, map, filter,
  opt_eq, leb, if◌then◌else◌,
}
use field_service_management.Base.Text.{Text}
use field_service_management.Scheduling.Outcome.{Result, ok, err, Error, Missing, raise_if}
use field_service_management.Scheduling.Outcome
use field_service_management.Scheduling.TimeRange.{TimeRange, overlaps}
use field_service_management.Scheduling.WorkingHours.{WeeklyWorkingHours, micros_per_day}
use field_service_management.Scheduling.Slots.{Zone, generate_slots}
use field_service_management.Scheduling.RateLimit.{CancellationRateLimit, minus, blocked_until}
use field_service_management.Scheduling.Contact.{ContactInfo, has_address, has_phone, no_contact}
use field_service_management.Scheduling.Appointment.{
  Appointment, AppointmentStatus, record_booked, reschedule, cancel,
}
use field_service_management.Scheduling.Appointment
use field_service_management.Scheduling.ServiceCall.{ServiceCall, is_open, mark_scheduled}
use field_service_management.Scheduling.Store.{
  Store, Action, Notice, OutboxOperation, pure, attempt, reads, uuid4, notify, ◌>>=◌, ◌>>◌,
}
use field_service_management.Scheduling.Repositories.ServiceCalls
use field_service_management.Scheduling.Repositories.Appointments
use field_service_management.Scheduling.Repositories.Appointments.{
  list_for_technician_between, list_customer_cancellations_since,
}
use field_service_management.Scheduling.Outbox.{enqueue}

-- What the constructor injects; `get_busy` is the calendar port's.
pub record AppointmentService : Type 0 where
  pub get_busy : ℕ → ℕ → ℕ → Result (List TimeRange)
  pub contact_resolver : Option (ℕ → ContactInfo)
  pub cancellation_limit : Option CancellationRateLimit

pub resolve_contact : AppointmentService → ℕ → ContactInfo
resolve_contact service user_id = elim service.contact_resolver [
  | none ↦ no_contact
  | some resolver ↦ resolver user_id
]

pub missing_contact : ContactInfo → ContactInfo → List Missing
missing_contact customer technician =
    (if has_address customer then [] else Missing.customer_address ∷ [])
    ++ ((if has_phone customer then [] else Missing.customer_phone ∷ [])
        ++ (if has_phone technician then [] else Missing.technician_phone ∷ []))

-- `if missing: raise IncompleteContactInfo(missing)`.
pub reject_missing : List Missing → Result (Unit {0})
reject_missing [] = ok tt
reject_missing (m ∷ ms) = err (Error.incomplete_contact_info (m ∷ ms))

pub guard_contact_complete : AppointmentService → ℕ → ℕ → Result (Unit {0})
unfolding resolve_contact missing_contact reject_missing
guard_contact_complete service customer_id technician_id =
    reject_missing (
      missing_contact (resolve_contact service customer_id) (resolve_contact service technician_id))

-- `if retry_at is not None: raise BookingRateLimited(retry_at)`.
pub reject_blocked : Option ℕ → Result (Unit {0})
reject_blocked none = ok tt
reject_blocked (some retry_at) = err (Error.booking_rate_limited retry_at)

pub guard_not_rate_limited : AppointmentService → ℕ → ℕ → Store → Result (Unit {0})
unfolding reject_blocked
guard_not_rate_limited service customer_id now s = elim service.cancellation_limit [
  | none ↦ ok tt
  | some limit ↦ Outcome.◌>>=◌ (minus now limit.window) λ since.
      Outcome.◌>>=◌
        (blocked_until limit (list_customer_cancellations_since customer_id since s) now)
        reject_blocked
]

-- The loop of `_guard_no_overlap`.
pub check_conflicts : TimeRange → Option ℕ → List Appointment → Result (Unit {0})
check_conflicts time_range exclude_id [] = ok tt
check_conflicts time_range exclude_id (existing ∷ rest) =
    let next : Result (Unit {0}) = check_conflicts time_range exclude_id rest in
    if opt_eq (some existing.id) exclude_id
    then next
    else if overlaps existing.time_range time_range
    then err Error.slot_unavailable
    else next

pub guard_no_overlap : ℕ → TimeRange → Option ℕ → Store → Result (Unit {0})
unfolding check_conflicts
guard_no_overlap technician_id time_range exclude_id s =
    Outcome.◌>>=◌ (list_for_technician_between technician_id time_range.start time_range.end s)
      (check_conflicts time_range exclude_id)

-- The appointment that a booking constructs, with its BOOKED record pending.
pub new_appointment : ℕ → ℕ → ℕ → ℕ → TimeRange → ℕ → Appointment
new_appointment id service_call_id technician_id customer_id time_range now =
    record_booked now (record {
      id = id;
      service_call_id = service_call_id;
      technician_id = technician_id;
      customer_id = customer_id;
      time_range = time_range;
      status = AppointmentStatus.scheduled;
      details = none;
      created_at = now;
      updated_at = now;
      external_event_id = none;
      pending_audits = [];
    })

-- The checks before any mutation, in the order of the source.
pub check_booking :
    AppointmentService → ℕ → ServiceCall → ℕ → ℕ → TimeRange → Store → Result (Unit {0})
check_booking service now sc technician_id customer_id time_range s =
    Outcome.◌>>◌ (raise_if (not (is_open sc.status)) Error.invalid_transition) (
      Outcome.◌>>◌ (guard_not_rate_limited service customer_id now s) (
        Outcome.◌>>◌ (guard_contact_complete service customer_id technician_id)
          (guard_no_overlap technician_id time_range none s)))

-- The end of each use case, once its row is written: the outbox entry and the notice.
pub announce :
    OutboxOperation → Option ℕ → (Appointment → Notice) → Appointment → Action Appointment
announce operation external_event_id notice appt = do
  enqueue operation appt.id external_event_id
  notify (notice appt)
  pure appt

pub finish_booking : ServiceCall → Appointment → Action Appointment
unfolding announce
finish_booking sc appt = do
  ServiceCalls.save sc
  announce OutboxOperation.create none Notice.appointment_booked appt

pub write_booking : ℕ → ServiceCall → ℕ → ℕ → ℕ → TimeRange → ℕ → Action Appointment
unfolding new_appointment
write_booking now sc service_call_id technician_id customer_id time_range id =
    attempt (mark_scheduled sc) >>= λ marked.
    Appointments.add (new_appointment id service_call_id technician_id customer_id time_range now)
    >>= finish_booking marked

pub book_found : AppointmentService → ℕ → ℕ → ℕ → ℕ → TimeRange → ServiceCall → Action Appointment
unfolding check_booking
book_found service now service_call_id technician_id customer_id time_range sc =
    reads (check_booking service now sc technician_id customer_id time_range) >>= λ _.
    uuid4 >>= write_booking now sc service_call_id technician_id customer_id time_range

pub book_appointment : AppointmentService → ℕ → ℕ → ℕ → ℕ → TimeRange → Action Appointment
unfolding book_found write_booking finish_booking
book_appointment service now service_call_id technician_id customer_id time_range =
    ServiceCalls.get service_call_id
    >>= book_found service now service_call_id technician_id customer_id time_range

pub write_rescheduled : Appointment → Action Appointment
write_rescheduled moved =
    Appointments.save moved >>= announce OutboxOperation.update none Notice.appointment_rescheduled

pub reschedule_found : ℕ → ℕ → TimeRange → Appointment → Action Appointment
unfolding write_rescheduled
reschedule_found now appointment_id new_time_range appt =
    reads (guard_no_overlap appt.technician_id new_time_range (some appointment_id)) >>= λ _.
    attempt (reschedule new_time_range now appt) >>= write_rescheduled

pub reschedule_appointment : ℕ → ℕ → TimeRange → Action Appointment
unfolding reschedule_found
reschedule_appointment now appointment_id new_time_range =
    Appointments.get appointment_id >>= reschedule_found now appointment_id new_time_range

-- The DELETE entry carries the event id that the appointment has at this moment.
pub announce_cancelled : Appointment → Action Appointment
unfolding announce
announce_cancelled saved =
    announce OutboxOperation.delete saved.external_event_id Notice.appointment_cancelled saved

pub write_cancelled : Appointment → Action Appointment
write_cancelled cancelled = Appointments.save cancelled >>= announce_cancelled

pub cancel_found : ℕ → Appointment → Action Appointment
unfolding write_cancelled
cancel_found now appt = attempt (cancel now appt) >>= write_cancelled

pub cancel_appointment : ℕ → ℕ → Action Appointment
unfolding cancel_found
cancel_appointment now appointment_id = Appointments.get appointment_id >>= cancel_found now

pub write_noted : Appointment → Action Appointment
write_noted noted =
    Appointments.save noted >>= announce OutboxOperation.update none Notice.appointment_updated

pub details_found : ℕ → Text → Appointment → Action Appointment
unfolding write_noted
details_found now text appt = attempt (Appointment.add_details text now appt) >>= write_noted

pub add_details : ℕ → ℕ → Text → Action Appointment
unfolding details_found
add_details now appointment_id text = Appointments.get appointment_id >>= details_found now text

pub ranges_of : List Appointment → List TimeRange
ranges_of = map λ a. a.time_range

-- The query window is [start_date 00:00, end_date + 1 00:00).
pub propose_slots :
    AppointmentService
    → ℕ
    → ℕ
    → WeeklyWorkingHours
    → Zone
    → ℕ
    → ℕ
    → ℕ
    → (ℕ → Bool)
    → Store
    → Result (List TimeRange)
unfolding ranges_of
propose_slots service now technician_id hours tz start_date end_date slot_duration holidays s =
    let window_start : ℕ = tz.localize (start_date * micros_per_day) in
    let window_end : ℕ = tz.localize ((end_date + 1) * micros_per_day) in
    Outcome.◌>>=◌ (service.get_busy technician_id window_start window_end) λ calendar_busy.
      Outcome.◌>>=◌ (list_for_technician_between technician_id window_start window_end s) λ appts.
        Outcome.◌>>=◌
          (generate_slots hours start_date end_date (calendar_busy ++ ranges_of appts) holidays
            slot_duration tz)
          λ slots. ok (filter (λ slot. leb now slot.start) slots)
