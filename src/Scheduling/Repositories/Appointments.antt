-- ===== src/Scheduling/Repositories/Appointments.antt =====
-- backend/src/fsm/scheduling/adapters/repositories.py, `SqlAlchemyAppointmentRepository`.
use field_service_management.Base.{
  zero, suc, ◌||◌, ltb, ℕ, Bool, true, false, not, ◌&&◌, none, some, List, [], ◌∷◌, ◌++◌, map,
  filter, is_some, leb, ◌==◌, if◌then◌else◌,
}
use field_service_management.Base.Rows.{find, put}
use field_service_management.Scheduling.Outcome.{Result, ok, err, Error}
use field_service_management.Scheduling.Appointment.{Appointment, AuditAction, is_cancelled}
use field_service_management.Scheduling.Store.{
  AppointmentRow, AppointmentAuditRow, Store, Action, ◌>>◌,
}
use field_service_management.Scheduling.Repositories.{
  row_id, row_to_appointment, appointment_to_row, rows_to_appointments, ranges_meet, excluded,
  drain_into,
}

-- The flush of an insert: the primary key, then the exclusion constraint, which
-- `_translate_integrity_error` turns into `SlotUnavailable`.
unfoldable pub insert_row : AppointmentRow → Action (Unit {0})
insert_row r s =
    if is_some (find row_id r.id s.appointments)
    then (err Error.integrity_error, s)
    else if excluded r s.appointments
    then (err Error.slot_unavailable, s)
    else (ok tt, record s { appointments = s.appointments ++ r ∷ [] })

unfoldable pub add : Appointment → Action Appointment
unfolding insert_row
add a = do insert_row (appointment_to_row a); drain_into a

unfoldable pub get : ℕ → Action Appointment
get appointment_id s = elim (find row_id appointment_id s.appointments) [
  | none ↦ (err Error.not_found, s)
  | some row ↦ (row_to_appointment row, s)
]

-- The flush of an update: here nothing translates the exclusion constraint.
unfoldable pub update_row : AppointmentRow → Action (Unit {0})
update_row r s =
    if not (is_some (find row_id r.id s.appointments))
    then (err Error.not_found, s)
    else if excluded r s.appointments
    then (err Error.integrity_error, s)
    else (ok tt, record s { appointments = put row_id r s.appointments })

unfoldable pub save : Appointment → Action Appointment
unfolding update_row
save a = do update_row (appointment_to_row a); drain_into a

-- The filter of the query: active rows of the technician that meet [start, end). For `start` after
-- `end` Postgres refuses to build the range; the callers pass `start` before `end`.
unfoldable pub in_window : ℕ → ℕ → ℕ → AppointmentRow → Bool
in_window technician_id start end r =
    r.technician_id == technician_id
    && not (is_cancelled r.status)
    && ranges_meet r.start_at r.end_at start end

unfoldable pub list_for_technician_between : ℕ → ℕ → ℕ → Store → Result (List Appointment)
list_for_technician_between technician_id start end s =
    rows_to_appointments (filter (in_window technician_id start end) s.appointments)

unfoldable pub list_for_service_call : ℕ → Store → Result (List Appointment)
list_for_service_call service_call_id s =
    rows_to_appointments (filter (λ r. r.service_call_id == service_call_id) s.appointments)

-- The join of an audit row with its appointment, on one customer.
of_customer : ℕ → List AppointmentRow → AppointmentAuditRow → Bool
of_customer customer_id rows audit = elim (find row_id audit.appointment_id rows) [
  | none ↦ false
  | some r ↦ r.customer_id == customer_id
]

is_cancellation : AuditAction → Bool
is_cancellation AuditAction.booked = false
is_cancellation AuditAction.rescheduled = false
is_cancellation AuditAction.cancelled = true
is_cancellation AuditAction.details_added = false

unfoldable pub list_customer_cancellations_since : ℕ → ℕ → Store → List ℕ
unfolding of_customer is_cancellation
list_customer_cancellations_since customer_id since s =
    map (λ a. a.occurred_at)
      (filter
        (λ a.
          of_customer customer_id s.appointments a
          && is_cancellation a.action
          && leb since a.occurred_at)
        s.audits)

-- `ORDER BY start_at, id`.
insert_by_time : AppointmentRow → List AppointmentRow → List AppointmentRow
insert_by_time r [] = r ∷ []
insert_by_time r (q ∷ qs) =
    if ltb r.start_at q.start_at || (r.start_at == q.start_at && leb r.id q.id)
    then r ∷ q ∷ qs
    else q ∷ insert_by_time r qs

by_time : List AppointmentRow → List AppointmentRow
unfolding insert_by_time
by_time [] = []
by_time (r ∷ rs) = insert_by_time r (by_time rs)

first : ℕ → List AppointmentRow → List AppointmentRow
first zero rs = []
first (suc n) [] = []
first (suc n) (r ∷ rs) = r ∷ first n rs

pub list_upcoming : ℕ → ℕ → (AppointmentRow → Bool) → Store → Result (List Appointment)
unfolding by_time first
list_upcoming now limit extra s = rows_to_appointments (
    first limit (
      by_time (
        filter (λ r. not (is_cancelled r.status) && (ltb now r.end_at && extra r)) s.appointments)))

unfoldable pub list_upcoming_for_technician : ℕ → ℕ → ℕ → Store → Result (List Appointment)
unfolding list_upcoming
list_upcoming_for_technician technician_id now limit =
    list_upcoming now limit (λ r. r.technician_id == technician_id)

unfoldable pub list_upcoming_for_customer : ℕ → ℕ → ℕ → Store → Result (List Appointment)
unfolding list_upcoming
list_upcoming_for_customer customer_id now limit =
    list_upcoming now limit (λ r. r.customer_id == customer_id)

unfoldable pub list_upcoming_all : ℕ → ℕ → Store → Result (List Appointment)
unfolding list_upcoming
list_upcoming_all now limit = list_upcoming now limit (λ r. true)
