-- ===== src/Scheduling/Booking/Outcomes.antt =====
-- What the use cases of backend/src/fsm/scheduling/application/appointment_service.py do to the
-- tables: a failure changes nothing, a success writes one row, its audit, its outbox entry and its
-- notice.
use field_service_management.Base.{
  ℕ, ◌+◌, ◌≤◌, ◌≡◌, refl, false, Option, none, some, [], ◌∷◌, ◌++◌, arith,
}
use field_service_management.Base.Rows.{find, put}
use field_service_management.Base.Text.{Text}
use field_service_management.Scheduling.Outcome.{Result, ok, err}
use field_service_management.Scheduling.TimeRange.{TimeRange}
use field_service_management.Scheduling.Appointment.{
  Appointment, AppointmentStatus, AuditAction, is_cancelled, reschedule, cancel,
}
use field_service_management.Scheduling.Appointment
use field_service_management.Scheduling.Appointment.Lifecycle.{
  as_cancelled, as_noted, as_rescheduled, cancel-Guarded, add_details-Guarded, reschedule-Guarded,
}
use field_service_management.Scheduling.Store.{
  Store, AppointmentRow, AppointmentAuditRow, OutboxRow, OutboxOperation, OutboxStatus, Notice,
  attempt, ◌>>=◌,
}
use field_service_management.Scheduling.Store.Post.{reads_post}
use field_service_management.Scheduling.Repositories.{row_id, appointment_to_row, drain_into}
use field_service_management.Scheduling.Repositories.Mapping.{entity}
use field_service_management.Scheduling.Repositories.Effects.{get_post, save_post, guarded_post}
use field_service_management.Scheduling.Outbox.{enqueue}
use field_service_management.Scheduling.Booking.{
  cancel_appointment, cancel_found, write_cancelled, announce_cancelled, announce, add_details,
  details_found, write_noted, reschedule_appointment, reschedule_found, write_rescheduled,
  guard_no_overlap,
}

-- The two states hold the same rows and notices; ids may have been drawn.
abbrev pub SameTables : Store → Store → Type 0
SameTables s t =
    (s.service_calls ≡ t.service_calls)
    × (s.appointments ≡ t.appointments)
    × (s.audits ≡ t.audits)
    × (s.outbox ≡ t.outbox)
    × (s.notices ≡ t.notices)
    × (s.next_uuid ≤ t.next_uuid)

-- The entry that `enqueue` appends.
abbrev pub entry : ℕ → OutboxOperation → ℕ → Option ℕ → OutboxRow
entry id operation appointment_id external_event_id = record {
  id = id;
  operation = operation;
  appointment_id = appointment_id;
  external_event_id = external_event_id;
  status = OutboxStatus.pending;
  attempts = 0;
  last_error = none;
  processed_at = none;
}

abbrev pub audit : ℕ → ℕ → AuditAction → ℕ → AppointmentAuditRow
audit id appointment_id action now = record {
  id = id;
  appointment_id = appointment_id;
  action = action;
  occurred_at = now;
}

-- One appointment was written over its row, with one audit, one outbox entry and one notice.
abbrev pub Writes :
    Store → Appointment → AuditAction → ℕ → OutboxOperation → Option ℕ → Notice → Store → Type 0
Writes s a action now operation external_event_id notice t =
    (t.service_calls ≡ s.service_calls)
    × (t.appointments ≡ put row_id (appointment_to_row a) s.appointments)
    × (t.audits ≡ s.audits ++ audit s.next_uuid a.id action now ∷ [])
    × (t.outbox ≡ s.outbox ++ entry (s.next_uuid + 1) operation a.id external_event_id ∷ [])
    × (t.notices ≡ s.notices ++ notice ∷ [])
    × (t.next_uuid ≡ s.next_uuid + 2)

abbrev pub Cancels : ℕ → ℕ → Store → Result Appointment × Store → Type 0
Cancels now id s (ok a, t) =
    (row : AppointmentRow) × (find row_id id s.appointments ≡ some row)
    × (is_cancelled row.status ≡ false)
    × (a ≡ record (entity row) { status = AppointmentStatus.cancelled; updated_at = now })
    × Writes s a AuditAction.cancelled now OutboxOperation.delete row.external_event_id
        (Notice.appointment_cancelled a) t
Cancels now id s (err e, t) = SameTables s t

-- A cancellation that returns found an appointment that was not cancelled, marks it CANCELLED at
-- `now` and leaves its other fields; it writes the row, one CANCELLED audit, one pending DELETE
-- entry with the calendar event that the row had, and one notice. One that raises changes nothing.
pub cancel_appointment-Cancels :
    (now id : ℕ) (s : Store) → Cancels now id s (cancel_appointment now id s)
unfolding cancel_appointment cancel_found write_cancelled announce_cancelled announce enqueue
    drain_into
cancel_appointment-Cancels now id s =
    get_post Q id (cancel_found now) s
      (λ row found valid.
        let a : Appointment = as_cancelled now (entity row) in
        guarded_post Q (cancel now (entity row)) (entity row) a write_cancelled s
          (cancel-Guarded now (entity row))
          (λ active.
            save_post Q a announce_cancelled s
              (λ allowed. (row, found, active, refl, (refl, refl, refl, refl, refl, omega arith)))
              (λ e h. same))
          same)
      (λ e h. same)
  where
    Q : Result Appointment × Store → Type 0
    Q = Cancels now id s

    same : SameTables s s
    same = (refl, refl, refl, refl, refl, omega arith)

abbrev pub Notes : ℕ → ℕ → Text → Store → Result Appointment × Store → Type 0
Notes now id text s (ok a, t) =
    (row : AppointmentRow) × (find row_id id s.appointments ≡ some row)
    × (is_cancelled row.status ≡ false)
    × (a ≡ record (entity row) { details = some text; updated_at = now })
    × Writes s a AuditAction.details_added now OutboxOperation.update none
        (Notice.appointment_updated a) t
Notes now id text s (err e, t) = SameTables s t

-- Adding details that returns found an appointment that was not cancelled, replaces its details and
-- time stamp and leaves its other fields; it writes the row, one DETAILS_ADDED audit, one pending
-- UPDATE entry and one notice. One that raises changes nothing.
pub add_details-Notes :
    (now id : ℕ) (text : Text) (s : Store) → Notes now id text s (add_details now id text s)
unfolding add_details details_found write_noted announce enqueue drain_into
add_details-Notes now id text s =
    get_post Q id (details_found now text) s
      (λ row found valid.
        let a : Appointment = as_noted text now (entity row) in
        guarded_post Q (Appointment.add_details text now (entity row)) (entity row) a write_noted s
          (add_details-Guarded text now (entity row))
          (λ active.
            save_post Q a (announce OutboxOperation.update none Notice.appointment_updated) s
              (λ allowed. (row, found, active, refl, (refl, refl, refl, refl, refl, omega arith)))
              (λ e h. same))
          same)
      (λ e h. same)
  where
    Q : Result Appointment × Store → Type 0
    Q = Notes now id text s

    same : SameTables s s
    same = (refl, refl, refl, refl, refl, omega arith)

abbrev pub Reschedules : ℕ → ℕ → TimeRange → Store → Result Appointment × Store → Type 0
Reschedules now id r s (ok a, t) =
    (row : AppointmentRow) × (find row_id id s.appointments ≡ some row)
    × (is_cancelled row.status ≡ false)
    × (guard_no_overlap row.technician_id r (some id) s ≡ ok tt)
    × (a ≡ record (entity row) {
      time_range = r;
      status = AppointmentStatus.rescheduled;
      updated_at = now;
    })
    × Writes s a AuditAction.rescheduled now OutboxOperation.update none
        (Notice.appointment_rescheduled a) t
Reschedules now id r s (err e, t) = SameTables s t

-- A reschedule that returns found an appointment that was not cancelled and a free time for its
-- technician, moves it there with status RESCHEDULED and leaves its other fields; it writes the row,
-- one RESCHEDULED audit, one pending UPDATE entry and one notice. One that raises changes nothing.
pub reschedule_appointment-Reschedules :
    (now id : ℕ) (r : TimeRange) (s : Store)
    → Reschedules now id r s (reschedule_appointment now id r s)
unfolding reschedule_appointment reschedule_found write_rescheduled announce enqueue drain_into
reschedule_appointment-Reschedules now id r s =
    get_post Q id (reschedule_found now id r) s
      (λ row found valid.
        let a : Appointment = as_rescheduled r now (entity row) in
        reads_post Q (guard_no_overlap row.technician_id r (some id))
          (λ _. attempt (reschedule r now (entity row)) >>= write_rescheduled) s
          (λ _ free.
            guarded_post Q (reschedule r now (entity row)) (entity row) a write_rescheduled s
              (reschedule-Guarded r now (entity row))
              (λ active.
                save_post Q a (announce OutboxOperation.update none Notice.appointment_rescheduled)
                  s
                  (λ allowed.
                    (row, found, active, free, refl, (refl, refl, refl, refl, refl, omega arith)))
                  (λ e h. same))
              same)
          (λ e h. same))
      (λ e h. same)
  where
    Q : Result Appointment × Store → Type 0
    Q = Reschedules now id r s

    same : SameTables s s
    same = (refl, refl, refl, refl, refl, omega arith)
