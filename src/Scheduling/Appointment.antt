-- ===== src/Scheduling/Appointment.antt =====
-- backend/src/fsm/scheduling/domain/appointment.py. A method returns the entity as it left it.
pub mod Lifecycle
use field_service_management.Base.{ℕ, Bool, true, false, Option, none, some, List, [], ◌∷◌, ◌++◌}
use field_service_management.Base.Text.{Text}
use field_service_management.Scheduling.Outcome.{Result, ok, err, Error, ◌>>=◌, ◌>>◌, raise_if}
use field_service_management.Scheduling.TimeRange.{TimeRange}

pub data AppointmentStatus : Type 0 where
  scheduled rescheduled cancelled : AppointmentStatus

pub data AuditAction : Type 0 where
  booked rescheduled cancelled details_added : AuditAction

pub record AuditRecord : Type 0 where
  pub action : AuditAction
  pub occurred_at : ℕ

-- `external_event_id` is opaque: only its presence and equality matter, so it is a number.
pub record Appointment : Type 0 where
  pub id : ℕ
  pub service_call_id : ℕ
  pub technician_id : ℕ
  pub customer_id : ℕ
  pub time_range : TimeRange
  pub status : AppointmentStatus
  pub details : Option Text
  pub created_at : ℕ
  pub updated_at : ℕ
  pub external_event_id : Option ℕ
  pub pending_audits : List AuditRecord

-- `status in _TERMINAL_STATES`, and `status is CANCELLED`.
abbrev pub is_cancelled : AppointmentStatus → Bool
is_cancelled AppointmentStatus.scheduled = false
is_cancelled AppointmentStatus.rescheduled = false
is_cancelled AppointmentStatus.cancelled = true

abbrev pub guard_not_cancelled : Appointment → Result (Unit {0})
guard_not_cancelled a = raise_if (is_cancelled a.status) Error.invalid_transition

abbrev pub touch : ℕ → Appointment → Appointment
touch now a = record a { updated_at = now }

abbrev pub append_audit : AuditAction → ℕ → Appointment → Appointment
append_audit action now a = record a {
  pending_audits = a.pending_audits ++ record { action = action; occurred_at = now } ∷ [];
}

unfoldable pub record_booked : ℕ → Appointment → Appointment
record_booked now a = append_audit AuditAction.booked now a

unfoldable pub drain_audits : Appointment → List AuditRecord × Appointment
drain_audits a = (a.pending_audits, record a { pending_audits = [] })

unfoldable pub assign_external_event : ℕ → Appointment → Appointment
assign_external_event event_id a = record a { external_event_id = some event_id }

unfoldable pub reschedule : TimeRange → ℕ → Appointment → Result Appointment
reschedule new_range now a = do
  guard_not_cancelled a
  ok (
      append_audit AuditAction.rescheduled now
        (touch now (record a { time_range = new_range; status = AppointmentStatus.rescheduled })))

unfoldable pub cancel : ℕ → Appointment → Result Appointment
cancel now a = do
  guard_not_cancelled a
  ok (
      append_audit AuditAction.cancelled now
        (touch now (record a { status = AppointmentStatus.cancelled })))

unfoldable pub add_details : Text → ℕ → Appointment → Result Appointment
add_details text now a = do
  guard_not_cancelled a
  ok (append_audit AuditAction.details_added now (touch now (record a { details = some text })))
