-- ===== src/Scheduling/Repositories.antt =====
-- backend/src/fsm/scheduling/adapters/repositories.py: rows against entities and the audit drain,
-- with the exclusion constraint of backend/alembic/versions/0001_initial_scheduling_schema.py. The
-- adapters' methods stand in the children ServiceCalls, Appointments and
-- Attachments.
pub mod ServiceCalls
pub mod Appointments
pub mod Attachments
pub mod Mapping
pub mod Constraint
pub mod Effects
pub mod Consistency
use field_service_management.Base.{
  ℕ, zero, suc, ◌+◌, Bool, true, false, not, ◌&&◌, List, [], ◌∷◌, ◌++◌, any, ltb, ◌==◌,
}
use field_service_management.Scheduling.Outcome.{Result, ok}
use field_service_management.Scheduling.Outcome
use field_service_management.Scheduling.TimeRange.{TimeRange, make_range}
use field_service_management.Scheduling.Appointment.{
  Appointment, AuditRecord, is_cancelled, drain_audits,
}
use field_service_management.Scheduling.ServiceCall.{ServiceCall}
use field_service_management.Scheduling.Store.{
  AppointmentRow, AppointmentAuditRow, Action, pure, modify, ◌>>◌,
}

abbrev pub call_id : ServiceCall → ℕ
call_id sc = sc.id

abbrev pub row_id : AppointmentRow → ℕ
row_id r = r.id

-- `_row_to_appointment`: the constructor of `TimeRange` checks the bounds again.
unfoldable pub row_to_appointment : AppointmentRow → Result Appointment
row_to_appointment r = Outcome.◌>>=◌ (make_range r.start_at r.end_at) λ range. ok (record {
  id = r.id;
  service_call_id = r.service_call_id;
  technician_id = r.technician_id;
  customer_id = r.customer_id;
  time_range = range;
  status = r.status;
  details = r.details;
  created_at = r.created_at;
  updated_at = r.updated_at;
  external_event_id = r.external_event_id;
  pending_audits = [];
})

-- `_appointment_to_row`.
abbrev pub appointment_to_row : Appointment → AppointmentRow
appointment_to_row a = record {
  id = a.id;
  service_call_id = a.service_call_id;
  technician_id = a.technician_id;
  customer_id = a.customer_id;
  start_at = a.time_range.start;
  end_at = a.time_range.end;
  status = a.status;
  details = a.details;
  external_event_id = a.external_event_id;
  created_at = a.created_at;
  updated_at = a.updated_at;
}

-- `[_row_to_appointment(row) for row in rows]`.
unfoldable pub rows_to_appointments : List AppointmentRow → Result (List Appointment)
unfolding row_to_appointment
rows_to_appointments [] = ok []
rows_to_appointments (r ∷ rs) =
    Outcome.◌>>=◌ (row_to_appointment r)
      λ a. Outcome.◌>>=◌ (rows_to_appointments rs) λ rest. ok (a ∷ rest)

-- `tstzrange(a, b, '[)') && tstzrange(c, d, '[)')`: two ranges that are not empty share a point.
abbrev pub ranges_meet : ℕ → ℕ → ℕ → ℕ → Bool
ranges_meet a b c d = ltb a b && ltb c d && ltb a d && ltb c b

-- The exclusion constraint `appointment_no_overlap`, between two rows.
abbrev pub clash : AppointmentRow → AppointmentRow → Bool
clash r q =
    r.technician_id == q.technician_id
    && not (is_cancelled r.status)
    && not (is_cancelled q.status)
    && ranges_meet r.start_at r.end_at q.start_at q.end_at

-- Some other row excludes this one.
unfoldable pub excluded : AppointmentRow → List AppointmentRow → Bool
excluded r rows = any (λ q. not (row_id q == row_id r) && clash q r) rows

audit_rows : ℕ → ℕ → List AuditRecord → List AppointmentAuditRow
audit_rows next_uuid appointment_id [] = []
audit_rows next_uuid appointment_id (a ∷ as') =
    record {
      id = next_uuid;
      appointment_id = appointment_id;
      action = a.action;
      occurred_at = a.occurred_at;
    }
    ∷ audit_rows (suc next_uuid) appointment_id as'

count_of : List AuditRecord → ℕ
count_of [] = 0
count_of (a ∷ as') = suc (count_of as')

-- `_drain_audits`: one audit row for each pending record. The entity comes back with none pending.
unfoldable pub drain_into : Appointment → Action Appointment
unfolding audit_rows count_of drain_audits
drain_into a = do
  let (records, a') = drain_audits a
  modify λ s. record s {
    audits = s.audits ++ audit_rows s.next_uuid a.id records;
    next_uuid = s.next_uuid + count_of records;
  }
  pure a'
