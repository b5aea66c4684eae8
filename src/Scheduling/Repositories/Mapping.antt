-- ===== src/Scheduling/Repositories/Mapping.antt =====
-- Rows against entities in backend/src/fsm/scheduling/adapters/repositories.py: a row that was
-- written from a valid time range is read back.
use field_service_management.Base.{◌<◌, ◌≡◌, refl, List, [], ◌∷◌, arith, All, map}
use field_service_management.Scheduling.Outcome.{ok}
use field_service_management.Scheduling.TimeRange.{make_range, IsValidRange}
use field_service_management.Scheduling.Appointment.{Appointment}
use field_service_management.Scheduling.Store.{AppointmentRow}
use field_service_management.Scheduling.Repositories.{
  row_to_appointment, appointment_to_row, rows_to_appointments,
}

abbrev pub IsValidRow : AppointmentRow → Type 0
IsValidRow r = r.start_at < r.end_at

-- The entity that a valid row stands for.
abbrev pub entity : AppointmentRow → Appointment
entity r = record {
  id = r.id;
  service_call_id = r.service_call_id;
  technician_id = r.technician_id;
  customer_id = r.customer_id;
  time_range = record { start = r.start_at; end = r.end_at };
  status = r.status;
  details = r.details;
  created_at = r.created_at;
  updated_at = r.updated_at;
  external_event_id = r.external_event_id;
  pending_audits = [];
}

pub row_to_appointment-eq :
    (r : AppointmentRow) → IsValidRow r → row_to_appointment r ≡ ok (entity r)
unfolding row_to_appointment make_range
row_to_appointment-eq r h = ground arith

-- An appointment with a valid time range comes back from its row as it was, less the audits that
-- were pending; and a row that can be read is written back unchanged.
pub row_to_appointment-appointment_to_row :
    (a : Appointment)
    → IsValidRange a.time_range
    → (row_to_appointment (appointment_to_row a) ≡ ok (record a { pending_audits = [] }))
      × (appointment_to_row (entity (appointment_to_row a)) ≡ appointment_to_row a)
row_to_appointment-appointment_to_row a h = (row_to_appointment-eq (appointment_to_row a) h, refl)

pub rows_to_appointments-eq :
    (rows : List AppointmentRow)
    → All IsValidRow rows
    → rows_to_appointments rows ≡ ok (map entity rows)
unfolding rows_to_appointments
rows_to_appointments-eq [] h = refl
rows_to_appointments-eq (r ∷ rs) h =
    rw (row_to_appointment-eq r h.0, rows_to_appointments-eq rs h.1)
