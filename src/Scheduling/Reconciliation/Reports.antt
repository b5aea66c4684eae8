-- ===== src/Scheduling/Reconciliation/Reports.antt =====
-- What `reconcile` of backend/src/fsm/scheduling/application/reconciliation_service.py may do to the
-- tables, and what it then reports.
use field_service_management.Base.{
  ℕ, ◌+◌, ◌≤◌, ◌<◌, ◌≡◌, true, false, Option, none, some, [], ◌∷◌, ◌++◌, ◌⊎◌,
}
use field_service_management.Base.Rows.{find, put}
use field_service_management.Scheduling.Outcome.{Result, ok, err}
use field_service_management.Scheduling.TimeRange.{TimeRange}
use field_service_management.Scheduling.Policy.{AvailabilityInputs}
use field_service_management.Scheduling.Appointment.{Appointment, is_cancelled}
use field_service_management.Scheduling.Appointment.Lifecycle.{as_cancelled, as_rescheduled}
use field_service_management.Scheduling.Store.{AppointmentRow, Store, Notice, OutboxOperation}
use field_service_management.Scheduling.Repositories.{row_id, appointment_to_row}
use field_service_management.Scheduling.Repositories.Mapping.{entity}
use field_service_management.Scheduling.Repositories.Effects.{drained}
use field_service_management.Scheduling.Booking.Outcomes.{entry}
use field_service_management.Scheduling.Reconciliation.{
  InboundEventChange, ReconciledChange, change_for, accepts,
}

-- The row's appointment once it is cancelled or moved, with its audits written.
abbrev pub cancelled_by : ℕ → AppointmentRow → Appointment
cancelled_by now row = drained (as_cancelled now (entity row))

abbrev pub moved_by : ℕ → TimeRange → AppointmentRow → Appointment
moved_by now r row = drained (as_rescheduled r now (entity row))

module _ (inputs : ℕ → ℕ → AvailabilityInputs) (now : ℕ) (change : InboundEventChange) where
  -- Why a change is left aside.
  abbrev pub Ignored : Store → Type 0
  Ignored s =
      (find row_id change.appointment_id s.appointments ≡ none)
      ⊎ ((row : AppointmentRow) × (find row_id change.appointment_id s.appointments ≡ some row)
          × ((change.updated_at ≤ row.updated_at)
              ⊎ ((is_cancelled row.status ≡ true)
                  ⊎ ((change.cancelled ≡ false)
                      × (change.customer_declined ≡ false)
                      × ((change.new_time_range ≡ none)
                          ⊎ (change.new_time_range
                              ≡ some (record { start = row.start_at; end = row.end_at })))))))

  -- What a change that is newer than an active row did, and what the caller is told.
  pub data Applied (s : Store) (row : AppointmentRow) (told : Option ReconciledChange) (t : Store)
      : Type 0 where
    gone :
        change.cancelled ≡ true
        → told ≡ some (change_for (entity row))
        → t.appointments ≡ put row_id (appointment_to_row (cancelled_by now row)) s.appointments
        → t.outbox ≡ s.outbox
        → t.notices ≡ s.notices ++ Notice.appointment_cancelled (cancelled_by now row) ∷ []
        → t.next_uuid ≡ s.next_uuid + 1
        → Applied s row told t
    declined :
        change.cancelled ≡ false
        → change.customer_declined ≡ true
        → told ≡ some (change_for (entity row))
        → t.appointments ≡ put row_id (appointment_to_row (cancelled_by now row)) s.appointments
        → t.outbox
          ≡ s.outbox
            ++ entry (s.next_uuid + 1) OutboxOperation.delete row.id row.external_event_id ∷ []
        → t.notices ≡ s.notices ++ Notice.appointment_cancelled (cancelled_by now row) ∷ []
        → t.next_uuid ≡ s.next_uuid + 2
        → Applied s row told t
    moved :
        (r : TimeRange)
        → change.cancelled ≡ false
        → change.customer_declined ≡ false
        → change.new_time_range ≡ some r
        → accepts inputs (entity row) r s ≡ ok true
        → told ≡ some (change_for (entity row))
        → t.appointments ≡ put row_id (appointment_to_row (moved_by now r row)) s.appointments
        → t.outbox ≡ s.outbox
        → t.notices ≡ s.notices ++ Notice.appointment_rescheduled (moved_by now r row) ∷ []
        → t.next_uuid ≡ s.next_uuid + 1
        → Applied s row told t
    rejected :
        (r : TimeRange)
        → change.cancelled ≡ false
        → change.customer_declined ≡ false
        → change.new_time_range ≡ some r
        → accepts inputs (entity row) r s ≡ ok false
        → told ≡ none
        → t.appointments ≡ s.appointments
        → t.outbox ≡ s.outbox ++ entry s.next_uuid OutboxOperation.update row.id none ∷ []
        → t.notices ≡ s.notices ++ Notice.appointment_reschedule_rejected (entity row) ∷ []
        → t.next_uuid ≡ s.next_uuid + 1
        → Applied s row told t

  abbrev pub Reconciles : Store → Result (Option ReconciledChange) × Store → Type 0
  Reconciles s (ok told, t) =
      (Ignored s × (told ≡ none) × (t ≡ s))
      ⊎ ((row : AppointmentRow) × (find row_id change.appointment_id s.appointments ≡ some row)
          × (row.updated_at < change.updated_at)
          × (is_cancelled row.status ≡ false)
          × Applied s row told t)
  Reconciles s (err e, t) = ⊥
