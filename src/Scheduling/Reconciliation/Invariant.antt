-- ===== src/Scheduling/Reconciliation/Invariant.antt =====
-- The appointment table stays consistent under `reconcile` of
-- backend/src/fsm/scheduling/application/reconciliation_service.py.
use mathlib.Core.Path.{subst}
use field_service_management.Base.{ℕ, ◌≤◌, ◌<◌, ◌≡◌, refl, sym, Option, some, inl, inr, arith}
use field_service_management.Base.Rows.{find, put, All-find}
use field_service_management.Scheduling.Outcome.{Result, ok, err}
use field_service_management.Scheduling.TimeRange.{TimeRange, IsValidRange}
use field_service_management.Scheduling.Policy.{AvailabilityInputs}
use field_service_management.Scheduling.Store.{AppointmentRow, Store}
use field_service_management.Scheduling.Repositories.{row_id, appointment_to_row}
use field_service_management.Scheduling.Repositories.Mapping.{IsValidRow}
use field_service_management.Scheduling.Repositories.Consistency.{
  IsConsistent, put-IsConsistent, excluded_cancelled, same-IsConsistent,
}
use field_service_management.Scheduling.Reconciliation.{
  InboundEventChange, ReconciledChange, reconcile,
}
use field_service_management.Scheduling.Reconciliation.Reports.{
  Applied, Reconciles, cancelled_by, moved_by,
}
use field_service_management.Scheduling.Reconciliation.Reports.Applied.{
  gone, declined, moved, rejected,
}
use field_service_management.Scheduling.Reconciliation.Outcomes.{
  accepted_free, reconcile-Reconciles,
}

module _ (inputs : ℕ → ℕ → AvailabilityInputs) (now : ℕ) (change : InboundEventChange) (s : Store)
    (c : IsConsistent s)
    (valid : (r : TimeRange) → change.new_time_range ≡ some r → IsValidRange r) where
  cancelled-IsConsistent :
      (row : AppointmentRow) (t : Store)
      → find row_id change.appointment_id s.appointments ≡ some row
      → t.appointments ≡ put row_id (appointment_to_row (cancelled_by now row)) s.appointments
      → s.next_uuid ≤ t.next_uuid
      → IsConsistent t
  cancelled-IsConsistent row t found e le =
      put-IsConsistent (appointment_to_row (cancelled_by now row)) s t
        (All-find row_id IsValidRow change.appointment_id s.appointments row found c.valid)
        (All-find row_id (λ x. x.id < s.next_uuid) change.appointment_id s.appointments row found
          c.fresh)
        (excluded_cancelled (appointment_to_row (cancelled_by now row)) s.appointments refl) e le c

  Applied-IsConsistent :
      (row : AppointmentRow) (told : Option ReconciledChange) (t : Store)
      → find row_id change.appointment_id s.appointments ≡ some row
      → Applied inputs now change s row told t
      → IsConsistent t
  Applied-IsConsistent row told t found (gone _ _ rows _ _ count) =
      cancelled-IsConsistent row t found rows (omega (arith, count))
  Applied-IsConsistent row told t found (declined _ _ _ rows _ _ count) =
      cancelled-IsConsistent row t found rows (omega (arith, count))
  Applied-IsConsistent row told t found (moved r _ _ asked answer _ rows _ _ count) =
      put-IsConsistent (appointment_to_row (moved_by now r row)) s t (valid r asked)
        (All-find row_id (λ x. x.id < s.next_uuid) change.appointment_id s.appointments row found
          c.fresh)
        (accepted_free inputs now change s c valid row found r (valid r asked) answer) rows
        (omega (arith, count)) c
  Applied-IsConsistent row told t found (rejected r _ _ _ _ _ rows _ _ count) =
      same-IsConsistent s t rows (omega (arith, count)) c

  Reconciles-IsConsistent :
      (out : Result (Option ReconciledChange) × Store)
      → Reconciles inputs now change s out
      → IsConsistent out.1
  Reconciles-IsConsistent (ok told, t) (inl (why, none_told, same)) =
      subst IsConsistent (sym same) c
  Reconciles-IsConsistent (ok told, t) (inr (row, found, newer, active, h)) =
      Applied-IsConsistent row told t found h
  Reconciles-IsConsistent (err e, t) h = absurd h

  -- Over a consistent table, and for a change that names no time or a valid range, reconciliation
  -- keeps the table consistent: an accepted move books no technician twice.
  pub reconcile-IsConsistent : IsConsistent (reconcile inputs now change s).1
  reconcile-IsConsistent =
      Reconciles-IsConsistent (reconcile inputs now change s)
        (reconcile-Reconciles inputs now change s c valid)
