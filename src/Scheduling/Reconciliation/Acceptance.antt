-- ===== src/Scheduling/Reconciliation/Acceptance.antt =====
-- When `_accepts` of backend/src/fsm/scheduling/application/reconciliation_service.py takes a time.
use field_service_management.Base.{
  ℕ, ◌≡◌, refl, Bool, true, false, not, ◌&&◌, some, List, [], ◌∷◌, arith, All, All-filter, filter,
  map, any, Bool-cases, inl, inr, if◌then◌else◌,
}
use field_service_management.Scheduling.Outcome.{ok}
use field_service_management.Scheduling.TimeRange.{TimeRange, IsValidRange}
use field_service_management.Scheduling.Policy.{AvailabilityInputs, is_available}
use field_service_management.Scheduling.Appointment.{Appointment}
use field_service_management.Scheduling.Store.{AppointmentRow, Store}
use field_service_management.Scheduling.Repositories.Mapping.{
  IsValidRow, entity, rows_to_appointments-eq,
}
use field_service_management.Scheduling.Repositories.Appointments.{
  in_window, list_for_technician_between,
}
use field_service_management.Scheduling.Booking.Guards.{blocks}
use field_service_management.Scheduling.Reconciliation.{conflict_free, accepts}

abbrev pub admits : AvailabilityInputs → TimeRange → Bool
admits inputs r = is_available inputs.working_hours inputs.tz inputs.excluded_dates r

conflict_free-eq :
    (technician_id id : ℕ) (r : TimeRange) (rows : List AppointmentRow)
    → IsValidRange r
    → All IsValidRow rows
    → conflict_free id r (map entity (filter (in_window technician_id r.start r.end) rows))
      ≡ not (any (blocks technician_id r (some id)) rows)
unfolding conflict_free in_window
conflict_free-eq technician_id id r [] valid all = refl
conflict_free-eq technician_id id r (row ∷ rows) valid all =
    elim (Bool-cases (in_window technician_id r.start r.end row)) [
      | inl seen ↦ ground (arith, conflict_free-eq technician_id id r rows valid all.1)
      | inr unseen ↦ ground (arith, conflict_free-eq technician_id id r rows valid all.1)
    ]

-- Over a consistent table and for a valid range, `_accepts` says: the policy admits the time, and no
-- other active appointment of the technician overlaps it.
pub accepts-eq :
    (inputs : ℕ → ℕ → AvailabilityInputs) (a : Appointment) (r : TimeRange) (s : Store)
    → IsValidRange r
    → All IsValidRow s.appointments
    → accepts inputs a r s
      ≡ ok (
          admits (inputs a.technician_id r.start) r
          && not (any (blocks a.technician_id r (some a.id)) s.appointments))
unfolding accepts list_for_technician_between
accepts-eq inputs a r s valid all =
    rw
      (rows_to_appointments-eq (filter (in_window a.technician_id r.start r.end) s.appointments)
        (All-filter IsValidRow (in_window a.technician_id r.start r.end) s.appointments all))
      (rw (conflict_free-eq a.technician_id a.id r s.appointments valid all) (
        both (admits (inputs a.technician_id r.start) r)
          (not (any (blocks a.technician_id r (some a.id)) s.appointments))))
  where
    both : (p q : Bool) → (if not p then ok false else ok q) ≡ ok (p && q)
    both true q = refl
    both false q = refl
