-- ===== src/Scheduling/Booking/Guards.antt =====
-- The overlap guard of backend/src/fsm/scheduling/application/appointment_service.py against the
-- exclusion constraint of the table.
use field_service_management.Base.{
  ℕ, ◌≡◌, refl, Bool, true, false, not, ◌&&◌, Option, none, some, List, [], ◌∷◌, arith, All,
  All-filter, filter, map, any, opt_eq, ◌==◌, if◌then◌else◌, Bool-cases, inl, inr, ltb,
  any-eq-false, any-eq-false_of_All,
}
use field_service_management.Scheduling.Outcome.{ok, err, Error}
use field_service_management.Scheduling.TimeRange.{TimeRange, overlaps, IsValidRange}
use field_service_management.Scheduling.Appointment.{is_cancelled}
use field_service_management.Scheduling.Store.{AppointmentRow, Store}
use field_service_management.Scheduling.Repositories.{row_id, clash, excluded}
use field_service_management.Scheduling.Repositories.Mapping.{
  IsValidRow, entity, rows_to_appointments-eq,
}
use field_service_management.Scheduling.Repositories.Appointments.{
  in_window, list_for_technician_between,
}
use field_service_management.Scheduling.Booking.{check_conflicts, guard_no_overlap}

-- A row in the way: an active appointment of the technician, other than the excluded one, that
-- shares a point of time with the range.
abbrev pub blocks : ℕ → TimeRange → Option ℕ → AppointmentRow → Bool
blocks technician_id r exclude_id row =
    not (opt_eq (some row.id) exclude_id)
    && row.technician_id == technician_id
    && not (is_cancelled row.status)
    && overlaps r (record { start = row.start_at; end = row.end_at })

check_conflicts-eq :
    (technician_id : ℕ) (r : TimeRange) (exclude_id : Option ℕ) (rows : List AppointmentRow)
    → IsValidRange r
    → All IsValidRow rows
    → check_conflicts r exclude_id
        (map entity (filter (in_window technician_id r.start r.end) rows))
      ≡ (if any (blocks technician_id r exclude_id) rows then err Error.slot_unavailable else ok tt)
unfolding check_conflicts in_window
check_conflicts-eq technician_id r exclude_id [] valid all = refl
check_conflicts-eq technician_id r exclude_id (row ∷ rows) valid all =
    elim (Bool-cases (in_window technician_id r.start r.end row)) [
      | inl seen ↦ ground (arith, check_conflicts-eq technician_id r exclude_id rows valid all.1)
      | inr unseen ↦ ground (arith, check_conflicts-eq technician_id r exclude_id rows valid all.1)
    ]

-- Over rows that hold valid time ranges and for a valid range, the guard raises SlotUnavailable
-- when some other active appointment of the technician overlaps the range, and passes otherwise.
pub guard_no_overlap-eq :
    (technician_id : ℕ) (r : TimeRange) (exclude_id : Option ℕ) (s : Store)
    → IsValidRange r
    → All IsValidRow s.appointments
    → guard_no_overlap technician_id r exclude_id s ≡ (
        if any (blocks technician_id r exclude_id) s.appointments
        then err Error.slot_unavailable
        else ok tt)
unfolding guard_no_overlap list_for_technician_between
guard_no_overlap-eq technician_id r exclude_id s valid all =
    rw
      (rows_to_appointments-eq (filter (in_window technician_id r.start r.end) s.appointments)
        (All-filter IsValidRow (in_window technician_id r.start r.end) s.appointments all))
      (check_conflicts-eq technician_id r exclude_id s.appointments valid all)

abbrev pub range_of : AppointmentRow → TimeRange
range_of row = record { start = row.start_at; end = row.end_at }

-- A conjunction fails that has the parts of one that fails.
and_drop :
    (a b c v w x y : Bool)
    → (a && b && (x && y)) ≡ false
    → (a && b && c && (v && w && y && x)) ≡ false
and_drop false b c v w x y h = refl
and_drop true false c v w x y h = refl
and_drop true true false v w x y h = refl
and_drop true true true false w x y h = refl
and_drop true true true true false x y h = refl
and_drop true true true true true x false h = refl
and_drop true true true true true x true h = ground arith

-- One row that does not block the range of another does not exclude it from the table.
not_blocked :
    (row q : AppointmentRow)
    → blocks row.technician_id (range_of row) (some row.id) q ≡ false
    → (not (row_id q == row_id row) && clash q row) ≡ false
not_blocked row q free = elim (Bool-cases (q.id == row.id)) [
  | inl same ↦ rw same
  | inr other ↦ rw other (no_clash (rw other at free))
]
  where
    no_clash :
        (q.technician_id == row.technician_id
            && not (is_cancelled q.status)
            && overlaps (range_of row) (range_of q))
          ≡ false
        → clash q row ≡ false
    no_clash h =
        and_drop (q.technician_id == row.technician_id) (not (is_cancelled q.status))
          (not (is_cancelled row.status)) (ltb q.start_at q.end_at) (ltb row.start_at row.end_at)
          (ltb row.start_at q.end_at) (ltb q.start_at row.end_at) h

-- What the guard lets pass, the exclusion constraint lets pass.
pub excluded_of_blocks :
    (row : AppointmentRow) (rows : List AppointmentRow)
    → any (blocks row.technician_id (range_of row) (some row.id)) rows ≡ false
    → excluded row rows ≡ false
unfolding excluded
excluded_of_blocks row [] free = refl
excluded_of_blocks row (q ∷ qs) free =
    let parts : All (λ x. blocks row.technician_id (range_of row) (some row.id) x ≡ false)
        (q ∷ qs) =
      any-eq-false (blocks row.technician_id (range_of row) (some row.id)) (q ∷ qs) free in
    rw (not_blocked row q parts.0) (
      excluded_of_blocks row qs
        (any-eq-false_of_All (blocks row.technician_id (range_of row) (some row.id)) qs parts.1))

-- With no row left out the guard refuses more.
pub blocks_weaken :
    (technician_id id : ℕ) (r : TimeRange) (rows : List AppointmentRow)
    → any (blocks technician_id r none) rows ≡ false
    → any (blocks technician_id r (some id)) rows ≡ false
blocks_weaken technician_id id r [] free = refl
blocks_weaken technician_id id r (q ∷ qs) free =
    let parts : All (λ x. blocks technician_id r none x ≡ false) (q ∷ qs) =
      any-eq-false (blocks technician_id r none) (q ∷ qs) free in
    rw
      (and_weaken (not (q.id == id)) (q.technician_id == technician_id)
        (not (is_cancelled q.status)) (overlaps r (range_of q)) parts.0)
      (blocks_weaken technician_id id r qs
        (any-eq-false_of_All (blocks technician_id r none) qs parts.1))
  where
    and_weaken : (p a b c : Bool) → (a && b && c) ≡ false → (p && a && b && c) ≡ false
    and_weaken false a b c h = refl
    and_weaken true a b c h = h
