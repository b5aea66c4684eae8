-- ===== src/Scheduling/Booking/Invariant.antt =====
-- The appointment table stays consistent under the use cases of
-- backend/src/fsm/scheduling/application/appointment_service.py: no technician is booked twice.
use field_service_management.Base.{
  arith, ℕ, ◌<◌, ◌≡◌, refl, sym, false, Option, none, some, [], ◌∷◌, ◌++◌, All, any, Bool-cases,
  inl, inr,
}
use mathlib.Core.Path.{subst}
use field_service_management.Base.Rows.{find, put, find-key, All-find}
use field_service_management.Base.Text.{Text}
use field_service_management.Scheduling.Outcome.{Result, ok, err, Error}
use field_service_management.Scheduling.TimeRange.{TimeRange, IsValidRange}
use field_service_management.Scheduling.Appointment.{Appointment, AppointmentStatus}
use field_service_management.Scheduling.Store.{Store, AppointmentRow}
use field_service_management.Scheduling.Repositories.{row_id, appointment_to_row}
use field_service_management.Scheduling.Repositories.Mapping.{IsValidRow, entity}
use field_service_management.Scheduling.Repositories.Constraint.{IsSeparate}
use field_service_management.Scheduling.Repositories.Consistency.{
  IsConsistent, fresh_mono, put-IsConsistent, append-IsConsistent, excluded_cancelled,
  excluded_same,
}
use field_service_management.Scheduling.Booking.{
  AppointmentService, book_appointment, reschedule_appointment, cancel_appointment, add_details,
  guard_no_overlap,
}
use field_service_management.Scheduling.Booking.Guards.{
  blocks, guard_no_overlap-eq, excluded_of_blocks, blocks_weaken,
}
use field_service_management.Scheduling.Booking.Outcomes.{
  SameTables, Cancels, Notes, Reschedules, cancel_appointment-Cancels, add_details-Notes,
  reschedule_appointment-Reschedules,
}
use field_service_management.Scheduling.Booking.Booked.{Books, book_appointment-Books, booked}

-- What a failure leaves is as consistent as it was.
pub SameTables-IsConsistent : (s t : Store) → SameTables s t → IsConsistent s → IsConsistent t
SameTables-IsConsistent s t (_, rows, _, _, _, le) c = record {
  valid = subst (All IsValidRow) rows c.valid;
  separate = subst IsSeparate rows c.separate;
  fresh = subst (All (λ r. r.id < t.next_uuid)) rows (fresh_mono s.appointments le c.fresh);
}

refused_ne_passed : ◌≡◌ {A = Result (Unit {0})} (err Error.slot_unavailable) (ok tt) → ⊥
refused_ne_passed e = cc

pub guard_no_overlap-blocks :
    (technician_id : ℕ) (r : TimeRange) (exclude_id : Option ℕ) (s : Store)
    → IsValidRange r
    → IsConsistent s
    → guard_no_overlap technician_id r exclude_id s ≡ ok tt
    → any (blocks technician_id r exclude_id) s.appointments ≡ false
guard_no_overlap-blocks technician_id r exclude_id s valid c h =
    elim (Bool-cases (any (blocks technician_id r exclude_id) s.appointments)) [
      | inr free ↦ free
      | inl hit ↦ absurd (
          refused_ne_passed
            (rw (guard_no_overlap-eq technician_id r exclude_id s valid c.valid, hit) at h))
    ]

as_moved : TimeRange → ℕ → AppointmentRow → Appointment
as_moved r now row = record (entity row) {
  time_range = r;
  status = AppointmentStatus.rescheduled;
  updated_at = now;
}

reschedule-step :
    (now id : ℕ) (r : TimeRange) (s : Store) (out : Result Appointment × Store)
    → IsValidRange r
    → IsConsistent s
    → Reschedules now id r s out
    → IsConsistent out.1
unfolding as_moved
reschedule-step now id r s (err e, t) valid c h = SameTables-IsConsistent s t h c
reschedule-step now id r s (ok a, t) valid c (row, found, active, guard, e, w) =
    put-IsConsistent (appointment_to_row moved) s t valid
      (All-find row_id (λ x. x.id < s.next_uuid) id s.appointments row found c.fresh)
      (excluded_of_blocks (appointment_to_row moved) s.appointments free)
      (subst (λ x. t.appointments ≡ put row_id (appointment_to_row x) s.appointments) e w.1)
      (omega (arith, w.5)) c
  where
    moved : Appointment
    moved = as_moved r now row

    free : any (blocks row.technician_id r (some row.id)) s.appointments ≡ false
    free =
        guard_no_overlap-blocks row.technician_id r (some row.id) s valid c
          (rw (find-key row_id id s.appointments row found) guard)

-- From a consistent table, a reschedule to a valid range, whether it returns or raises, keeps the
-- table consistent.
pub reschedule_appointment-IsConsistent :
    (now id : ℕ) (r : TimeRange) (s : Store)
    → IsValidRange r
    → IsConsistent s
    → IsConsistent (reschedule_appointment now id r s).1
reschedule_appointment-IsConsistent now id r s valid c =
    reschedule-step now id r s (reschedule_appointment now id r s) valid c
      (reschedule_appointment-Reschedules now id r s)

as_gone : ℕ → AppointmentRow → Appointment
as_gone now row = record (entity row) { status = AppointmentStatus.cancelled; updated_at = now }

cancel-step :
    (now id : ℕ) (s : Store) (out : Result Appointment × Store)
    → IsConsistent s
    → Cancels now id s out
    → IsConsistent out.1
unfolding as_gone
cancel-step now id s (err e, t) c h = SameTables-IsConsistent s t h c
cancel-step now id s (ok a, t) c (row, found, active, e, w) =
    put-IsConsistent (appointment_to_row (as_gone now row)) s t
      (All-find row_id IsValidRow id s.appointments row found c.valid)
      (All-find row_id (λ x. x.id < s.next_uuid) id s.appointments row found c.fresh)
      (excluded_cancelled (appointment_to_row (as_gone now row)) s.appointments refl)
      (subst (λ x. t.appointments ≡ put row_id (appointment_to_row x) s.appointments) e w.1)
      (omega (arith, w.5)) c

-- From a consistent table, a cancellation, whether it returns or raises, keeps it consistent.
pub cancel_appointment-IsConsistent :
    (now id : ℕ) (s : Store) → IsConsistent s → IsConsistent (cancel_appointment now id s).1
cancel_appointment-IsConsistent now id s c =
    cancel-step now id s (cancel_appointment now id s) c (cancel_appointment-Cancels now id s)

book-step :
    (service : AppointmentService) (now call technician customer : ℕ) (r : TimeRange) (s : Store)
    (out : Result Appointment × Store)
    → IsValidRange r
    → IsConsistent s
    → Books service now call technician customer r s out
    → IsConsistent out.1
book-step service now call technician customer r s (err e, t) valid c h =
    SameTables-IsConsistent s t h c
book-step service now call technician customer r s (ok a, t) valid c
      (sc, found, opened, checked, e, calls, rows, audits, outbox, notices, count) =
    append-IsConsistent (appointment_to_row new) s t valid refl
      (excluded_of_blocks (appointment_to_row new) s.appointments
        (blocks_weaken technician s.next_uuid r s.appointments free))
      (subst (λ x. t.appointments ≡ s.appointments ++ appointment_to_row x ∷ []) e rows)
      (omega (arith, count)) c
  where
    new : Appointment
    new = booked s.next_uuid call technician customer r now

    free : any (blocks technician r none) s.appointments ≡ false
    free = guard_no_overlap-blocks technician r none s valid c checked.2

-- From a consistent table, a booking of a valid range, whether it returns or raises, keeps the table
-- consistent: every row valid with a fresh id, and no technician booked twice.
pub book_appointment-IsConsistent :
    (service : AppointmentService) (now call technician customer : ℕ) (r : TimeRange) (s : Store)
    → IsValidRange r
    → IsConsistent s
    → IsConsistent (book_appointment service now call technician customer r s).1
book_appointment-IsConsistent service now call technician customer r s valid c =
    book-step service now call technician customer r s
      (book_appointment service now call technician customer r s) valid c
      (book_appointment-Books service now call technician customer r s)

as_written : Text → ℕ → AppointmentRow → Appointment
as_written text now row = record (entity row) { details = some text; updated_at = now }

details-step :
    (now id : ℕ) (text : Text) (s : Store) (out : Result Appointment × Store)
    → IsConsistent s
    → Notes now id text s out
    → IsConsistent out.1
unfolding as_written
details-step now id text s (err e, t) c h = SameTables-IsConsistent s t h c
details-step now id text s (ok a, t) c (row, found, active, e, w) =
    put-IsConsistent (appointment_to_row (as_written text now row)) s t
      (All-find row_id IsValidRow id s.appointments row found c.valid)
      (All-find row_id (λ x. x.id < s.next_uuid) id s.appointments row found c.fresh)
      (excluded_same (appointment_to_row (as_written text now row)) row s.appointments
        (subst (λ k. find row_id k s.appointments ≡ some row)
          (sym (find-key row_id id s.appointments row found)) found)
        (λ q. refl) c.separate)
      (subst (λ x. t.appointments ≡ put row_id (appointment_to_row x) s.appointments) e w.1)
      (omega (arith, w.5)) c

-- From a consistent table, adding details, whether it returns or raises, keeps it consistent.
pub add_details-IsConsistent :
    (now id : ℕ) (text : Text) (s : Store)
    → IsConsistent s
    → IsConsistent (add_details now id text s).1
add_details-IsConsistent now id text s c =
    details-step now id text s (add_details now id text s) c (add_details-Notes now id text s)
