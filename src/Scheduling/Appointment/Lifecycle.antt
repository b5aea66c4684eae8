-- ===== src/Scheduling/Appointment/Lifecycle.antt =====
-- The lifecycle of backend/src/fsm/scheduling/domain/appointment.py: each mutation by how it ends,
-- and CANCELLED as a state that nothing leaves.
use field_service_management.Base.{ℕ, ◌≡◌, refl, ◌⊎◌, true, false, some, List, [], ◌∷◌, arith}
use field_service_management.Base.Text.{Text}
use field_service_management.Scheduling.Outcome.{Result, ok, err, Error}
use field_service_management.Scheduling.TimeRange.{TimeRange}
use field_service_management.Scheduling.Appointment.{
  Appointment, AppointmentStatus, AuditAction, is_cancelled, append_audit, reschedule, cancel,
  add_details, assign_external_event,
}

-- What a mutation of an appointment that is not cancelled returns.
abbrev pub as_cancelled : ℕ → Appointment → Appointment
as_cancelled now a =
    append_audit AuditAction.cancelled now
      (record a { status = AppointmentStatus.cancelled; updated_at = now })

abbrev pub as_rescheduled : TimeRange → ℕ → Appointment → Appointment
as_rescheduled r now a =
    append_audit AuditAction.rescheduled now
      (record a { time_range = r; status = AppointmentStatus.rescheduled; updated_at = now })

abbrev pub as_noted : Text → ℕ → Appointment → Appointment
as_noted text now a =
    append_audit AuditAction.details_added now (record a { details = some text; updated_at = now })

-- The mutation is refused exactly for a cancelled appointment.
abbrev pub Guarded : Appointment → Appointment → Result Appointment → Type 0
Guarded a b r =
    ((is_cancelled a.status ≡ true) × (r ≡ err Error.invalid_transition))
    ⊎ ((is_cancelled a.status ≡ false) × (r ≡ ok b))

pub cancel-Guarded : (now : ℕ) (a : Appointment) → Guarded a (as_cancelled now a) (cancel now a)
unfolding cancel
cancel-Guarded now a = ground arith

pub reschedule-Guarded :
    (r : TimeRange) (now : ℕ) (a : Appointment)
    → Guarded a (as_rescheduled r now a) (reschedule r now a)
unfolding reschedule
reschedule-Guarded r now a = ground arith

pub add_details-Guarded :
    (text : Text) (now : ℕ) (a : Appointment)
    → Guarded a (as_noted text now a) (add_details text now a)
unfolding add_details
add_details-Guarded text now a = ground arith

pub cancel_active :
    (now : ℕ) (a : Appointment)
    → is_cancelled a.status ≡ false
    → cancel now a ≡ ok (as_cancelled now a)
unfolding cancel
cancel_active now a h = ground arith

pub reschedule_active :
    (r : TimeRange) (now : ℕ) (a : Appointment)
    → is_cancelled a.status ≡ false
    → reschedule r now a ≡ ok (as_rescheduled r now a)
unfolding reschedule
reschedule_active r now a h = ground arith

-- A call of a mutation, with its arguments.
pub data Mutation : Type 0 where
  reschedules : TimeRange → ℕ → Mutation
  cancels : ℕ → Mutation
  adds_details : Text → ℕ → Mutation
  assigns_event : ℕ → Mutation

pub mutate : Mutation → Appointment → Result Appointment
mutate (reschedules r now) a = reschedule r now a
mutate (cancels now) a = cancel now a
mutate (adds_details text now) a = add_details text now a
mutate (assigns_event event_id) a = ok (assign_external_event event_id a)

-- A caller that goes on after a refusal.
abbrev kept : Appointment → Result Appointment → Appointment
kept a (ok b) = b
kept a (err e) = a

pub mutate_all : List Mutation → Appointment → Appointment
unfolding mutate
mutate_all [] a = a
mutate_all (m ∷ ms) a = mutate_all ms (kept a (mutate m a))

-- All that a cancelled appointment keeps.
abbrev pub SameVisit : Appointment → Appointment → Type 0
SameVisit a b =
    (b.status ≡ a.status)
    × (b.time_range ≡ a.time_range)
    × (b.details ≡ a.details)
    × (b.updated_at ≡ a.updated_at)
    × (b.pending_audits ≡ a.pending_audits)

mutate-SameVisit :
    (m : Mutation) (a : Appointment)
    → is_cancelled a.status ≡ true
    → SameVisit a (kept a (mutate m a))
unfolding mutate reschedule cancel add_details assign_external_event
mutate-SameVisit (reschedules r now) a h = ground arith
mutate-SameVisit (cancels now) a h = ground arith
mutate-SameVisit (adds_details text now) a h = ground arith
mutate-SameVisit (assigns_event event_id) a h = ground arith

-- Once an appointment is cancelled, no sequence of mutations changes its status, time, details,
-- time stamp or audit trail.
pub mutate_all-SameVisit :
    (ms : List Mutation) (a : Appointment)
    → is_cancelled a.status ≡ true
    → SameVisit a (mutate_all ms a)
unfolding mutate_all
mutate_all-SameVisit [] a h = (refl, refl, refl, refl, refl)
mutate_all-SameVisit (m ∷ ms) a h =
    ground (arith, mutate-SameVisit m a h, mutate_all-SameVisit ms (kept a (mutate m a)))
