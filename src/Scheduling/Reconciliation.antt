-- ===== src/Scheduling/Reconciliation.antt =====
-- backend/src/fsm/scheduling/application/reconciliation_service.py and ports/inbound.py.
pub mod Acceptance
pub mod Reports
pub mod Outcomes
pub mod Invariant
use field_service_management.Base.{
  ℕ, Bool, true, false, not, ◌&&◌, Option, none, some, List, [], ◌∷◌, leb, ◌==◌, if◌then◌else◌,
}
use field_service_management.Scheduling.Outcome.{Result, ok, err, Error}
use field_service_management.Scheduling.Outcome
use field_service_management.Scheduling.TimeRange.{TimeRange, overlaps}
use field_service_management.Scheduling.Policy.{AvailabilityInputs, is_available}
use field_service_management.Scheduling.Appointment.{Appointment, is_cancelled, reschedule, cancel}
use field_service_management.Scheduling.Store.{
  Store, Action, Notice, OutboxOperation, pure, attempt, reads, notify, ◌>>=◌, ◌>>◌,
}
use field_service_management.Scheduling.Repositories.Appointments
use field_service_management.Scheduling.Repositories.Appointments.{list_for_technician_between}
use field_service_management.Scheduling.Outbox.{enqueue}

pub record InboundEventChange : Type 0 where
  pub appointment_id : ℕ
  pub updated_at : ℕ
  pub cancelled : Bool
  pub customer_declined : Bool
  pub new_time_range : Option TimeRange

pub record ReconciledChange : Type 0 where
  pub appointment_id : ℕ
  pub customer_id : ℕ
  pub technician_id : ℕ

abbrev pub change_for : Appointment → ReconciledChange
change_for a = record {
  appointment_id = a.id;
  customer_id = a.customer_id;
  technician_id = a.technician_id;
}

-- The loop of `_accepts`.
pub conflict_free : ℕ → TimeRange → List Appointment → Bool
conflict_free id new_time_range [] = true
conflict_free id new_time_range (existing ∷ rest) =
    let next : Bool = conflict_free id new_time_range rest in
    if existing.id == id
    then next
    else if overlaps existing.time_range new_time_range
    then false
    else next

pub announce_gone : Appointment → Action (Option ReconciledChange)
announce_gone saved = do notify (Notice.appointment_cancelled saved); pure (some (change_for saved))

-- `change.cancelled`: the event is gone from the calendar already, so nothing is projected.
pub write_gone : Appointment → Action (Option ReconciledChange)
unfolding announce_gone
write_gone gone = Appointments.save gone >>= announce_gone

pub announce_declined : Appointment → Action (Option ReconciledChange)
announce_declined saved = do
  enqueue OutboxOperation.delete saved.id saved.external_event_id
  notify (Notice.appointment_cancelled saved)
  pure (some (change_for saved))

-- `change.customer_declined`: the event still stands and needs a DELETE.
pub write_declined : Appointment → Action (Option ReconciledChange)
unfolding announce_declined
write_declined gone = Appointments.save gone >>= announce_declined

pub announce_moved : Appointment → Action (Option ReconciledChange)
announce_moved saved = do
  notify (Notice.appointment_rescheduled saved)
  pure (some (change_for saved))

pub write_moved : Appointment → Action (Option ReconciledChange)
unfolding announce_moved
write_moved moved = Appointments.save moved >>= announce_moved

-- The table's time wins: it is projected again, and both parties are told.
pub reject_move : Appointment → Action (Option ReconciledChange)
reject_move appt = do
  enqueue OutboxOperation.update appt.id none
  notify (Notice.appointment_reschedule_rejected appt)
  pure none

pub decide_move : ℕ → Appointment → TimeRange → Bool → Action (Option ReconciledChange)
unfolding write_moved reject_move
decide_move now appt new_time_range accepted =
    if accepted
    then (attempt (reschedule new_time_range now appt) >>= write_moved)
    else reject_move appt

-- What the constructor injects: the policy inputs of a technician around an instant.
module _ (availability_inputs : ℕ → ℕ → AvailabilityInputs) where
  pub accepts : Appointment → TimeRange → Store → Result Bool
  unfolding conflict_free
  accepts appt new_time_range s =
      let inputs = availability_inputs appt.technician_id new_time_range.start in
      if not (is_available inputs.working_hours inputs.tz inputs.excluded_dates new_time_range)
      then ok false
      else Outcome.◌>>=◌
          (list_for_technician_between appt.technician_id new_time_range.start new_time_range.end s)
          λ others. ok (conflict_free appt.id new_time_range others)

  -- `change.new_time_range is not None and change.new_time_range != appt.time_range`.
  pub consider_move : ℕ → Appointment → Option TimeRange → Action (Option ReconciledChange)
  unfolding accepts decide_move
  consider_move now appt none = pure none
  consider_move now appt (some r) =
      if r.start == appt.time_range.start && r.end == appt.time_range.end
      then pure none
      else (reads (accepts appt r) >>= decide_move now appt r)

  pub apply_change : ℕ → InboundEventChange → Appointment → Action (Option ReconciledChange)
  unfolding write_gone write_declined consider_move
  apply_change now change appt =
      if leb change.updated_at appt.updated_at
      then pure none
      else if is_cancelled appt.status
      then pure none
      else if change.cancelled
      then (attempt (cancel now appt) >>= write_gone)
      else if change.customer_declined
      then (attempt (cancel now appt) >>= write_declined)
      else consider_move now appt change.new_time_range

  -- Only `NotFoundError` is caught; any other error of the lookup goes on.
  pub handle_found :
      ℕ → InboundEventChange → Result Appointment × Store → Result (Option ReconciledChange) × Store
  unfolding apply_change
  handle_found now change (ok appt, s) = apply_change now change appt s
  handle_found now change (err Error.not_found, s) = (ok none, s)
  handle_found now change (err e, s) = (err e, s)

  pub reconcile : ℕ → InboundEventChange → Action (Option ReconciledChange)
  unfolding handle_found
  reconcile now change s = handle_found now change (Appointments.get change.appointment_id s)
