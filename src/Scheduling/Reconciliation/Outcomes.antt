-- ===== src/Scheduling/Reconciliation/Outcomes.antt =====
-- `reconcile` of backend/src/fsm/scheduling/application/reconciliation_service.py does what its
-- caller is told.
use mathlib.Core.Path.{subst}
use field_service_management.Base.{
  ℕ, ◌<◌, ◌≡◌, refl, sym, ◌∙◌, Bool, true, false, not, ◌&&◌, Option, none, some, arith, any,
  Option-cases, inl, inr, leb, leb→le, ◌==◌,
}
use field_service_management.Base.Rows.{find, find-key, All-find}
use field_service_management.Scheduling.Outcome.{Result, ok}
use field_service_management.Scheduling.TimeRange.{TimeRange, IsValidRange}
use field_service_management.Scheduling.Policy.{AvailabilityInputs}
use field_service_management.Scheduling.Appointment.{Appointment, is_cancelled, reschedule, cancel}
use field_service_management.Scheduling.Appointment.Lifecycle.{
  as_cancelled, as_rescheduled, cancel_active, reschedule_active,
}
use field_service_management.Scheduling.Store.{
  AppointmentRow, Store, Action, pure, reads, attempt, ◌>>=◌,
}
use field_service_management.Scheduling.Store.Post.{given_post, if_post}
use field_service_management.Scheduling.Outbox.{enqueue}
use field_service_management.Scheduling.Repositories.{
  row_id, appointment_to_row, drain_into, excluded,
}
use field_service_management.Scheduling.Repositories.Mapping.{IsValidRow, entity}
use field_service_management.Scheduling.Repositories.Effects.{
  updated, get_valid, get_missing, save_allowed_post,
}
use field_service_management.Scheduling.Repositories.Consistency.{IsConsistent, excluded_cancelled}
use field_service_management.Scheduling.Repositories.Appointments
use field_service_management.Scheduling.Repositories.Appointments.{
  in_window, list_for_technician_between,
}
use field_service_management.Scheduling.Booking.Guards.{blocks, excluded_of_blocks}
use field_service_management.Scheduling.Reconciliation.{
  InboundEventChange, ReconciledChange, accepts, apply_change, reconcile, write_gone,
  write_declined, announce_gone, announce_declined, announce_moved, write_moved, reject_move,
  decide_move, consider_move, handle_found,
}
use field_service_management.Scheduling.Reconciliation.Acceptance.{admits, accepts-eq}
use field_service_management.Scheduling.Reconciliation.Reports.{Reconciles, cancelled_by}
use field_service_management.Scheduling.Reconciliation.Reports.Applied.{
  gone, declined, moved, rejected,
}

module _ (inputs : ℕ → ℕ → AvailabilityInputs) (now : ℕ) (change : InboundEventChange) where
  module _ (s : Store) (c : IsConsistent s)
      (valid : (r : TimeRange) → change.new_time_range ≡ some r → IsValidRange r)
      (row : AppointmentRow)
      (found : find row_id change.appointment_id s.appointments ≡ some row) where
    same_id : find row_id row.id s.appointments ≡ some row
    same_id =
        subst (λ k. find row_id k s.appointments ≡ some row)
          (sym (find-key row_id change.appointment_id s.appointments row found)) found

    same_range :
        (r : TimeRange)
        → (r.start == row.start_at && r.end == row.end_at) ≡ true
        → some r ≡ some (record { start = row.start_at; end = row.end_at })
    same_range r echo = ground arith

    -- The row at an accepted time violates no constraint.
    pub accepted_free :
        (r : TimeRange)
        → IsValidRange r
        → accepts inputs (entity row) r s ≡ ok true
        → excluded (appointment_to_row (as_rescheduled r now (entity row))) s.appointments ≡ false
    accepted_free r good answer =
        excluded_of_blocks (appointment_to_row (as_rescheduled r now (entity row))) s.appointments (
          no_blocks (admits (inputs row.technician_id r.start) r)
            (any (blocks row.technician_id r (some row.id)) s.appointments)
            (sym (accepts-eq inputs (entity row) r s good c.valid) ∙ answer))
      where
        no_blocks : (p q : Bool) → ◌≡◌ {A = Result Bool} (ok (p && not q)) (ok true) → q ≡ false
        no_blocks false q h = cc
        no_blocks true false h = refl
        no_blocks true true h = cc

    cancelled_row : Appointment
    cancelled_row = as_cancelled now (entity row)

    save_cancelled :
        (f : Appointment → Action (Option ReconciledChange))
        → Reconciles inputs now change s (f (cancelled_by now row) (updated cancelled_row s))
        → Reconciles inputs now change s ((Appointments.save cancelled_row >>= f) s)
    unfolding cancelled_row
    save_cancelled f good =
        save_allowed_post (Reconciles inputs now change s) cancelled_row f s same_id
          (excluded_cancelled (appointment_to_row cancelled_row) s.appointments refl) good

    remove-Reconciles :
        row.updated_at < change.updated_at
        → is_cancelled row.status ≡ false
        → change.cancelled ≡ true
        → Reconciles inputs now change s ((attempt (cancel now (entity row)) >>= write_gone) s)
    unfolding write_gone announce_gone drain_into cancelled_row
    remove-Reconciles newer active removed =
        given_post (Reconciles inputs now change s) (cancel now (entity row)) write_gone s
          (cancel_active now (entity row) active)
          (save_cancelled announce_gone
            (inr (row, found, newer, active, gone removed refl refl refl refl (omega arith))))

    decline-Reconciles :
        row.updated_at < change.updated_at
        → is_cancelled row.status ≡ false
        → change.cancelled ≡ false
        → change.customer_declined ≡ true
        → Reconciles inputs now change s ((attempt (cancel now (entity row)) >>= write_declined) s)
    unfolding write_declined announce_declined drain_into enqueue cancelled_row
    decline-Reconciles newer active kept refused =
        given_post (Reconciles inputs now change s) (cancel now (entity row)) write_declined s
          (cancel_active now (entity row) active)
          (save_cancelled announce_declined (
            inr
              (row, found, newer, active, declined kept refused refl refl refl refl (omega arith))))

    decide_move-Reconciles :
        (r : TimeRange) (accepted : Bool)
        → row.updated_at < change.updated_at
        → is_cancelled row.status ≡ false
        → change.cancelled ≡ false
        → change.customer_declined ≡ false
        → change.new_time_range ≡ some r
        → accepts inputs (entity row) r s ≡ ok accepted
        → Reconciles inputs now change s (decide_move now (entity row) r accepted s)
    unfolding decide_move write_moved announce_moved reject_move drain_into enqueue
    decide_move-Reconciles r false newer active kept stays asked answer = inr (
      row,
      found,
      newer,
      active,
      rejected r kept stays asked answer refl refl refl refl (omega arith),
    )
    decide_move-Reconciles r true newer active kept stays asked answer =
        given_post (Reconciles inputs now change s) (reschedule r now (entity row)) write_moved s
          (reschedule_active r now (entity row) active)
          (save_allowed_post (Reconciles inputs now change s) (as_rescheduled r now (entity row))
            announce_moved s same_id (accepted_free r (valid r asked) answer)
            (inr (
              row,
              found,
              newer,
              active,
              moved r kept stays asked answer refl refl refl refl (omega arith),
            )))

    consider_move-Reconciles :
        (asked : Option TimeRange)
        → change.new_time_range ≡ asked
        → row.updated_at < change.updated_at
        → is_cancelled row.status ≡ false
        → change.cancelled ≡ false
        → change.customer_declined ≡ false
        → Reconciles inputs now change s (consider_move inputs now (entity row) asked s)
    unfolding consider_move
    consider_move-Reconciles none e newer active kept stays =
        inl (inr (row, found, inr (inr (kept, stays, inl e))), refl, refl)
    consider_move-Reconciles (some r) e newer active kept stays =
        if_post (Reconciles inputs now change s) (r.start == row.start_at && r.end == row.end_at)
          (pure none) (reads (accepts inputs (entity row) r) >>= decide_move now (entity row) r) s
          (λ echo.
            inl
              (inr (row, found, inr (inr (kept, stays, inr (e ∙ same_range r echo)))), refl, refl))
          (λ _.
            given_post (Reconciles inputs now change s) (accepts inputs (entity row) r s)
              (decide_move now (entity row) r) s
              (accepts-eq inputs (entity row) r s (valid r e) c.valid)
              (decide_move-Reconciles r _ newer active kept stays e
                (accepts-eq inputs (entity row) r s (valid r e) c.valid)))

    apply_change-Reconciles :
        Reconciles inputs now change s (apply_change inputs now change (entity row) s)
    unfolding apply_change
    apply_change-Reconciles =
        if_post Q (leb change.updated_at row.updated_at) _ _ s
          (λ stale.
            inl (inr (row, found, inl (leb→le change.updated_at row.updated_at stale)), refl, refl))
          (λ newer.
            if_post Q (is_cancelled row.status) _ _ s
              (λ over. inl (inr (row, found, inr (inl over)), refl, refl))
              (λ active.
                if_post Q change.cancelled _ _ s
                  (λ removed. remove-Reconciles (ground arith) active removed)
                  (λ kept.
                    if_post Q change.customer_declined _ _ s
                      (λ refused. decline-Reconciles (ground arith) active kept refused)
                      (λ stays.
                        consider_move-Reconciles change.new_time_range refl (ground arith) active
                          kept stays))))
      where
        Q : Result (Option ReconciledChange) × Store → Type 0
        Q = Reconciles inputs now change s

  pub reconcile-Reconciles :
      (s : Store)
      → IsConsistent s
      → ((r : TimeRange) → change.new_time_range ≡ some r → IsValidRange r)
      → Reconciles inputs now change s (reconcile inputs now change s)
  unfolding reconcile handle_found
  reconcile-Reconciles s c valid =
      elim (Option-cases (find row_id change.appointment_id s.appointments)) [
        | inl absent ↦
            subst (λ out. Reconciles inputs now change s (handle_found inputs now change out))
              (sym (get_missing change.appointment_id s absent)) (inl (inl absent, refl, refl))
        | inr (row, found) ↦
            subst (λ out. Reconciles inputs now change s (handle_found inputs now change out))
              (sym (
                get_valid change.appointment_id s row found (
                  All-find row_id IsValidRow change.appointment_id s.appointments row found
                    c.valid)))
              (apply_change-Reconciles s c valid row found)
      ]
