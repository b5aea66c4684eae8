-- ===== src/Scheduling/Dispatcher/Projection.antt =====
-- What `_process_one` of
-- backend/src/fsm/scheduling/application/calendar_projection_dispatcher.py does to the tables and to
-- the calendar.
use mathlib.Core.Path.{subst}
use field_service_management.Base.{
  arith, ℕ, ◌≡◌, refl, sym, ap, Bool, true, false, Option, none, some, [], ◌∷◌, ◌++◌, if◌then◌else◌,
  ◌⊎◌, inl, inr, Option-cases,
}
use field_service_management.Base.Rows.{find, put, All-find}
use field_service_management.Scheduling.Outcome.{Result, ok, err, Error}
use field_service_management.Scheduling.Appointment.{Appointment}
use field_service_management.Scheduling.Store.{Store, OutboxRow}
use field_service_management.Scheduling.Repositories.{row_id}
use field_service_management.Scheduling.Repositories.Appointments
use field_service_management.Scheduling.Repositories.Mapping.{IsValidRow, entity}
use field_service_management.Scheduling.Repositories.Effects.{get_valid, get_missing}
use field_service_management.Scheduling.Repositories.Consistency.{IsConsistent}
use field_service_management.Scheduling.Outbox.{
  entry_key, row_to_entry, first_pending, claim_next, failed_row,
}
use field_service_management.Scheduling.World.{World, on_store}
use field_service_management.Scheduling.Dispatcher.{
  Dispatcher, deliver, is_session_broken, alert, mark_in_session, handle, caught, project, close,
  process_claimed, process_one,
}
use field_service_management.Scheduling.Dispatcher.Steps.{
  step_returns, resolve_post, mark_failed_found,
}
use field_service_management.Scheduling.Dispatcher.Queue.{IsQueue}
use field_service_management.Scheduling.Dispatcher.Delivery.{
  Ends, Projects, Waits, Tries, waits_in, again, deliver-Tries,
}

module _ (dispatcher : Dispatcher) (now : ℕ) (row : OutboxRow) (w : World)
    (c : IsConsistent w.store) (queue : IsQueue w.store)
    (head : first_pending w.store.outbox ≡ some row) where
  handle-Projects :
      (technician_id : Option ℕ) (e : Error) (t : World)
      → is_session_broken e ≡ false
      → Waits dispatcher now row w c queue head t
      → Projects now row w (handle dispatcher (row_to_entry row) technician_id e t)
  unfolding handle
  handle-Projects technician_id e t usable (same, cons, le, calls) =
      step_returns (Projects now row w) (on_store (mark_in_session row.id e))
        (λ _ w'. (ok none, alert dispatcher technician_id e w')) t
        (rw usable
          (mark_failed_found row.id e t (waits_in dispatcher now row w c queue head t same)))
        (e, alerted technician_id)
    where
      after : World
      after = record t {
        store = record t.store { outbox = put entry_key (failed_row e row) t.store.outbox };
      }

      quiet : Ends row (failed_row e row) w after
      quiet = (
        ap (put entry_key (failed_row e row)) same,
        again dispatcher now row w c queue head t cons,
        le,
        calls,
      )

      alerted :
          (technician_id : Option ℕ)
          → Ends row (failed_row e row) w (alert dispatcher technician_id e after)
      alerted none = quiet
      alerted (some id) =
          elim dispatcher.has_error_callback
            as (λ b.
              Ends row (failed_row e row) w
                (if b then record after { alerts = after.alerts ++ (id, e) ∷ [] } else after)) [
                  | true ↦ quiet
                  | false ↦ quiet
                ]

  caught-Projects :
      (technician_id : Option ℕ) (out : Result (Option Bool) × World)
      → Tries dispatcher now row w c queue head out
      → Projects now row w (caught dispatcher (row_to_entry row) technician_id out)
  unfolding caught
  caught-Projects technician_id (ok answer, t) h = h
  caught-Projects technician_id (err e, t) (usable, waits) =
      handle-Projects technician_id e t usable waits

  project-Projects :
      Projects now row w (
        project dispatcher now
          (row_to_entry row)
          (on_store (Appointments.get row.appointment_id) w))
  unfolding project
  project-Projects = elim (Option-cases (find row_id row.appointment_id w.store.appointments)) [
    | inl absent ↦
        subst (λ out. Projects now row w (project dispatcher now (row_to_entry row) out))
          (sym (looked (get_missing row.appointment_id w.store absent)))
          (handle-Projects none Error.not_found w refl
            (refl, again dispatcher now row w c queue head w c, omega arith, inl refl))
    | inr (arow, found) ↦
        subst (λ out. Projects now row w (project dispatcher now (row_to_entry row) out))
          (sym (
            looked (
              get_valid row.appointment_id w.store arow found (
                All-find row_id IsValidRow row.appointment_id w.store.appointments arow found
                  c.valid))))
          (caught-Projects (some arow.technician_id) _ (
            resolve_post (Tries dispatcher now row w c queue head)
              (dispatcher.resolver arow.technician_id)
              (deliver dispatcher now (row_to_entry row) (entity arow) row.operation) w
              (λ calendar _.
                deliver-Tries dispatcher now row w c queue head arow found calendar row.operation
                  refl)
              (refl, (refl, again dispatcher now row w c queue head w c, omega arith, inl refl))))
  ]
    where
      looked :
          {r : Result Appointment}
          → Appointments.get row.appointment_id w.store ≡ (r, w.store)
          → on_store (Appointments.get row.appointment_id) w ≡ (r, w)
      looked h = ap (λ (out : Result Appointment × Store). (out.0, record w { store = out.1 })) h

claim_next_of_idle : (s : Store) → first_pending s.outbox ≡ none → claim_next s ≡ none
unfolding claim_next
claim_next_of_idle s h = rw (h, claim_next)

pub claim_next_of_pending :
    (s : Store) (row : OutboxRow)
    → first_pending s.outbox ≡ some row
    → claim_next s ≡ some (row_to_entry row)
unfolding claim_next
claim_next_of_pending s row h = rw (h, claim_next)

-- Over a consistent table and an outbox with ids that differ and attempts left for each pending
-- entry, `_process_one` never raises. With no pending entry it returns False and leaves the world
-- alone. Otherwise it takes the oldest one, and either marks it processed and returns True, or counts
-- one more failed attempt and returns None; the appointment table stays consistent, and at most one
-- calendar call is made, of the entry's operation and on its own appointment or event.
pub process_one-Projects :
    (dispatcher : Dispatcher) (now : ℕ) (w : World)
    → IsConsistent w.store
    → IsQueue w.store
    → ((first_pending w.store.outbox ≡ none)
        × (process_one dispatcher now w ≡ (ok (some false), w)))
      ⊎ ((row : OutboxRow) × (first_pending w.store.outbox ≡ some row)
          × Projects now row w (process_one dispatcher now w))
unfolding process_one process_claimed
process_one-Projects dispatcher now w c queue = elim (Option-cases (first_pending w.store.outbox)) [
  | inl idle ↦
      inl (
        idle,
        ap (λ claim. process_claimed dispatcher now claim w) (claim_next_of_idle w.store idle),
      )
  | inr (row, head) ↦ inr (
    row,
    head,
    subst (λ claim. Projects now row w (process_claimed dispatcher now claim w))
        (sym (claim_next_of_pending w.store row head))
        (close-Projects row _ (project-Projects dispatcher now row w c queue head)),
  )
]
  where
    close-Projects :
        (row : OutboxRow) (out : Result (Option Bool) × World)
        → Projects now row w out
        → Projects now row w (close w.store out)
    close-Projects row (ok answer, t) h = h
    close-Projects row (err e, t) h = absurd h
