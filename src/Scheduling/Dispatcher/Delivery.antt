-- ===== src/Scheduling/Dispatcher/Delivery.antt =====
-- The branches on the operation in `_process_one` of
-- backend/src/fsm/scheduling/application/calendar_projection_dispatcher.py, by how they may end.
use mathlib.Core.Path.{subst}
use field_service_management.Base.{
  ◌≤◌, ℕ, ◌<◌, ◌≡◌, refl, sym, ap, Bool, true, false, Option, none, some, List, [], ◌∷◌, ◌++◌, ◌⊎◌,
  inl, inr, arith,
}
use field_service_management.Base.Rows.{find, put, find-key, All-find}
use field_service_management.Scheduling.Outcome.{Result, ok, err, Error}
use field_service_management.Scheduling.Appointment.{Appointment, assign_external_event}
use field_service_management.Scheduling.Context.{AppointmentContext}
use field_service_management.Scheduling.Store.{Store, AppointmentRow, OutboxRow, OutboxOperation}
use field_service_management.Scheduling.Repositories.{
  row_id, appointment_to_row, drain_into, excluded,
}
use field_service_management.Scheduling.Repositories.Appointments
use field_service_management.Scheduling.Repositories.Mapping.{IsValidRow, entity}
use field_service_management.Scheduling.Repositories.Effects.{updated, save_allowed}
use field_service_management.Scheduling.Repositories.Consistency.{
  IsConsistent, put-IsConsistent, excluded_same,
}
use field_service_management.Scheduling.Outbox.{
  entry_key, row_to_entry, first_pending, mark_processed, mark_failed, processed_row, failed_row,
}
use field_service_management.Scheduling.World.{CalendarCall, CalendarPort, World, ◌>>=◌, on_store}
use field_service_management.Scheduling.Dispatcher.{
  Dispatcher, finish, deliver_create, skip_update, deliver_update, delete_known, deliver_known,
  deliver, is_session_broken,
}
use field_service_management.Scheduling.Dispatcher.Steps.{
  step_returns, answer_post, mark_processed_found, mark_failed_found, build_context_post,
}
use field_service_management.Scheduling.Dispatcher.Queue.{IsQueue, first_pending-find}

-- A call that the entry may make: of its own operation, on its own appointment or event.
abbrev pub Fits : OutboxRow → CalendarCall → Type 0
Fits row (CalendarCall.created a context) =
    (row.operation ≡ OutboxOperation.create) × (a.id ≡ row.appointment_id)
Fits row (CalendarCall.updated event_id a context) =
    (row.operation ≡ OutboxOperation.update)
    × (a.id ≡ row.appointment_id)
    × (a.external_event_id ≡ some event_id)
Fits row (CalendarCall.deleted event_id) =
    (row.operation ≡ OutboxOperation.delete) × (row.external_event_id ≡ some event_id)

-- At most one call was made, and it fits the entry.
abbrev pub CallsOnce : OutboxRow → World → World → Type 0
CallsOnce row w t =
    (t.calls ≡ w.calls) ⊎ ((c : CalendarCall) × (t.calls ≡ w.calls ++ c ∷ []) × Fits row c)

abbrev pub Ends : OutboxRow → OutboxRow → World → World → Type 0
Ends row after w t =
    (t.store.outbox ≡ put entry_key after w.store.outbox)
    × IsConsistent t.store
    × (w.store.next_uuid ≤ t.store.next_uuid)
    × CallsOnce row w t

-- How an entry is left: processed, or failed once more.
abbrev pub Projects : ℕ → OutboxRow → World → Result (Option Bool) × World → Type 0
Projects now row w (ok (some true), t) = Ends row (processed_row now row) w t
Projects now row w (ok (some false), t) = ⊥
Projects now row w (ok none, t) = (e : Error) × Ends row (failed_row e row) w t
Projects now row w (err e, t) = ⊥

module _ (dispatcher : Dispatcher) (now : ℕ) (row : OutboxRow) (w : World)
    (c : IsConsistent w.store) (queue : IsQueue w.store)
    (head : first_pending w.store.outbox ≡ some row) where
  -- The entry is not marked and nothing else is lost.
  abbrev pub Waits : World → Type 0
  Waits t =
      (t.store.outbox ≡ w.store.outbox)
      × IsConsistent t.store
      × (w.store.next_uuid ≤ t.store.next_uuid)
      × CallsOnce row w t

  -- How the body of the `try` may end: an error leaves the session usable.
  abbrev pub Tries : Result (Option Bool) × World → Type 0
  Tries (ok answer, t) = Projects now row w (ok answer, t)
  Tries (err e, t) = (is_session_broken e ≡ false) × Waits t

  -- Tables with the same appointments and ids to draw are as consistent.
  pub again :
      (t : World) {outbox : List OutboxRow}
      → IsConsistent t.store
      → IsConsistent (record t.store { outbox = outbox })
  again t h = record { valid = h.valid; separate = h.separate; fresh = h.fresh }

  pub waiting : find entry_key row.id w.store.outbox ≡ some row
  waiting = first_pending-find w.store.outbox row queue.distinct head

  pub waits_in :
      (t : World)
      → t.store.outbox ≡ w.store.outbox
      → find entry_key row.id t.store.outbox ≡ some row
  waits_in t same = rw same waiting

  finish-Tries : (t : World) → Waits t → Tries (finish now (row_to_entry row) t)
  unfolding finish
  finish-Tries t (same, cons, le, calls) =
      step_returns Tries (on_store (mark_processed row.id now)) (λ _ w'. (ok (some true), w')) t
        (mark_processed_found row.id now t (waits_in t same))
        (ap (put entry_key (processed_row now row)) same, again t cons, le, calls)

  skip_update-Tries : Tries (skip_update (row_to_entry row) w)
  unfolding skip_update
  skip_update-Tries =
      step_returns Tries (on_store (mark_failed row.id Error.create_not_processed))
        (λ _ w'. (ok none, w')) w (mark_failed_found row.id Error.create_not_processed w waiting)
        (Error.create_not_processed, (refl, again w c, omega arith, inl refl))

  -- The appointment, once its row is found.
  module _ (arow : AppointmentRow)
      (found : find row_id row.appointment_id w.store.appointments ≡ some arow) where
    own : arow.id ≡ row.appointment_id
    own = find-key row_id row.appointment_id w.store.appointments arow found

    found_own : find row_id arow.id w.store.appointments ≡ some arow
    found_own = subst (λ k. find row_id k w.store.appointments ≡ some arow) (sym own) found

    -- The event id is written to the row, and nothing else of it changes.
    linked : ℕ → Appointment
    linked event_id = record (entity arow) { external_event_id = some event_id }

    free :
        (event_id : ℕ)
        → excluded (appointment_to_row (linked event_id)) w.store.appointments ≡ false
    unfolding linked
    free event_id =
        excluded_same (appointment_to_row (linked event_id)) arow w.store.appointments found_own
          (λ q. refl) c.separate

    linked-IsConsistent : (event_id : ℕ) → IsConsistent (updated (linked event_id) w.store)
    unfolding linked drain_into
    linked-IsConsistent event_id =
        put-IsConsistent (appointment_to_row (linked event_id)) w.store
          (updated (linked event_id) w.store)
          (All-find row_id IsValidRow row.appointment_id w.store.appointments arow found c.valid)
          (All-find row_id (λ x. x.id < w.store.next_uuid) row.appointment_id w.store.appointments
            arow found c.fresh)
          (free event_id) refl (omega arith) c

    deliver_create-Tries :
        (calendar : CalendarPort) (context : AppointmentContext)
        → row.operation ≡ OutboxOperation.create
        → Tries (deliver_create now (row_to_entry row) (entity arow) calendar context w)
    unfolding deliver_create linked drain_into assign_external_event
    deliver_create-Tries calendar context creates =
        answer_post Tries (calendar.create_event w.calls (entity arow) context)
          (λ event_id.
            on_store (Appointments.save (assign_external_event event_id (entity arow))) >>= λ _.
            finish now (row_to_entry row))
          called
          (λ event_id _.
            step_returns Tries
              (on_store (Appointments.save (assign_external_event event_id (entity arow))))
              (λ _. finish now (row_to_entry row)) called
              (ap (λ (out : Result Appointment × Store). (out.0, record called { store = out.1 }))
                (save_allowed (linked event_id) w.store arow found_own (free event_id)))
              (finish-Tries (record called { store = updated (linked event_id) w.store })
                (refl, linked-IsConsistent event_id, omega arith, once)))
          (refl, (refl, again w c, omega arith, once))
      where
        called : World
        called = record w { calls = w.calls ++ CalendarCall.created (entity arow) context ∷ [] }

        once : CallsOnce row w called
        once = inr (CalendarCall.created (entity arow) context, refl, (creates, own))

    deliver_update-Tries :
        (calendar : CalendarPort) (event_id : ℕ) (context : AppointmentContext)
        → row.operation ≡ OutboxOperation.update
        → arow.external_event_id ≡ some event_id
        → Tries (deliver_update now (row_to_entry row) (entity arow) calendar event_id context w)
    unfolding deliver_update
    deliver_update-Tries calendar event_id context updates known =
        answer_post Tries (calendar.update_event w.calls event_id (entity arow) context)
          (λ _. finish now (row_to_entry row)) called
          (λ _ _. finish-Tries called (refl, again w c, omega arith, once))
          (refl, (refl, again w c, omega arith, once))
      where
        called : World
        called = record w {
          calls = w.calls ++ CalendarCall.updated event_id (entity arow) context ∷ [];
        }

        once : CallsOnce row w called
        once =
            inr (CalendarCall.updated event_id (entity arow) context, refl, (updates, own, known))

    deliver_known-Tries :
        (calendar : CalendarPort) (known : Option ℕ)
        → row.operation ≡ OutboxOperation.update
        → arow.external_event_id ≡ known
        → Tries (deliver_known dispatcher now (row_to_entry row) (entity arow) calendar known w)
    unfolding deliver_known
    deliver_known-Tries calendar none updates e = skip_update-Tries
    deliver_known-Tries calendar (some event_id) updates e =
        build_context_post Tries dispatcher (entity arow)
          (deliver_update now (row_to_entry row) (entity arow) calendar event_id) w
          (λ context. deliver_update-Tries calendar event_id context updates e)
          (λ x usable. (usable, (refl, again w c, omega arith, inl refl)))

    delete_known-Tries :
        (calendar : CalendarPort) (event : Option ℕ)
        → row.operation ≡ OutboxOperation.delete
        → row.external_event_id ≡ event
        → Tries (delete_known now (row_to_entry row) calendar event w)
    unfolding delete_known
    delete_known-Tries calendar none deletes e =
        finish-Tries w (refl, again w c, omega arith, inl refl)
    delete_known-Tries calendar (some event_id) deletes e =
        (answer_post Tries (calendar.delete_event w.calls event_id)
          (λ _. finish now (row_to_entry row)) called
          (λ _ _. finish-Tries called (refl, again w c, omega arith, once))
          (refl, (refl, again w c, omega arith, once)))
      where
        called : World
        called = record w { calls = w.calls ++ CalendarCall.deleted event_id ∷ [] }

        once : CallsOnce row w called
        once = inr (CalendarCall.deleted event_id, refl, (deletes, e))

    pub deliver-Tries :
        (calendar : CalendarPort) (operation : OutboxOperation)
        → row.operation ≡ operation
        → Tries (deliver dispatcher now (row_to_entry row) (entity arow) operation calendar w)
    unfolding deliver
    deliver-Tries calendar OutboxOperation.create e =
        build_context_post Tries dispatcher (entity arow)
          (deliver_create now (row_to_entry row) (entity arow) calendar) w
          (λ context. deliver_create-Tries calendar context e)
          (λ x usable. (usable, (refl, again w c, omega arith, inl refl)))
    deliver-Tries calendar OutboxOperation.update e =
        deliver_known-Tries calendar arow.external_event_id e refl
    deliver-Tries calendar OutboxOperation.delete e =
        delete_known-Tries calendar row.external_event_id e refl
