-- ===== src/Scheduling/Dispatcher/Success.antt =====
-- A CREATE entry whose calendar call succeeds, in
-- backend/src/fsm/scheduling/application/calendar_projection_dispatcher.py.
use mathlib.Core.Path.{subst}
use field_service_management.Base.{
  ℕ, ◌+◌, ◌≡◌, refl, sym, ap, Bool, true, Option, some, [], ◌∷◌, ◌++◌,
}
use field_service_management.Base.Rows.{find, put, find-key, All-find}
use field_service_management.Scheduling.Outcome.{Result, ok}
use field_service_management.Scheduling.Appointment.{Appointment, assign_external_event}
use field_service_management.Scheduling.Context.{AppointmentContext}
use field_service_management.Scheduling.Store.{Store, AppointmentRow, OutboxRow, OutboxOperation}
use field_service_management.Scheduling.Repositories.{row_id, appointment_to_row, drain_into}
use field_service_management.Scheduling.Repositories.Appointments
use field_service_management.Scheduling.Repositories.Mapping.{IsValidRow, entity}
use field_service_management.Scheduling.Repositories.Effects.{get_valid, updated, save_allowed}
use field_service_management.Scheduling.Repositories.Consistency.{IsConsistent, excluded_same}
use field_service_management.Scheduling.Outbox.{
  entry_key, row_to_entry, first_pending, processed_row, mark_processed,
}
use field_service_management.Scheduling.World.{
  CalendarCall, CalendarPort, World, ◌>>=◌, on_store, or_raise, resolve,
}
use field_service_management.Scheduling.Dispatcher.{
  Dispatcher, build_context, finish, deliver_create, deliver, project, caught, close,
  process_claimed, process_one,
}
use field_service_management.Scheduling.Dispatcher.Steps.{after, step_returns, mark_processed_found}
use field_service_management.Scheduling.Dispatcher.Queue.{IsQueue, first_pending-find}
use field_service_management.Scheduling.Dispatcher.Projection.{claim_next_of_pending}

module _ (dispatcher : Dispatcher) (now : ℕ) (w : World) (row : OutboxRow) (arow : AppointmentRow)
    (calendar : CalendarPort) (context : AppointmentContext) (event_id : ℕ)
    (c : IsConsistent w.store) (queue : IsQueue w.store)
    (head : first_pending w.store.outbox ≡ some row)
    (creates : row.operation ≡ OutboxOperation.create)
    (found : find row_id row.appointment_id w.store.appointments ≡ some arow)
    (resolved : dispatcher.resolver arow.technician_id ≡ some calendar)
    (built : build_context dispatcher (entity arow) w ≡ (ok context, w))
    (answered : calendar.create_event w.calls (entity arow) context ≡ some event_id) where
  linked : Appointment
  linked = record (entity arow) { external_event_id = some event_id }

  -- The event id is in the row, the entry is processed, and the call is on record.
  abbrev done : World
  done = record w {
    store = record w.store {
      appointments =
          put row_id
            (appointment_to_row (record (entity arow) { external_event_id = some event_id }))
            w.store.appointments;
      audits = w.store.audits ++ [];
      outbox = put entry_key (processed_row now row) w.store.outbox;
      next_uuid = w.store.next_uuid + 0;
    };
    calls = w.calls ++ CalendarCall.created (entity arow) context ∷ [];
  }

  abbrev Done : Result (Option Bool) × World → Type 0
  Done out = out ≡ (ok (some true), done)

  own : find row_id arow.id w.store.appointments ≡ some arow
  own =
      subst (λ k. find row_id k w.store.appointments ≡ some arow)
        (sym (find-key row_id row.appointment_id w.store.appointments arow found)) found

  called : World
  called = record w { calls = w.calls ++ CalendarCall.created (entity arow) context ∷ [] }

  deliver_create-Done :
      Done (deliver_create now (row_to_entry row) (entity arow) calendar context w)
  unfolding deliver_create finish called linked drain_into assign_external_event
  deliver_create-Done =
      subst
        (λ answer. Done (
          after Done
            (λ (e : ℕ).
              on_store (Appointments.save (assign_external_event e (entity arow))) >>= λ _.
              finish now (row_to_entry row))
            (or_raise answer, called)))
        (sym answered)
        (step_returns Done
          (on_store (Appointments.save (assign_external_event event_id (entity arow))))
          (λ _. finish now (row_to_entry row)) called
          (ap (λ (out : Result Appointment × Store). (out.0, record called { store = out.1 }))
            (save_allowed linked w.store arow own (
              excluded_same (appointment_to_row linked) arow w.store.appointments own (λ q. refl)
                c.separate)))
          (step_returns Done (on_store (mark_processed row.id now)) (λ _ w'. (ok (some true), w'))
            (record called { store = updated linked w.store })
            (mark_processed_found row.id now (record called { store = updated linked w.store })
              (first_pending-find w.store.outbox row queue.distinct head))
            refl))

  deliver-Done :
      Done
        (deliver dispatcher now (row_to_entry row) (entity arow) OutboxOperation.create calendar w)
  unfolding deliver
  deliver-Done =
      step_returns Done (build_context dispatcher (entity arow))
        (deliver_create now (row_to_entry row) (entity arow) calendar) w built deliver_create-Done

  -- Over a consistent table and an outbox in order: when the oldest pending entry is a CREATE, its
  -- appointment is there, the context is built and the calendar answers with an event id,
  -- `_process_one` returns True, with the id written to the appointment, the entry processed and the
  -- one call made. It does so whatever the status of the appointment, a cancelled one too.
  pub process_one-creates : process_one dispatcher now w ≡ (
    ok (some true),
    record w {
      store = record w.store {
        appointments =
            put row_id
              (appointment_to_row (record (entity arow) { external_event_id = some event_id }))
              w.store.appointments;
        audits = w.store.audits ++ [];
        outbox = put entry_key (processed_row now row) w.store.outbox;
        next_uuid = w.store.next_uuid + 0;
      };
      calls = w.calls ++ CalendarCall.created (entity arow) context ∷ [];
    },
  )
  unfolding process_one process_claimed project caught close
  process_one-creates =
      subst (λ claim. Done (process_claimed dispatcher now claim w))
        (sym (claim_next_of_pending w.store row head))
        (subst (λ out. Done (close w.store (project dispatcher now (row_to_entry row) out)))
          (sym (
            ap (λ (out : Result Appointment × Store). (out.0, record w { store = out.1 }))
              (get_valid row.appointment_id w.store arow found (
                All-find row_id IsValidRow row.appointment_id w.store.appointments arow found
                  c.valid))))
          (settled _ tried))
    where
      tried : Done (
          (resolve (dispatcher.resolver arow.technician_id)
              >>= deliver dispatcher now (row_to_entry row) (entity arow) row.operation)
            w)
      tried =
          step_returns Done (resolve (dispatcher.resolver arow.technician_id))
            (deliver dispatcher now (row_to_entry row) (entity arow) row.operation) w
            (ap (λ answer. (or_raise answer, w)) resolved)
            (subst
              (λ operation.
                Done (deliver dispatcher now (row_to_entry row) (entity arow) operation calendar w))
              (sym creates) deliver-Done)

      settled :
          (out : Result (Option Bool) × World)
          → Done out
          → Done
              (close w.store (caught dispatcher (row_to_entry row) (some arow.technician_id) out))
      settled out h =
          subst
            (λ x.
              Done
                (close w.store (caught dispatcher (row_to_entry row) (some arow.technician_id) x)))
            (sym h) refl
