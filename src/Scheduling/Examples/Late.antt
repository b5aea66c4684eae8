-- ===== src/Scheduling/Examples/Late.antt =====
-- A visit that is cancelled before its CREATE entry is projected, in
-- backend/src/fsm/scheduling/application/calendar_projection_dispatcher.py.
use field_service_management.Base.{◌++◌, ◌+◌, ◌≡◌, refl, true, none, some, [], ◌∷◌, arith}
use field_service_management.Base.Rows.{put}
use field_service_management.Scheduling.Outcome.{ok}
use field_service_management.Scheduling.Appointment.{AppointmentStatus}
use field_service_management.Scheduling.Context.{AppointmentContext, empty_context}
use field_service_management.Scheduling.Store.{AppointmentRow, OutboxOperation}
use field_service_management.Scheduling.Repositories.{row_id, appointment_to_row}
use field_service_management.Scheduling.Repositories.ServiceCalls
use field_service_management.Scheduling.Repositories.Mapping.{entity}
use field_service_management.Scheduling.Outbox.{entry_key, processed_row}
use field_service_management.Scheduling.World.{CalendarCall, World}
use field_service_management.Scheduling.Dispatcher.{
  build_context, context_found, context_of, context_with, photo_links, merge_context, process_one,
}
use field_service_management.Scheduling.Dispatcher.Success.{process_one-creates}
use field_service_management.Scheduling.Dispatcher.Drain.{InOrder}
use field_service_management.Scheduling.Samples.{call, row_at, store, queued, calendar, dispatcher}

-- The call of the visits, and a visit that was cancelled before its CREATE entry was projected.
abbrev late_row : AppointmentRow
late_row = record (row_at 2 9 10 AppointmentStatus.cancelled) { external_event_id = none }

abbrev late_world : World
late_world = record {
  store = record store {
    service_calls = record call { id = 9 } ∷ [];
    appointments = late_row ∷ [];
    outbox =
        queued 6 OutboxOperation.create 2 none 0 ∷ queued 7 OutboxOperation.delete 2 none 0 ∷ [];
  };
  calls = [];
  alerts = [];
}

late_world-InOrder : InOrder late_world.store
late_world-InOrder = (
  record { valid = (omega arith, tt); separate = (tt, tt); fresh = (omega arith, tt) },
  record {
    distinct = ((refl, tt), (tt, tt));
    bounded = ((λ _. omega arith), ((λ _. omega arith), tt));
    drawn = (omega arith, (omega arith, tt));
  },
)

abbrev late_context : AppointmentContext
late_context = record empty_context { problem_description = some (65 ∷ []) }

late_world-built :
    build_context dispatcher (entity late_row) late_world ≡ (ok late_context, late_world)
unfolding build_context context_found context_of context_with photo_links merge_context
    ServiceCalls.get
late_world-built = refl

process_one-creates_example : process_one dispatcher 30 late_world ≡ (
  ok (some true),
  record late_world {
    store = record late_world.store {
      appointments =
          put row_id
            (appointment_to_row (record (entity late_row) { external_event_id = some 50 }))
            late_world.store.appointments;
      audits = late_world.store.audits ++ [];
      outbox =
          put entry_key
            (processed_row 30 (queued 6 OutboxOperation.create 2 none 0))
            late_world.store.outbox;
      next_uuid = late_world.store.next_uuid + 0;
    };
    calls = late_world.calls ++ CalendarCall.created (entity late_row) late_context ∷ [];
  },
)
process_one-creates_example =
    process_one-creates dispatcher 30 late_world (queued 6 OutboxOperation.create 2 none 0) late_row
      calendar late_context 50 late_world-InOrder.0 late_world-InOrder.1 refl refl refl refl
      late_world-built refl
