-- ===== src/Scheduling/Dispatcher.antt =====
-- backend/src/fsm/scheduling/application/calendar_projection_dispatcher.py, with the rollback of
-- adapters/unit_of_work.py.
pub mod Steps
pub mod Queue
pub mod Delivery
pub mod Projection
pub mod Success
pub mod Drain
use field_service_management.Base.{
  ℕ, zero, suc, ◌+◌, Bool, true, false, Option, none, some, List, [], ◌∷◌, ◌++◌, map, if◌then◌else◌,
}
use field_service_management.Base.Text.{Text}
use field_service_management.Scheduling.Outcome.{Result, ok, err, Error}
use field_service_management.Scheduling.Appointment.{Appointment, assign_external_event}
use field_service_management.Scheduling.ServiceCall.{ServiceCall}
use field_service_management.Scheduling.Context.{AppointmentContext, empty_context}
use field_service_management.Scheduling.Store.{Store, Action, OutboxOperation}
use field_service_management.Scheduling.World.{
  CalendarCall, CalendarPort, World, Step, ◌>>=◌, on_store, or_raise, resolve, create_event,
  update_event, delete_event,
}
use field_service_management.Scheduling.Repositories.ServiceCalls
use field_service_management.Scheduling.Repositories.Appointments
use field_service_management.Scheduling.Repositories.Attachments.{list_for_service_call}
use field_service_management.Scheduling.Outbox.{
  OutboxEntry, claim_next, mark_processed, mark_failed,
}

-- What the constructor stores. Of the error callback only its presence matters: what it raises is
-- dropped. A resolver that answers `none` raises.
pub record Dispatcher : Type 0 where
  pub resolver : ℕ → Option CalendarPort
  pub has_error_callback : Bool
  pub customer_context_resolver : ℕ → Option AppointmentContext
  pub technician_context_resolver : ℕ → Option AppointmentContext
  pub photo_url : Option (ℕ → ℕ → Text)

-- A context resolver that is not given answers `AppointmentContext()`.
abbrev pub or_empty : Option (ℕ → Option AppointmentContext) → ℕ → Option AppointmentContext
or_empty none user_id = some empty_context
or_empty (some resolver) user_id = resolver user_id

-- `CalendarProjectionDispatcher(...)`: exactly one of a calendar and a resolver is given.
pub make_dispatcher :
    Option CalendarPort
    → Option (ℕ → Option CalendarPort)
    → Bool
    → Option (ℕ → Option AppointmentContext)
    → Option (ℕ → Option AppointmentContext)
    → Option (ℕ → ℕ → Text)
    → Result Dispatcher
make_dispatcher none none callback customers technicians photo_url = err Error.value_error
make_dispatcher (some calendar) (some resolver) callback customers technicians photo_url =
    err Error.value_error
make_dispatcher (some calendar) none callback customers technicians photo_url = ok (record {
  resolver = λ _. some calendar;
  has_error_callback = callback;
  customer_context_resolver = or_empty customers;
  technician_context_resolver = or_empty technicians;
  photo_url = photo_url;
})
make_dispatcher none (some resolver) callback customers technicians photo_url = ok (record {
  resolver = resolver;
  has_error_callback = callback;
  customer_context_resolver = or_empty customers;
  technician_context_resolver = or_empty technicians;
  photo_url = photo_url;
})

-- The links of `_build_context`.
unfoldable pub photo_links : Dispatcher → ℕ → Store → List (Text × Text)
photo_links dispatcher service_call_id s = elim dispatcher.photo_url [
  | none ↦ []
  | some url ↦
      map (λ attachment. (attachment.filename, url service_call_id attachment.id))
        (list_for_service_call service_call_id s)
]

-- `dataclasses.replace(...)` of `_build_context`.
unfoldable pub merge_context :
    AppointmentContext → ServiceCall → AppointmentContext → List (Text × Text) → AppointmentContext
merge_context customer service_call technician links = record customer {
  problem_description = some service_call.description;
  problem_headline = service_call.headline;
  triage_summary = service_call.triage_summary;
  technician_name = technician.technician_name;
  technician_phone = technician.technician_phone;
  photo_links = links;
}

unfoldable pub context_with :
    Dispatcher
    → Appointment
    → ServiceCall
    → AppointmentContext
    → AppointmentContext
    → Step AppointmentContext
unfolding photo_links merge_context
context_with dispatcher appt service_call technician customer w = (
  ok (
      merge_context customer service_call technician
        (photo_links dispatcher appt.service_call_id w.store)),
  w,
)

unfoldable pub context_of :
    Dispatcher → Appointment → ServiceCall → AppointmentContext → Step AppointmentContext
unfolding context_with
context_of dispatcher appt service_call technician =
    resolve (dispatcher.customer_context_resolver appt.customer_id)
    >>= context_with dispatcher appt service_call technician

unfoldable pub context_found : Dispatcher → Appointment → ServiceCall → Step AppointmentContext
unfolding context_of
context_found dispatcher appt service_call =
    resolve (dispatcher.technician_context_resolver appt.technician_id)
    >>= context_of dispatcher appt service_call

-- The customer's resolver runs last.
unfoldable pub build_context : Dispatcher → Appointment → Step AppointmentContext
unfolding context_found
build_context dispatcher appt =
    on_store (ServiceCalls.get appt.service_call_id) >>= context_found dispatcher appt

-- The end of a delivery: `mark_processed`, and `return True`.
pub finish : ℕ → OutboxEntry → Step (Option Bool)
finish now entry = on_store (mark_processed entry.id now) >>= λ _. λ w. (ok (some true), w)

pub deliver_create :
    ℕ → OutboxEntry → Appointment → CalendarPort → AppointmentContext → Step (Option Bool)
unfolding finish
deliver_create now entry appt calendar context = create_event calendar appt context >>= λ event_id.
    on_store (Appointments.save (assign_external_event event_id appt)) >>= λ _. finish now entry

-- `mark_failed` of an UPDATE that came before its CREATE, and `return None`.
pub skip_update : OutboxEntry → Step (Option Bool)
skip_update entry =
    on_store (mark_failed entry.id Error.create_not_processed) >>= λ _. λ w. (ok none, w)

pub deliver_update :
    ℕ → OutboxEntry → Appointment → CalendarPort → ℕ → AppointmentContext → Step (Option Bool)
unfolding finish
deliver_update now entry appt calendar event_id context =
    update_event calendar event_id appt context >>= λ _. finish now entry

-- A DELETE of an event that was never created makes no call.
pub delete_known : ℕ → OutboxEntry → CalendarPort → Option ℕ → Step (Option Bool)
unfolding finish
delete_known now entry calendar none = finish now entry
delete_known now entry calendar (some event_id) =
    delete_event calendar event_id >>= λ _. finish now entry

pub deliver_known :
    Dispatcher → ℕ → OutboxEntry → Appointment → CalendarPort → Option ℕ → Step (Option Bool)
unfolding skip_update deliver_update
deliver_known dispatcher now entry appt calendar none = skip_update entry
deliver_known dispatcher now entry appt calendar (some event_id) =
    build_context dispatcher appt >>= deliver_update now entry appt calendar event_id

-- The branches on `entry.operation`.
pub deliver :
    Dispatcher → ℕ → OutboxEntry → Appointment → OutboxOperation → CalendarPort → Step (Option Bool)
unfolding build_context deliver_create deliver_known delete_known
deliver dispatcher now entry appt OutboxOperation.create calendar =
    build_context dispatcher appt >>= deliver_create now entry appt calendar
deliver dispatcher now entry appt OutboxOperation.update calendar =
    deliver_known dispatcher now entry appt calendar appt.external_event_id
deliver dispatcher now entry appt OutboxOperation.delete calendar =
    delete_known now entry calendar entry.external_event_id

-- The session takes no statement after a flush that failed, until it rolls back.
abbrev pub is_session_broken : Error → Bool
is_session_broken Error.integrity_error = true
is_session_broken e = false

abbrev pub alert : Dispatcher → Option ℕ → Error → World → World
alert dispatcher none e w = w
alert dispatcher (some technician_id) e w =
    if dispatcher.has_error_callback
    then record w { alerts = w.alerts ++ (technician_id, e) ∷ [] }
    else w

-- `mark_failed` of the handler.
abbrev pub mark_in_session : ℕ → Error → Action (Unit {0})
mark_in_session entry_id e s =
    if is_session_broken e then (err Error.pending_rollback, s) else mark_failed entry_id e s

-- `except Exception as exc`.
pub handle : Dispatcher → OutboxEntry → Option ℕ → Error → Step (Option Bool)
handle dispatcher entry technician_id e = on_store (mark_in_session entry.id e) >>= λ _.
    λ w. (ok none, alert dispatcher technician_id e w)

-- The body of the `try`, and its handler.
pub caught :
    Dispatcher
    → OutboxEntry
    → Option ℕ
    → Result (Option Bool) × World
    → Result (Option Bool) × World
unfolding handle
caught dispatcher entry technician_id (ok answer, w) = (ok answer, w)
caught dispatcher entry technician_id (err e, w) = handle dispatcher entry technician_id e w

pub project :
    Dispatcher → ℕ → OutboxEntry → Result Appointment × World → Result (Option Bool) × World
unfolding deliver caught
project dispatcher now entry (err e, w) = handle dispatcher entry none e w
project dispatcher now entry (ok appt, w) = caught dispatcher entry (some appt.technician_id) (
    (resolve (dispatcher.resolver appt.technician_id)
        >>= deliver dispatcher now entry appt entry.operation)
      w)

-- The end of the `with` block: the tables go back to what was committed when the body raises.
pub close : Store → Result (Option Bool) × World → Result (Option Bool) × World
close before (ok answer, w) = (ok answer, w)
close before (err e, w) = (err e, record w { store = before })

-- The body of the `with` block, once an entry is claimed or none is there.
pub process_claimed : Dispatcher → ℕ → Option OutboxEntry → Step (Option Bool)
unfolding project close
process_claimed dispatcher now none w = (ok (some false), w)
process_claimed dispatcher now (some entry) w =
    close w.store
      (project dispatcher now entry (on_store (Appointments.get entry.appointment_id) w))

-- `_process_one`: True, False for an empty queue, or None.
pub process_one : Dispatcher → ℕ → Step (Option Bool)
unfolding process_claimed
process_one dispatcher now w = process_claimed dispatcher now (claim_next w.store) w

-- The body of the loop after `_process_one`, with the rounds that are left.
abbrev pub count_claim : (ℕ → Step ℕ) → ℕ → Option Bool → Step ℕ
count_claim again processed none = again processed
count_claim again processed (some true) = again (processed + 1)
count_claim again processed (some false) = λ w. (ok processed, w)

-- `run_once`, with the number processed so far; `nows` are the readings of the clock.
pub run_loop : Dispatcher → (ℕ → ℕ) → ℕ → ℕ → Step ℕ
unfolding process_one
run_loop dispatcher nows zero processed = λ w. (ok processed, w)
run_loop dispatcher nows (suc limit) processed =
    process_one dispatcher (nows limit)
    >>= count_claim (λ count. run_loop dispatcher nows limit count) processed

pub run_once : Dispatcher → (ℕ → ℕ) → ℕ → Step ℕ
unfolding run_loop
run_once dispatcher nows limit = run_loop dispatcher nows limit 0
