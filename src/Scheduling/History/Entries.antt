-- ===== src/Scheduling/History/Entries.antt =====
-- What each use case of backend/src/fsm/scheduling/application leaves of the outbox: ids that differ
-- and attempts left for every pending entry.
use mathlib.Core.Path.{subst}
use field_service_management.Base.{
  ap, suc, Bool-cases, is_some, refl, ℕ, ◌+◌, ◌≤◌, ◌<◌, ◌≡◌, refl, sym, Option, none, [], ◌∷◌, ◌++◌,
  inl, inr, arith,
}
use field_service_management.Scheduling.Outcome.{Result, ok, err}
use field_service_management.Scheduling.TimeRange.{TimeRange}
use field_service_management.Assist.Summary.{TriageSummary}
use field_service_management.Base.Text.{Text}
use field_service_management.Scheduling.Policy.{AvailabilityInputs}
use field_service_management.Scheduling.Appointment.{Appointment, AuditAction}
use field_service_management.Scheduling.Store.{AppointmentRow, Store, Notice, OutboxOperation}
use field_service_management.Base.Rows.{find}
use field_service_management.Scheduling.Repositories.{call_id}
use field_service_management.Scheduling.Repositories.ServiceCalls
use field_service_management.Scheduling.ServiceCall.{ServiceCall, ServiceCallStatus}
use field_service_management.Scheduling.Store.{pure}
use field_service_management.Scheduling.Store.Post.{bind_post}
use field_service_management.Scheduling.Opening.{open_service_call}
use field_service_management.Scheduling.Booking.{AppointmentService}
use field_service_management.Scheduling.Booking.Outcomes.{
  Writes, Cancels, Notes, Reschedules, entry,
}
use field_service_management.Scheduling.Booking.Booked.{Books}
use field_service_management.Scheduling.Reconciliation.{InboundEventChange, ReconciledChange}
use field_service_management.Scheduling.Reconciliation.Reports.{Applied, Reconciles}
use field_service_management.Scheduling.Reconciliation.Reports.Applied.{
  gone, declined, moved, rejected,
}
use field_service_management.Scheduling.Dispatcher.Queue.{IsQueue, append-IsQueue, same-IsQueue}

-- One entry more, with an id that was drawn on the way.
entered :
    (s t : Store) (id appointment_id : ℕ) (operation : OutboxOperation) (event : Option ℕ)
    → s.next_uuid ≤ id
    → id < t.next_uuid
    → t.outbox ≡ s.outbox ++ entry id operation appointment_id event ∷ []
    → IsQueue s
    → IsQueue t
entered s t id appointment_id operation event new drawn e queue =
    append-IsQueue (entry id operation appointment_id event) s t (λ _. omega arith) new drawn e
      (omega arith) queue

Writes-IsQueue :
    (s t : Store) (a : Appointment) (action : AuditAction) (now : ℕ) (operation : OutboxOperation)
    (event : Option ℕ) (notice : Notice)
    → Writes s a action now operation event notice t
    → IsQueue s
    → IsQueue t
Writes-IsQueue s t a action now operation event notice w queue =
    entered s t (s.next_uuid + 1) a.id operation event (omega arith) (omega (arith, w.5)) w.3 queue

pub Books-IsQueue :
    (service : AppointmentService) (now call technician customer : ℕ) (r : TimeRange) (s : Store)
    (out : Result Appointment × Store) (a : Appointment)
    → IsQueue s
    → Books service now call technician customer r s out
    → out.0 ≡ ok a
    → IsQueue out.1
Books-IsQueue service now call technician customer r s (err e, t) a queue h refused = cc
Books-IsQueue service now call technician customer r s (ok b, t) a queue
      (sc, found, opened, checked, e, calls, rows, audits, outbox, notices, count) returned =
    entered s t _ b.id OutboxOperation.create none (omega arith) (omega (arith, count)) outbox queue

pub Reschedules-IsQueue :
    (now id : ℕ) (r : TimeRange) (s : Store) (out : Result Appointment × Store) (a : Appointment)
    → IsQueue s
    → Reschedules now id r s out
    → out.0 ≡ ok a
    → IsQueue out.1
Reschedules-IsQueue now id r s (err e, t) a queue h refused = cc
Reschedules-IsQueue now id r s (ok b, t) a queue (row, found, active, guard, e, w) returned =
    Writes-IsQueue s t b _ now _ _ _ w queue

pub Cancels-IsQueue :
    (now id : ℕ) (s : Store) (out : Result Appointment × Store) (a : Appointment)
    → IsQueue s
    → Cancels now id s out
    → out.0 ≡ ok a
    → IsQueue out.1
Cancels-IsQueue now id s (err e, t) a queue h refused = cc
Cancels-IsQueue now id s (ok b, t) a queue (row, found, active, e, w) returned =
    Writes-IsQueue s t b _ now _ _ _ w queue

pub Notes-IsQueue :
    (now id : ℕ) (text : Text) (s : Store) (out : Result Appointment × Store) (a : Appointment)
    → IsQueue s
    → Notes now id text s out
    → out.0 ≡ ok a
    → IsQueue out.1
Notes-IsQueue now id text s (err e, t) a queue h refused = cc
Notes-IsQueue now id text s (ok b, t) a queue (row, found, active, e, w) returned =
    Writes-IsQueue s t b _ now _ _ _ w queue

Applied-IsQueue :
    (inputs : ℕ → ℕ → AvailabilityInputs) (now : ℕ) (change : InboundEventChange) (s : Store)
    (row : AppointmentRow) (told : Option ReconciledChange) (t : Store)
    → IsQueue s
    → Applied inputs now change s row told t
    → IsQueue t
Applied-IsQueue inputs now change s row told t queue (gone _ _ _ outbox _ count) =
    same-IsQueue s t outbox (omega (arith, count)) queue
Applied-IsQueue inputs now change s row told t queue (declined _ _ _ _ outbox _ count) =
    entered s t _ row.id OutboxOperation.delete row.external_event_id (omega arith)
      (omega (arith, count)) outbox queue
Applied-IsQueue inputs now change s row told t queue (moved _ _ _ _ _ _ _ outbox _ count) =
    same-IsQueue s t outbox (omega (arith, count)) queue
Applied-IsQueue inputs now change s row told t queue (rejected _ _ _ _ _ _ _ outbox _ count) =
    entered s t _ row.id OutboxOperation.update none (omega arith) (omega (arith, count)) outbox
      queue

pub Reconciles-IsQueue :
    (inputs : ℕ → ℕ → AvailabilityInputs) (now : ℕ) (change : InboundEventChange) (s : Store)
    (out : Result (Option ReconciledChange) × Store)
    → IsQueue s
    → Reconciles inputs now change s out
    → IsQueue out.1
Reconciles-IsQueue inputs now change s (ok told, t) queue (inl (why, nothing, same)) =
    subst IsQueue (sym same) queue
Reconciles-IsQueue inputs now change s (ok told, t) queue (inr (row, found, newer, active, h)) =
    Applied-IsQueue inputs now change s row told t queue h
Reconciles-IsQueue inputs now change s (err e, t) queue h = absurd h

-- The tables that hold the visits and their projection stay as they were.
abbrev pub Keeps : Store → Store → Type 0
Keeps s t = (t.appointments ≡ s.appointments) × (t.outbox ≡ s.outbox) × (s.next_uuid ≤ t.next_uuid)

add_call-Keeps : (sc : ServiceCall) (s : Store) → Keeps s (ServiceCalls.add sc s).1
unfolding ServiceCalls.add
add_call-Keeps sc s = elim (Bool-cases (is_some (find call_id sc.id s.service_calls))) [
  | inl taken ↦ rw (taken, ServiceCalls.add) (refl, refl, omega arith)
  | inr free ↦ rw (free, ServiceCalls.add) (refl, refl, omega arith)
]

pub opens-Keeps :
    (now customer : ℕ) (description : Text) (triage_summary : Option TriageSummary)
    (headline : Option Text) (s : Store)
    → Keeps s (open_service_call now customer description triage_summary headline s).1
unfolding open_service_call
opens-Keeps now customer description triage_summary headline s =
    bind_post (λ out. Keeps s out.1) (ServiceCalls.add sc) (λ _. pure sc) drawn
      (λ _ t h. same t (ap (λ (out : Result (Unit {0}) × Store). out.1) h))
      (λ _ t h. same t (ap (λ (out : Result (Unit {0}) × Store). out.1) h))
  where
    sc : ServiceCall
    sc = record {
      id = s.next_uuid;
      customer_id = customer;
      description = description;
      status = ServiceCallStatus.open_call;
      created_at = now;
      triage_summary = triage_summary;
      headline = headline;
    }

    drawn : Store
    drawn = record s { next_uuid = suc s.next_uuid }

    same : (t : Store) → (ServiceCalls.add sc drawn).1 ≡ t → Keeps s t
    same t h =
        let (rows, outbox, le) = subst (λ x. Keeps drawn x) h (add_call-Keeps sc drawn) in
        (rows, outbox, omega (arith, le))
