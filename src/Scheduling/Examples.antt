-- ===== src/Scheduling/Examples.antt =====
-- Runs of the scheduling context on the samples, and each theorem at a concrete input.
pub mod Late
pub mod Calendar
use field_service_management.Base.{
  ◌++◌, ℕ, zero, suc, length, ◌⊎◌, ◌+◌, ◌-◌, ◌<◌, ◌≤◌, ◌≡◌, refl, true, false, not, none, some,
  List, [], ◌∷◌, arith, All, filter,
}
use field_service_management.Scheduling.Outcome.{ok, err, Error}
use field_service_management.Scheduling.TimeRange.{TimeRange, IsValidRange}
use field_service_management.Scheduling.WorkingHours.{window_for, make_weekly}
use field_service_management.Scheduling.WorkingHours.Lookup.{window_for-make_weekly}
use field_service_management.Scheduling.Slots.{slot_at, visit, generate_slots}
use field_service_management.Scheduling.Slots.Reference.{conflicts, all_slots, IsChronological}
use field_service_management.Scheduling.Slots.Equivalence.{generate_slots-eq-filter}
use field_service_management.Scheduling.Policy.{is_available}
use field_service_management.Scheduling.Policy.Offered.{generate_slots-Available}
use field_service_management.Scheduling.RateLimit.{CancellationRateLimit, blocked_until}
use field_service_management.Scheduling.RateLimit.Window.{blocked_until_reopens}
use field_service_management.Scheduling.Appointment.Lifecycle.{
  Mutation, mutate_all, mutate_all-SameVisit, SameVisit,
}
use field_service_management.Scheduling.Appointment.{AppointmentStatus}
use field_service_management.Scheduling.Repositories.{
  row_id, row_to_appointment, appointment_to_row,
}
use field_service_management.Scheduling.Repositories.Mapping.{
  entity, row_to_appointment-appointment_to_row,
}
use field_service_management.Scheduling.Repositories.Consistency.{IsConsistent}
use field_service_management.Scheduling.Booking.{
  book_appointment, reschedule_appointment, cancel_appointment, add_details, propose_slots,
  guard_no_overlap,
}
use field_service_management.Scheduling.Booking.Guards.{guard_no_overlap-eq}
use field_service_management.Scheduling.Booking.Outcomes.{
  Cancels, Notes, Reschedules, cancel_appointment-Cancels, add_details-Notes,
  reschedule_appointment-Reschedules,
}
use field_service_management.Scheduling.Booking.Booked.{Books, book_appointment-Books}
use field_service_management.Scheduling.Booking.Invariant.{
  book_appointment-IsConsistent, reschedule_appointment-IsConsistent,
}
use field_service_management.Scheduling.Booking.Proposals.{
  offers, propose_slots-eq-filter, propose_slots-Bookable,
}
use field_service_management.Scheduling.Reconciliation.{InboundEventChange, reconcile}
use field_service_management.Scheduling.Store.{OutboxRow}
use field_service_management.Scheduling.Outbox.{entry_key, first_pending, processed_row}
use field_service_management.Scheduling.Dispatcher.{process_one, run_once}
use field_service_management.Scheduling.Dispatcher.Delivery.{Projects}
use field_service_management.Scheduling.Dispatcher.Projection.{process_one-Projects}
use field_service_management.Scheduling.Dispatcher.Drain.{Drains, run_once-Drains}
use field_service_management.Scheduling.Reconciliation.Invariant.{reconcile-IsConsistent}
use field_service_management.Scheduling.Dispatcher.Drain.{InOrder}
use field_service_management.Scheduling.History.{Request, serve_all}
use field_service_management.Scheduling.History.Invariant.{serve_all-InOrder}
use field_service_management.Scheduling.Context.{empty_context, is_line_break, problem_summary}
use field_service_management.Scheduling.Context.Titles.{length-problem_summary}
use field_service_management.Scheduling.Samples.{
  world, world-InOrder, dispatcher, utc, no_holiday, monday_hours, mondays, hours, at, between,
  mondays-EndsWithinDay, mondays-HasWholeMinutes, row_at, store, store-IsConsistent, service,
  inputs,
}

monday-IsChronological :
    IsChronological 0 (all_slots (1 + 1 - 1) mondays utc no_holiday (hours 1) 1)
unfolding all_slots window_for
monday-IsChronological = (omega arith, (omega arith, (omega arith, tt)))

busy_run :
    generate_slots mondays 1 1 (between 10 11 ∷ []) no_holiday (hours 1) utc
    ≡ ok (between 9 10 ∷ between 11 12 ∷ [])
unfolding generate_slots slot_at visit window_for
busy_run = refl

generate_slots-eq-filter_example :
    generate_slots mondays 1 1 (between 10 11 ∷ []) no_holiday (hours 1) utc
    ≡ ok (
        filter
          (λ t. not (conflicts (between 10 11 ∷ []) t))
          (all_slots (1 + 1 - 1) mondays utc no_holiday (hours 1) 1))
generate_slots-eq-filter_example =
    generate_slots-eq-filter mondays 1 1 (between 10 11 ∷ []) no_holiday (hours 1) utc (omega arith)
      monday-IsChronological

generate_slots-Available_example :
    (slots : List TimeRange) × (generate_slots mondays 1 1
        (between 10 11 ∷ [])
        no_holiday
        (hours 1)
        utc
      ≡ ok slots)
    × All (λ t. is_available mondays utc no_holiday t ≡ true) slots
generate_slots-Available_example =
    generate_slots-Available mondays utc no_holiday (λ day t dh e lo hi. refl)
      mondays-HasWholeMinutes (hours 1) (omega arith) 1 1 (between 10 11 ∷ [])
      monday-IsChronological

propose_slots-eq-filter_example :
    propose_slots service (at 8) 3 mondays utc 1 1 (hours 1) no_holiday store
    ≡ ok (
        filter
          (offers (at 8) 3 (between 10 11 ∷ []) store)
          (all_slots (1 + 1 - 1) mondays utc no_holiday (hours 1) 1))
propose_slots-eq-filter_example =
    propose_slots-eq-filter service (at 8) 3 mondays utc no_holiday (hours 1) 1 1 store
      (between 10 11 ∷ []) (omega arith) (omega arith) mondays-EndsWithinDay (λ a b lo lt hi. lt)
      refl store-IsConsistent

propose_slots-Bookable_example :
    (slots : List TimeRange) × (propose_slots service
        (at 8)
        3
        mondays
        utc
        1
        1
        (hours 1)
        no_holiday
        store
      ≡ ok slots)
    × All
        (λ t.
          (at 8 ≤ t.start)
          × (conflicts (between 10 11 ∷ []) t ≡ false)
          × (guard_no_overlap 3 t none store ≡ ok tt))
        slots
propose_slots-Bookable_example =
    propose_slots-Bookable service (at 8) 3 mondays utc no_holiday (hours 1) 1 1 store
      (between 10 11 ∷ []) (omega arith) (omega arith) mondays-EndsWithinDay (λ a b lo lt hi. lt)
      refl store-IsConsistent

window_for-make_weekly_example :
    All (λ dh. window_for mondays dh.weekday ≡ some dh) (monday_hours ∷ [])
unfolding make_weekly
window_for-make_weekly_example = window_for-make_weekly (monday_hours ∷ []) mondays refl

-- One cancellation in a day pauses booking for two days.
abbrev strict : CancellationRateLimit
strict = record { max_cancellations = 1; window = hours 24; cooloff = hours 48 }

blocked_run : blocked_until strict (at 1 ∷ []) (at 2) ≡ ok (some (at 49))
unfolding blocked_until
blocked_run = refl

blocked_until_reopens_example :
    (at 2 < at 49) × (blocked_until strict (at 1 ∷ []) (at 49) ≡ ok none)
blocked_until_reopens_example =
    blocked_until_reopens strict (at 1 ∷ []) (at 2) (at 49) (omega arith) (omega arith) blocked_run

mutate_all-SameVisit_example : SameVisit (entity (row_at 2 9 10 AppointmentStatus.cancelled)) (
    mutate_all
      (Mutation.reschedules (between 10 11) 6 ∷ Mutation.cancels 7 ∷ Mutation.assigns_event 8 ∷ [])
      (entity (row_at 2 9 10 AppointmentStatus.cancelled)))
mutate_all-SameVisit_example =
    mutate_all-SameVisit
      (Mutation.reschedules (between 10 11) 6 ∷ Mutation.cancels 7 ∷ Mutation.assigns_event 8 ∷ [])
      (entity (row_at 2 9 10 AppointmentStatus.cancelled)) refl

row_to_appointment-appointment_to_row_example :
    (row_to_appointment (appointment_to_row (entity (row_at 1 9 10 AppointmentStatus.scheduled)))
      ≡ ok (record (entity (row_at 1 9 10 AppointmentStatus.scheduled)) { pending_audits = [] }))
    × (appointment_to_row
          (entity (appointment_to_row (entity (row_at 1 9 10 AppointmentStatus.scheduled))))
        ≡ appointment_to_row (entity (row_at 1 9 10 AppointmentStatus.scheduled)))
row_to_appointment-appointment_to_row_example =
    row_to_appointment-appointment_to_row (entity (row_at 1 9 10 AppointmentStatus.scheduled))
      (omega arith)

guard_no_overlap-eq_example :
    guard_no_overlap 3 (between 9 10) none store ≡ err Error.slot_unavailable
guard_no_overlap-eq_example =
    guard_no_overlap-eq 3 (between 9 10) none store (omega arith) (omega arith, (omega arith, tt))

cancel_appointment-Cancels_example : Cancels 20 1 store (cancel_appointment 20 1 store)
cancel_appointment-Cancels_example = cancel_appointment-Cancels 20 1 store

add_details-Notes_example : Notes 20 1 (66 ∷ []) store (add_details 20 1 (66 ∷ []) store)
add_details-Notes_example = add_details-Notes 20 1 (66 ∷ []) store

reschedule_appointment-Reschedules_example :
    Reschedules 20 1 (between 11 12) store (reschedule_appointment 20 1 (between 11 12) store)
reschedule_appointment-Reschedules_example =
    reschedule_appointment-Reschedules 20 1 (between 11 12) store

book_appointment-Books_example :
    Books service 20 0 3 7
      (between 11 12)
      store
      (book_appointment service 20 0 3 7 (between 11 12) store)
book_appointment-Books_example = book_appointment-Books service 20 0 3 7 (between 11 12) store

book_appointment-IsConsistent_example :
    IsConsistent (book_appointment service 20 0 3 7 (between 11 12) store).1
book_appointment-IsConsistent_example =
    book_appointment-IsConsistent service 20 0 3 7 (between 11 12) store (omega arith)
      store-IsConsistent

reschedule_appointment-IsConsistent_example :
    IsConsistent (reschedule_appointment 20 1 (between 11 12) store).1
reschedule_appointment-IsConsistent_example =
    reschedule_appointment-IsConsistent 20 1 (between 11 12) store (omega arith) store-IsConsistent

-- The event of the booked visit was moved to eleven.
abbrev moved_event : InboundEventChange
moved_event = record {
  appointment_id = 1;
  updated_at = 6;
  cancelled = false;
  customer_declined = false;
  new_time_range = some (between 11 12);
}

moved_IsValidRange : (r : TimeRange) → moved_event.new_time_range ≡ some r → IsValidRange r
moved_IsValidRange r e = ground arith

process_one-Projects_example :
    ((first_pending world.store.outbox ≡ none)
      × (process_one dispatcher 30 world ≡ (ok (some false), world)))
    ⊎ ((row : OutboxRow) × (first_pending world.store.outbox ≡ some row)
        × Projects 30 row world (process_one dispatcher 30 world))
process_one-Projects_example =
    process_one-Projects dispatcher 30 world world-InOrder.0 world-InOrder.1

run_once-Drains_example : Drains 50 world (run_once dispatcher (λ n. n) 50 world)
run_once-Drains_example = run_once-Drains dispatcher (λ n. n) 50 world world-InOrder

reconcile-IsConsistent_example : IsConsistent (reconcile inputs 20 moved_event store).1
reconcile-IsConsistent_example =
    reconcile-IsConsistent inputs 20 moved_event store store-IsConsistent moved_IsValidRange

-- A day at the office: a visit is moved by the calendar and then cancelled, a new one is booked, and
-- the dispatcher runs.
abbrev day : List Request
day =
    Request.opens 19 7 [] none none
    ∷ Request.reconciles inputs 20 moved_event
    ∷ Request.cancels 21 1
    ∷ Request.books service 22 0 3 7 (between 11 12)
    ∷ Request.projects dispatcher (λ n. n) 50
    ∷ []

serve_all-InOrder_example : InOrder (serve_all day world).store
serve_all-InOrder_example =
    serve_all-InOrder day world (tt, (moved_IsValidRange, (tt, (omega arith, (tt, tt)))))
      world-InOrder

-- A problem of seventy letters.
abbrev long_problem : ℕ → List ℕ
long_problem zero = []
long_problem (suc n) = 97 ∷ long_problem n

length-problem_summary_example :
    (length (problem_summary (record empty_context { problem_headline = some (long_problem 70) }))
      ≤ 60)
    × All
        (λ c. is_line_break c ≡ false)
        (problem_summary (record empty_context { problem_headline = some (long_problem 70) }))
length-problem_summary_example =
    length-problem_summary (record empty_context { problem_headline = some (long_problem 70) })
