-- ===== src/Scheduling/History/Invariant.antt =====
-- No history of requests brings the tables of the scheduling context out of order.
use field_service_management.Base.{refl, ℕ, ◌≡◌, refl, Option, some, List, [], ◌∷◌, All}
use field_service_management.Scheduling.Outcome.{Result, ok, err}
use field_service_management.Scheduling.TimeRange.{TimeRange, IsValidRange}
use field_service_management.Assist.Summary.{TriageSummary}
use field_service_management.Base.Text.{Text}
use field_service_management.Scheduling.Store.{Store}
use field_service_management.Scheduling.Repositories.Consistency.{IsConsistent, same-IsConsistent}
use field_service_management.Scheduling.Opening.{open_service_call}
use field_service_management.Scheduling.Booking.{
  book_appointment, reschedule_appointment, cancel_appointment, add_details,
}
use field_service_management.Scheduling.Booking.Outcomes.{
  cancel_appointment-Cancels, add_details-Notes, reschedule_appointment-Reschedules,
}
use field_service_management.Scheduling.Booking.Booked.{book_appointment-Books}
use field_service_management.Scheduling.Booking.Invariant.{
  book_appointment-IsConsistent, reschedule_appointment-IsConsistent,
  cancel_appointment-IsConsistent, add_details-IsConsistent,
}
use field_service_management.Scheduling.Reconciliation.{reconcile}
use field_service_management.Scheduling.Reconciliation.Outcomes.{reconcile-Reconciles}
use field_service_management.Scheduling.Reconciliation.Invariant.{reconcile-IsConsistent}
use field_service_management.Scheduling.World.{World}
use field_service_management.Scheduling.Dispatcher.{run_once}
use field_service_management.Scheduling.Dispatcher.Queue.{IsQueue, same-IsQueue}
use field_service_management.Scheduling.Dispatcher.Drain.{InOrder, Drains, run_once-Drains}
use field_service_management.Scheduling.History.{Request, settle, serve, serve_all}
use field_service_management.Scheduling.History.Request.{
  opens, books, reschedules, cancels, adds_details, reconciles, projects,
}
use field_service_management.Scheduling.History.Entries.{
  Books-IsQueue, Reschedules-IsQueue, Cancels-IsQueue, Notes-IsQueue, Reconciles-IsQueue,
  opens-Keeps,
}

-- The constructor of `TimeRange` accepted each range of the request.
abbrev pub HasValidRanges : Request → Type 0
HasValidRanges (opens now customer description triage_summary headline) = Unit
HasValidRanges (books service now call technician customer r) = IsValidRange r
HasValidRanges (reschedules now id r) = IsValidRange r
HasValidRanges (cancels now id) = Unit
HasValidRanges (adds_details now id text) = Unit
HasValidRanges (reconciles inputs now change) =
    (r : TimeRange) → change.new_time_range ≡ some r → IsValidRange r
HasValidRanges (projects dispatcher nows limit) = Unit

-- What a unit of work commits is in order if a call that returns leaves it so.
settle-InOrder :
    {A : Type 0} (w : World) (out : Result A × Store)
    → InOrder w.store
    → IsConsistent out.1
    → ((a : A) → out.0 ≡ ok a → IsQueue out.1)
    → InOrder (settle w out).store
settle-InOrder w (ok a, t) order c queue = (c, queue a refl)
settle-InOrder w (err e, t) order c queue = order

ran-InOrder :
    (limit : ℕ) (w : World) (out : Result ℕ × World) → Drains limit w out → InOrder out.1.store
ran-InOrder limit w (ok count, t) (order, done) = order
ran-InOrder limit w (err e, t) h = absurd h

opens-InOrder :
    (now customer : ℕ) (description : Text) (triage_summary : Option TriageSummary)
    (headline : Option Text) (w : World)
    → InOrder w.store
    → InOrder
        (settle w
          (open_service_call now customer description triage_summary headline w.store)).store
opens-InOrder now customer description triage_summary headline w (c, queue) =
    let (rows, outbox, le) = opens-Keeps now customer description triage_summary headline w.store in
    settle-InOrder w (open_service_call now customer description triage_summary headline w.store)
      (c, queue) (same-IsConsistent w.store _ rows le c)
      (λ _ _. same-IsQueue w.store _ outbox le queue)

serve-InOrder :
    (request : Request) (w : World)
    → HasValidRanges request
    → InOrder w.store
    → InOrder (serve request w).store
unfolding serve
serve-InOrder (opens now customer description triage_summary headline) w valid order =
    opens-InOrder now customer description triage_summary headline w order
serve-InOrder (books service now call technician customer r) w valid (c, queue) =
    settle-InOrder w (book_appointment service now call technician customer r w.store) (c, queue)
      (book_appointment-IsConsistent service now call technician customer r w.store valid c)
      (λ a.
        Books-IsQueue service now call technician customer r w.store _ a queue
          (book_appointment-Books service now call technician customer r w.store))
serve-InOrder (reschedules now id r) w valid (c, queue) =
    settle-InOrder w (reschedule_appointment now id r w.store) (c, queue)
      (reschedule_appointment-IsConsistent now id r w.store valid c)
      (λ a.
        Reschedules-IsQueue now id r w.store _ a queue
          (reschedule_appointment-Reschedules now id r w.store))
serve-InOrder (cancels now id) w valid (c, queue) =
    settle-InOrder w (cancel_appointment now id w.store) (c, queue)
      (cancel_appointment-IsConsistent now id w.store c)
      (λ a. Cancels-IsQueue now id w.store _ a queue (cancel_appointment-Cancels now id w.store))
serve-InOrder (adds_details now id text) w valid (c, queue) =
    settle-InOrder w (add_details now id text w.store) (c, queue)
      (add_details-IsConsistent now id text w.store c)
      (λ a. Notes-IsQueue now id text w.store _ a queue (add_details-Notes now id text w.store))
serve-InOrder (reconciles inputs now change) w valid (c, queue) =
    settle-InOrder w (reconcile inputs now change w.store) (c, queue)
      (reconcile-IsConsistent inputs now change w.store c valid)
      (λ _ _.
        Reconciles-IsQueue inputs now change w.store _ queue
          (reconcile-Reconciles inputs now change w.store c valid))
serve-InOrder (projects dispatcher nows limit) w valid order =
    ran-InOrder limit w (run_once dispatcher nows limit w)
      (run_once-Drains dispatcher nows limit w order)

-- From tables in order, every sequence of service calls, bookings, reschedules, cancellations, details, calendar
-- changes and dispatcher runs, whose ranges are valid, leaves the tables in order: no technician is
-- booked twice, and every pending entry of the outbox has attempts left.
pub serve_all-InOrder :
    (requests : List Request) (w : World)
    → All HasValidRanges requests
    → InOrder w.store
    → InOrder (serve_all requests w).store
unfolding serve_all
serve_all-InOrder [] w valid order = order
serve_all-InOrder (request ∷ rest) w valid order =
    serve_all-InOrder rest (serve request w) valid.1 (serve-InOrder request w valid.0 order)
