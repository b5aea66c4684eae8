-- ===== src/Scheduling/History.antt =====
-- The scheduling context over time: requests one after another, each in a unit of work of its own
-- (backend/src/fsm/scheduling/adapters/unit_of_work.py), and the rounds of the dispatcher.
pub mod Entries
pub mod Invariant
use field_service_management.Base.{ℕ, Option, List, [], ◌∷◌}
use field_service_management.Assist.Summary.{TriageSummary}
use field_service_management.Base.Text.{Text}
use field_service_management.Scheduling.Outcome.{Result, ok, err}
use field_service_management.Scheduling.TimeRange.{TimeRange}
use field_service_management.Scheduling.Policy.{AvailabilityInputs}
use field_service_management.Scheduling.Store.{Store}
use field_service_management.Scheduling.Opening.{open_service_call}
use field_service_management.Scheduling.Booking.{
  AppointmentService, book_appointment, reschedule_appointment, cancel_appointment, add_details,
}
use field_service_management.Scheduling.Reconciliation.{InboundEventChange, reconcile}
use field_service_management.Scheduling.World.{World}
use field_service_management.Scheduling.Dispatcher.{Dispatcher, run_once}

-- A call of a use case with its clock, or a run of the dispatcher.
pub data Request : Type 0 where
  opens : ℕ → ℕ → Text → Option TriageSummary → Option Text → Request
  books : AppointmentService → ℕ → ℕ → ℕ → ℕ → TimeRange → Request
  reschedules : ℕ → ℕ → TimeRange → Request
  cancels : ℕ → ℕ → Request
  adds_details : ℕ → ℕ → Text → Request
  reconciles : (ℕ → ℕ → AvailabilityInputs) → ℕ → InboundEventChange → Request
  projects : Dispatcher → (ℕ → ℕ) → ℕ → Request

-- The end of a unit of work: what returned is committed, and a raise rolls back.
abbrev pub settle : {A : Type 0} → World → Result A × Store → World
settle w (ok a, t) = record w { store = t }
settle w (err e, t) = w

pub serve : Request → World → World
serve (opens now customer description triage_summary headline) w =
    settle w (open_service_call now customer description triage_summary headline w.store)
serve (books service now call technician customer r) w =
    settle w (book_appointment service now call technician customer r w.store)
serve (reschedules now id r) w = settle w (reschedule_appointment now id r w.store)
serve (cancels now id) w = settle w (cancel_appointment now id w.store)
serve (adds_details now id text) w = settle w (add_details now id text w.store)
serve (reconciles inputs now change) w = settle w (reconcile inputs now change w.store)
serve (projects dispatcher nows limit) w = (run_once dispatcher nows limit w).1

pub serve_all : List Request → World → World
unfolding serve
serve_all [] w = w
serve_all (request ∷ rest) w = serve_all rest (serve request w)
