-- ===== src/Platform/Sync/Invariant.antt =====
-- The tables of the scheduling context under sweeps of backend/src/fsm/platform/sync_runner.py.
use mathlib.Core.Path.{subst}
use field_service_management.Base.{
  ℕ, suc, Option, none, some, List, [], ◌∷◌, ◌++◌, All, ◌≡◌, sym, inl, inr, arith,
}
use field_service_management.Base.Text.{Text}
use field_service_management.Scheduling.Outcome.{Result}
use field_service_management.Scheduling.TimeRange.{TimeRange, IsValidRange}
use field_service_management.Scheduling.Policy.{AvailabilityInputs}
use field_service_management.Scheduling.Reconciliation.{InboundEventChange, ReconciledChange}
use field_service_management.Scheduling.Reconciliation.Invariant.{reconcile-IsConsistent}
use field_service_management.Scheduling.Repositories.Consistency.{IsConsistent}
use field_service_management.Scheduling.Store.{Store}
use field_service_management.GoogleCalendar.Connections.{
  CalendarConnectionRow, Rows, list_connected,
}
use field_service_management.Platform.Sync.{
  RawEvent, Outside, Synced, Processed, processed, auth_failed, failed, process_connection,
  count_one, sweep, poll_once,
}
use field_service_management.Platform.Sync.Changes.{Reads, Applies, IsChange, Spans}
use field_service_management.Platform.Sync.Commits.{Commits, Reconciles, process_connection-Commits}

abbrev HasValidRange : InboundEventChange → Type 0
HasValidRange change = (r : TimeRange) → change.new_time_range ≡ some r → IsValidRange r

-- A change that stands for an event has a valid range, if any.
IsChange-IsValidRange :
    (raw : RawEvent) (change : InboundEventChange)
    → IsChange raw change
    → (r : TimeRange) → change.new_time_range ≡ some r
    → IsValidRange r
IsChange-IsValidRange raw change (uid, _, _, _, _, _, spans) r e =
    spanned raw.start raw.end change.new_time_range spans e
  where
    spanned :
        (start end : Option ℕ) (range : Option TimeRange)
        → Spans start end range
        → range ≡ some r
        → IsValidRange r
    spanned none end range h asked = absurd (ground (arith, h, asked))
    spanned (some start) none range h asked = absurd (ground (arith, h, asked))
    spanned (some start) (some end) range h asked = ground (arith, h, asked)

Applies-IsConsistent :
    (inputs : ℕ → ℕ → AvailabilityInputs) (clock : ℕ → ℕ) (changes : List InboundEventChange)
    (s u : Store) (changed : List ReconciledChange)
    → All HasValidRange changes
    → IsConsistent s
    → Applies inputs clock changes s changed u
    → IsConsistent u
Applies-IsConsistent inputs clock [] s u changed valid c (none_left, same) =
    subst IsConsistent (sym same) c
Applies-IsConsistent inputs clock (change ∷ rest) s u changed valid c
      (result, t, others, e, tells, later) =
    Applies-IsConsistent inputs (λ n. clock (suc n)) rest t u others valid.1
      (subst (λ (out : Result (Option ReconciledChange) × Store). IsConsistent out.1) e
        (reconcile-IsConsistent inputs (clock 0) change s c valid.0))
      later

Reads-HasValidRange :
    (events : List RawEvent) (changes : List InboundEventChange)
    → Reads events changes
    → All HasValidRange changes
Reads-HasValidRange [] changes h = subst (All HasValidRange) (sym h) tt
Reads-HasValidRange (raw ∷ rest) changes (inl (foreign, others)) =
    Reads-HasValidRange rest changes others
Reads-HasValidRange (raw ∷ rest) changes (inr (change, others, own, whole, h)) =
    subst (All HasValidRange) (sym whole)
      (IsChange-IsValidRange raw change own, Reads-HasValidRange rest others h)

module _ (inputs : ℕ → ℕ → AvailabilityInputs) (outside : Outside) where
  reconciled-IsConsistent :
      (clock : ℕ → ℕ) (connection row : CalendarConnectionRow) (w : Synced) (next : Text) (n : ℕ)
      (changed : List ReconciledChange) (u : Store)
      → IsConsistent w.store
      → Reconciles inputs outside clock connection w row next n changed u
      → IsConsistent u
  reconciled-IsConsistent clock connection row w next n changed u c
        (events, changes, found, fetched, read, count, applied) =
      Applies-IsConsistent inputs clock changes w.store u changed
        (Reads-HasValidRange events changes read) c applied

  one-IsConsistent :
      (clock : ℕ → ℕ) (connection : CalendarConnectionRow) (w : Synced) (out : Processed × Synced)
      → IsConsistent w.store
      → Commits inputs outside clock connection w out
      → IsConsistent (count_one connection.technician_id out).1.store
  one-IsConsistent clock connection w (auth_failed, w') c same =
      subst (λ (x : Synced). IsConsistent x.store) (sym same) c
  one-IsConsistent clock connection w (failed, w') c (inl same) =
      subst (λ (x : Synced). IsConsistent x.store) (sym same) c
  one-IsConsistent clock connection w (failed, w') c
        (inr (row, next, n, cued, rest, done, stopped, published, rows)) =
      reconciled-IsConsistent clock connection row w next n (cued ++ rest) w'.store c done
  one-IsConsistent clock connection w (processed n, w') c
        (row, next, changed, done, published, rows) =
      reconciled-IsConsistent clock connection row w next n changed w'.store c done

  sweep-IsConsistent :
      (clocks : ℕ → ℕ → ℕ) (connections : Rows) (w : Synced)
      → IsConsistent w.store
      → IsConsistent (sweep inputs outside clocks connections w).1.store
  unfolding sweep
  sweep-IsConsistent clocks [] w c = c
  sweep-IsConsistent clocks (connection ∷ rest) w c =
      sweep-IsConsistent (λ n. clocks (suc n)) rest _
        (one-IsConsistent (clocks 0) connection w
          (process_connection inputs outside (clocks 0) connection w) c
          (process_connection-Commits inputs outside (clocks 0) connection w))

  -- From consistent tables, a sweep over all connected technicians, with whatever Google answers and
  -- whichever of them fail before or after their commit, leaves no technician booked twice and no stored range invalid.
  pub poll_once-IsConsistent :
      (clocks : ℕ → ℕ → ℕ) (w : Synced)
      → IsConsistent w.store
      → IsConsistent (poll_once inputs outside clocks w).1.store
  unfolding poll_once
  poll_once-IsConsistent clocks w c = sweep-IsConsistent clocks (list_connected w.connections) w c
