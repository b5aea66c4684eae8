-- ===== src/Scheduling/Dispatcher/Drain.antt =====
-- `run_once` of backend/src/fsm/scheduling/application/calendar_projection_dispatcher.py works the
-- outbox off: each round uses up an attempt, whatever the calendar answers.
use mathlib.Core.Path.{subst}
use field_service_management.Base.{
  ℕ, zero, suc, ◌+◌, ◌≤◌, ◌<◌, ◌≡◌, refl, sym, Bool, true, false, Option, none, some, inl, inr,
  arith,
}
use field_service_management.Base.Rows.{find, All-find}
use field_service_management.Scheduling.Outcome.{Result, ok, err}
use field_service_management.Scheduling.Store.{Store, OutboxRow}
use field_service_management.Scheduling.Repositories.Consistency.{IsConsistent}
use field_service_management.Scheduling.Outbox.{entry_key, first_pending, processed_row, failed_row}
use field_service_management.Scheduling.World.{World, Step}
use field_service_management.Scheduling.Dispatcher.{
  Dispatcher, count_claim, process_one, run_loop, run_once,
}
use field_service_management.Scheduling.Dispatcher.Steps.{after}
use field_service_management.Scheduling.Dispatcher.Queue.{
  IsQueue, HasAttempts, attempts_left, budget, budget-put, put-IsQueue, first_pending-find,
  first_pending-is_pending, first_pending_of_spent, processed_row-HasAttempts,
  failed_row-HasAttempts, processed_row-spends, failed_row-spends,
}
use field_service_management.Scheduling.Dispatcher.Delivery.{Projects, Ends}
use field_service_management.Scheduling.Dispatcher.Projection.{process_one-Projects}

-- The tables are in order.
abbrev pub InOrder : Store → Type 0
InOrder s = IsConsistent s × IsQueue s

abbrev Spends : World → World → Type 0
Spends w t = InOrder t.store × (budget t.store.outbox < budget w.store.outbox)

-- Writing a row that has fewer attempts left over the first pending one.
Ends-Spends :
    (row after : OutboxRow) (w t : World)
    → IsQueue w.store
    → first_pending w.store.outbox ≡ some row
    → after.id ≡ row.id
    → HasAttempts after
    → attempts_left after < attempts_left row
    → Ends row after w t
    → Spends w t
Ends-Spends row after w t queue head same bounded less (outbox, cons, le, _) = (
  (
    cons,
    put-IsQueue after w.store t.store bounded
        (rw same (
          All-find entry_key (λ r. r.id < w.store.next_uuid) row.id w.store.outbox row
            (first_pending-find w.store.outbox row queue.distinct head) queue.drawn))
        outbox le queue,
  ),
  rw outbox (
      omega (
        arith,
        less,
        budget-put after row w.store.outbox (
            subst (λ k. find entry_key k w.store.outbox ≡ some row) (sym same)
              (first_pending-find w.store.outbox row queue.distinct head)),
      )),
)

-- Each round that takes an entry lowers the budget, and returns.
abbrev Advances : World → Result (Option Bool) × World → Type 0
Advances w (ok none, t) = Spends w t
Advances w (ok (some true), t) = Spends w t
Advances w (ok (some false), t) = (t ≡ w) × (first_pending w.store.outbox ≡ none)
Advances w (err e, t) = ⊥

Projects-Advances :
    (now : ℕ) (row : OutboxRow) (w : World) (out : Result (Option Bool) × World)
    → IsQueue w.store
    → first_pending w.store.outbox ≡ some row
    → Projects now row w out
    → Advances w out
Projects-Advances now row w (ok none, t) queue head (e, ends) =
    let waits = first_pending-is_pending w.store.outbox row head in
    let left =
      All-find entry_key HasAttempts row.id w.store.outbox row
        (first_pending-find w.store.outbox row queue.distinct head) queue.bounded in
    Ends-Spends row (failed_row e row) w t queue head refl (failed_row-HasAttempts e row)
      (failed_row-spends e row waits left) ends
Projects-Advances now row w (ok (some true), t) queue head ends =
    let waits = first_pending-is_pending w.store.outbox row head in
    let left =
      All-find entry_key HasAttempts row.id w.store.outbox row
        (first_pending-find w.store.outbox row queue.distinct head) queue.bounded in
    Ends-Spends row (processed_row now row) w t queue head refl (processed_row-HasAttempts now row)
      (processed_row-spends now row waits left) ends
Projects-Advances now row w (ok (some false), t) queue head h = absurd h
Projects-Advances now row w (err e, t) queue head h = absurd h

process_one-Advances :
    (dispatcher : Dispatcher) (now : ℕ) (w : World)
    → InOrder w.store
    → Advances w (process_one dispatcher now w)
process_one-Advances dispatcher now w (c, queue) =
    elim (process_one-Projects dispatcher now w c queue) [
      | inl (idle, e) ↦ subst (Advances w) (sym e) (refl, idle)
      | inr (row, head, h) ↦ Projects-Advances now row w (process_one dispatcher now w) queue head h
    ]

-- A run returns with the tables in order, and with no entry pending if the limit was enough.
abbrev pub Drains : ℕ → World → Result ℕ × World → Type 0
Drains limit w (ok processed, t) =
    InOrder t.store × (budget w.store.outbox ≤ limit → first_pending t.store.outbox ≡ none)
Drains limit w (err e, t) = ⊥

weaken-Drains :
    (limit : ℕ) (w t : World) (out : Result ℕ × World)
    → budget t.store.outbox < budget w.store.outbox
    → Drains limit t out
    → Drains (suc limit) w out
weaken-Drains limit w t (ok processed, u) less (order, done) = (order, λ enough. done (omega arith))
weaken-Drains limit w t (err e, u) less h = h

-- The rest of the loop, after a round.
counted-Drains :
    (again : ℕ → Step ℕ) (limit processed : ℕ) (w : World) (out : Result (Option Bool) × World)
    → InOrder w.store
    → ((count : ℕ) (t : World) → InOrder t.store → Drains limit t (again count t))
    → Advances w out
    → Drains (suc limit) w (after (Drains (suc limit) w) (count_claim again processed) out)
counted-Drains again limit processed w (ok none, t) order ih (order', less) =
    weaken-Drains limit w t (again processed t) less (ih processed t order')
counted-Drains again limit processed w (ok (some true), t) order ih (order', less) =
    weaken-Drains limit w t (again (processed + 1) t) less (ih (processed + 1) t order')
counted-Drains again limit processed w (ok (some false), t) order ih (same, idle) =
    subst
      (λ x.
        InOrder x.store × (budget w.store.outbox ≤ suc limit → first_pending x.store.outbox ≡ none))
      (sym same) (order, λ _. idle)
counted-Drains again limit processed w (err e, t) order ih h = absurd h

run_loop-Drains :
    (dispatcher : Dispatcher) (nows : ℕ → ℕ) (limit processed : ℕ) (w : World)
    → InOrder w.store
    → Drains limit w (run_loop dispatcher nows limit processed w)
unfolding run_loop
run_loop-Drains dispatcher nows zero processed w (c, queue) =
    ((c, queue), λ enough. first_pending_of_spent w.store.outbox queue.bounded (omega arith))
run_loop-Drains dispatcher nows (suc limit) processed w order =
    counted-Drains (run_loop dispatcher nows limit) limit processed w
      (process_one dispatcher (nows limit) w) order
      (λ count t order'. run_loop-Drains dispatcher nows limit count t order')
      (process_one-Advances dispatcher (nows limit) w order)

-- With the tables in order, a run returns and leaves them in order; and if its limit is at least the
-- attempts that the pending entries have left, no entry is pending then: whatever the calendar and
-- the resolvers answer, each is processed or has failed for good.
pub run_once-Drains :
    (dispatcher : Dispatcher) (nows : ℕ → ℕ) (limit : ℕ) (w : World)
    → InOrder w.store
    → Drains limit w (run_once dispatcher nows limit w)
unfolding run_once
run_once-Drains dispatcher nows limit w order = run_loop-Drains dispatcher nows limit 0 w order
