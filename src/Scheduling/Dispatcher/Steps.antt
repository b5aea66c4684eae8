-- ===== src/Scheduling/Dispatcher/Steps.antt =====
-- Postconditions of the steps of
-- backend/src/fsm/scheduling/application/calendar_projection_dispatcher.py.
use mathlib.Core.Path.{subst}
use field_service_management.Base.{
  ℕ, ◌≡◌, refl, sym, false, Option, none, some, ◌⊎◌, inl, inr, Option-cases,
}
use field_service_management.Base.Rows.{find, put}
use field_service_management.Scheduling.Outcome.{Result, ok, err, Error}
use field_service_management.Scheduling.Appointment.{Appointment}
use field_service_management.Scheduling.ServiceCall.{ServiceCall}
use field_service_management.Scheduling.Context.{AppointmentContext}
use field_service_management.Scheduling.Repositories.{call_id}
use field_service_management.Scheduling.Repositories.ServiceCalls
use field_service_management.Scheduling.Store.{OutboxRow}
use field_service_management.Scheduling.Outbox.{
  entry_key, processed_row, failed_row, mark_processed, mark_failed,
}
use field_service_management.Scheduling.World.{World, Step, ◌>>=◌, on_store, resolve, or_raise}
use field_service_management.Scheduling.Dispatcher.{
  Dispatcher, build_context, context_found, context_of, context_with, is_session_broken,
}

module _ {ℓ} {A B : Type 0} (Q : Result B × World → Type ℓ) where
  -- The rest of a body on how its first step ended.
  abbrev pub after : (A → Step B) → Result A × World → Result B × World
  after rest out = elim out.0 [ ok a ↦ rest a out.1 | err e ↦ (err e, out.1) ]

  -- Show it for each way the first step can end.
  pub step_post :
      (step : Step A) (rest : A → Step B) (w : World)
      → ((a : A) (t : World) → step w ≡ (ok a, t) → Q (rest a t))
      → ((e : Error) (t : World) → step w ≡ (err e, t) → Q (err e, t))
      → Q ((step >>= rest) w)
  step_post step rest w good bad = ends (step w) refl
    where
      ends : (out : Result A × World) → step w ≡ out → Q (after rest out)
      ends (ok a, t) h = good a t h
      ends (err e, t) h = bad e t h

  pub step_returns :
      (step : Step A) (rest : A → Step B) (w : World) {a : A} {t : World}
      → step w ≡ (ok a, t)
      → Q (rest a t)
      → Q ((step >>= rest) w)
  step_returns step rest w h q = subst (λ out. Q (after rest out)) (sym h) q

  pub step_raises :
      (step : Step A) (rest : A → Step B) (w : World) {e : Error} {t : World}
      → step w ≡ (err e, t)
      → Q (err e, t)
      → Q ((step >>= rest) w)
  step_raises step rest w h q = subst (λ out. Q (after rest out)) (sym h) q

  -- A call that leaves its trace in the world before it answers.
  pub answer_post :
      (answer : Option A) (rest : A → Step B) (t : World)
      → ((a : A) → answer ≡ some a → Q (rest a t))
      → Q (err Error.calendar_error, t)
      → Q (after rest (or_raise answer, t))
  answer_post none rest t good bad = bad
  answer_post (some a) rest t good bad = good a refl

  -- An optional answer of a parameter.
  pub resolve_post :
      (answer : Option A) (rest : A → Step B) (w : World)
      → ((a : A) → answer ≡ some a → Q (rest a w))
      → Q (err Error.calendar_error, w)
      → Q ((resolve answer >>= rest) w)
  resolve_post none rest w good bad = bad
  resolve_post (some a) rest w good bad = good a refl

-- The marks, on an entry that is there.
pub mark_processed_found :
    (id now : ℕ) (w : World) {r : OutboxRow}
    → find entry_key id w.store.outbox ≡ some r
    → on_store (mark_processed id now) w ≡ (
      ok tt,
      record w {
        store = record w.store { outbox = put entry_key (processed_row now r) w.store.outbox };
      },
    )
unfolding mark_processed
mark_processed_found id now w e = rw (e, mark_processed)

pub mark_failed_found :
    (id : ℕ) (error : Error) (w : World) {r : OutboxRow}
    → find entry_key id w.store.outbox ≡ some r
    → on_store (mark_failed id error) w ≡ (
      ok tt,
      record w {
        store = record w.store { outbox = put entry_key (failed_row error r) w.store.outbox };
      },
    )
unfolding mark_failed
mark_failed_found id error w e = rw (e, mark_failed)

get_call_cases :
    (id : ℕ) (w : World)
    → ((sc : ServiceCall) × (on_store (ServiceCalls.get id) w ≡ (ok sc, w)))
      ⊎ (on_store (ServiceCalls.get id) w ≡ (err Error.not_found, w))
unfolding ServiceCalls.get
get_call_cases id w = elim (Option-cases (find call_id id w.store.service_calls)) [
  | inl absent ↦ inr (rw (absent, ServiceCalls.get))
  | inr (sc, e) ↦ inl (sc, rw (e, ServiceCalls.get))
]

module _ {ℓ} {B : Type 0} (Q : Result B × World → Type ℓ) (dispatcher : Dispatcher)
    (appt : Appointment) (rest : AppointmentContext → Step B) (w : World)
    (good : (context : AppointmentContext) → Q (rest context w))
    (bad : (e : Error) → is_session_broken e ≡ false → Q (err e, w)) where
  abbrev Then : Result AppointmentContext × World → Type ℓ
  Then out = Q (after Q rest out)

  -- The context is built, or it raises what a lookup or a resolver raises; the world stays as it
  -- is.
  pub build_context_post : Q ((build_context dispatcher appt >>= rest) w)
  unfolding build_context context_found context_of context_with
  build_context_post = elim (get_call_cases appt.service_call_id w) [
    | inr absent ↦
        step_raises Then (on_store (ServiceCalls.get appt.service_call_id))
          (context_found dispatcher appt) w absent (bad Error.not_found refl)
    | inl (sc, e) ↦
        step_returns Then (on_store (ServiceCalls.get appt.service_call_id))
          (context_found dispatcher appt) w e
          (resolve_post Then (dispatcher.technician_context_resolver appt.technician_id)
            (context_of dispatcher appt sc) w
            (λ technician _.
              resolve_post Then (dispatcher.customer_context_resolver appt.customer_id)
                (context_with dispatcher appt sc technician) w (λ customer _. good _)
                (bad Error.calendar_error refl))
            (bad Error.calendar_error refl))
  ]
