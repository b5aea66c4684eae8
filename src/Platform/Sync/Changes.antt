-- ===== src/Platform/Sync/Changes.antt =====
-- Which changes a sweep reads from the events of Google, and what applying them in turn leaves:
-- backend/src/fsm/calendar_bridge/inbound_sync.py and backend/src/fsm/platform/sync_runner.py.
use field_service_management.Base.{
  ℕ, suc, Option, none, some, List, [], ◌∷◌, any, ◌≡◌, refl, sym, ap, ◌∙◌, ◌⊎◌, inl, inr, arith,
  Option-cases, ◌<◌,
}
use field_service_management.Base.Text.{Text}
use field_service_management.Scheduling.Outcome.{Result, ok, err, >>=-eq-ok}
use field_service_management.Scheduling.CalendarIdentity.{parse_ical_uid}
use field_service_management.Scheduling.Policy.{AvailabilityInputs}
use field_service_management.Scheduling.Reconciliation.{
  InboundEventChange, ReconciledChange, reconcile,
}
use field_service_management.Scheduling.Store.{Store, pure, ◌>>=◌}
use field_service_management.Scheduling.Store.Post.{bind_post}
use field_service_management.Scheduling.TimeRange.{TimeRange, make_range}
use field_service_management.Platform.Sync.{
  RawEvent, range_of, map_event, keep, map_events, reconcile_each, told,
}

-- An event that no appointment of the program has.
abbrev pub IsForeign : RawEvent → Type 0
IsForeign raw = (uid : Text) → raw.ical_uid ≡ some uid → parse_ical_uid uid ≡ none

-- The new times: the event's, if it has both.
abbrev pub Spans : Option ℕ → Option ℕ → Option TimeRange → Type 0
Spans none end range = range ≡ none
Spans (some start) none range = range ≡ none
Spans (some start) (some end) range =
    (start < end) × (range ≡ some (record { start = start; end = end }))

-- The change that an event of an appointment stands for.
abbrev pub IsChange : RawEvent → InboundEventChange → Type 0
IsChange raw change =
    (uid : Text) × (raw.ical_uid ≡ some uid)
    × (parse_ical_uid uid ≡ some change.appointment_id)
    × (change.updated_at ≡ raw.updated)
    × (change.cancelled ≡ raw.cancelled)
    × (change.customer_declined ≡ any (λ declined. declined) raw.declined)
    × Spans raw.start raw.end change.new_time_range

-- The changes of the events, in their order, foreign events left out.
abbrev pub Reads : List RawEvent → List InboundEventChange → Type 0
Reads [] changes = changes ≡ []
Reads (raw ∷ rest) changes =
    (IsForeign raw × Reads rest changes)
    ⊎ ((change : InboundEventChange) × (others : List InboundEventChange) × IsChange raw change
        × (changes ≡ change ∷ others)
        × Reads rest others)

-- A change that had an effect is told before those that follow.
abbrev pub Tells : Option ReconciledChange → List ReconciledChange → List ReconciledChange → Type 0
Tells none others told = told ≡ others
Tells (some change) others told = told ≡ change ∷ others

-- Every change is reconciled with what the changes before it left.
abbrev pub Applies :
    (ℕ → ℕ → AvailabilityInputs)
    → (ℕ → ℕ)
    → List InboundEventChange
    → Store
    → List ReconciledChange
    → Store
    → Type 0
Applies inputs clock [] s told u = (told ≡ []) × (u ≡ s)
Applies inputs clock (change ∷ rest) s told u =
    (result : Option ReconciledChange) × (t : Store) × (others : List ReconciledChange) × (reconcile
        inputs (clock 0) change s
      ≡ (ok result, t))
    × Tells result others told
    × Applies inputs (λ n. clock (suc n)) rest t others u

range_of-Spans :
    (start end : Option ℕ) (range : Option TimeRange)
    → range_of start end ≡ ok range
    → Spans start end range
unfolding make_range
range_of-Spans none end range h = ground (arith, h)
range_of-Spans (some start) none range h = ground (arith, h)
range_of-Spans (some start) (some end) range h = (ground (arith, h), ground (arith, h))

-- The two outcomes of mapping one event.
map_event_cases :
    (raw : RawEvent) (change : Option InboundEventChange)
    → map_event raw ≡ ok change
    → (IsForeign raw × (change ≡ none))
      ⊎ ((c : InboundEventChange) × IsChange raw c × (change ≡ some c))
unfolding map_event
map_event_cases raw change h = elim (Option-cases raw.ical_uid) [
  | inl no_uid ↦ inl ((λ uid e. absurd (ground (arith, no_uid, e))), ground (arith, no_uid, h))
  | inr (uid, e) ↦ elim (Option-cases (parse_ical_uid uid)) [
    | inl other ↦ inl (
      (λ uid' e'. (let same : uid' ≡ uid = cc in ap parse_ical_uid same ∙ other)),
      ground (arith, e, other, h),
    )
    | inr (id, own) ↦ ranged uid e id own (range_of raw.start raw.end) refl
  ]
]
  where
    ranged :
        (uid : Text)
        → raw.ical_uid ≡ some uid
        → (id : ℕ) → parse_ical_uid uid ≡ some id
        → (made : Result (Option TimeRange)) → range_of raw.start raw.end ≡ made
        → (IsForeign raw × (change ≡ none))
          ⊎ ((c : InboundEventChange) × IsChange raw c × (change ≡ some c))
    ranged uid e id own (err failure) made = absurd (ground (arith, e, own, made, h))
    ranged uid e id own (ok range) made = inr (
      record {
        appointment_id = id;
        updated_at = raw.updated;
        cancelled = raw.cancelled;
        customer_declined = any (λ declined. declined) raw.declined;
        new_time_range = range;
      },
      (uid, e, own, refl, refl, refl, range_of-Spans raw.start raw.end range made),
      ground (arith, e, own, made, h),
    )

pub map_events-Reads :
    (events : List RawEvent) (changes : List InboundEventChange)
    → map_events events ≡ ok changes
    → Reads events changes
unfolding map_events
map_events-Reads [] changes h = ground (arith, h)
map_events-Reads (raw ∷ rest) changes h =
    let first = >>=-eq-ok (map_event raw) _ h in
    let others = >>=-eq-ok (map_events rest) _ first.2 in
    let ih : Reads rest others.0 = map_events-Reads rest others.0 others.1 in
    let whole : keep first.0 others.0 ≡ changes = ground (arith, others.2) in
    elim (map_event_cases raw first.0 first.1) [
      | inl (foreign, gone) ↦ inl (foreign, rw (sym whole ∙ ap (λ c. keep c others.0) gone) ih)
      | inr (change, own, e) ↦
          inr (change, others.0, own, sym whole ∙ ap (λ c. keep c others.0) e, ih)
    ]

told-Tells :
    (result : Option ReconciledChange) (results : List (Option ReconciledChange))
    → Tells result (told results) (told (result ∷ results))
told-Tells none results = refl
told-Tells (some change) results = refl

-- A unit of work that ends has applied its changes one after the other.
pub reconcile_each-Applies :
    (inputs : ℕ → ℕ → AvailabilityInputs) (clock : ℕ → ℕ) (changes : List InboundEventChange)
    (s : Store) (results : List (Option ReconciledChange)) (u : Store)
    → reconcile_each inputs clock changes s ≡ (ok results, u)
    → Applies inputs clock changes s (told results) u
unfolding reconcile_each
reconcile_each-Applies inputs clock [] s results u h =
    let none_left : results ≡ [] = ground (arith, h) in (ap told none_left, ground (arith, h))
reconcile_each-Applies inputs clock (change ∷ rest) s results u h =
    let later : ℕ → ℕ = λ n. clock (suc n) in
    bind_post
      (λ out. out ≡ (ok results, u) → Applies inputs clock (change ∷ rest) s (told results) u)
      (reconcile inputs (clock 0) change)
      (λ result. reconcile_each inputs later rest >>= λ others. pure (result ∷ others)) s
      (λ result t e.
        bind_post
          (λ out. out ≡ (ok results, u) → Applies inputs clock (change ∷ rest) s (told results) u)
          (reconcile_each inputs later rest) (λ others. pure (result ∷ others)) t
          (λ others v e' ended.
            let same : v ≡ u = ground (arith, ended) in
            let whole : results ≡ result ∷ others = ground (arith, ended) in
            (
              result,
              t,
              told others,
              e,
              rw whole (told-Tells result others),
              reconcile_each-Applies inputs later rest t others u
                  (e' ∙ ap (λ x. (ok others, x)) same),
            ))
          (λ failure v e' ended. absurd (ground (arith, ended))))
      (λ failure t e ended. absurd (ground (arith, ended))) h
