-- ===== src/Platform/Sync/Commits.antt =====
-- What a sweep of backend/src/fsm/platform/sync_runner.py commits.
use mathlib.Core.Path.{subst}
use mathlib.Core.List.{append-nil}
use field_service_management.Base.{
  ℕ, true, false, Option, none, some, List, [], ◌∷◌, ◌++◌, length, ◌≡◌, refl, sym, ap, Option-cases,
  Bool-cases, ◌⊎◌, inl, inr, arith,
}
use field_service_management.Base.Rows.{find, put}
use field_service_management.Base.Text.{Text}
use field_service_management.Scheduling.Outcome.{Result, ok, err}
use field_service_management.Scheduling.Policy.{AvailabilityInputs}
use field_service_management.Scheduling.Reconciliation.{InboundEventChange, ReconciledChange}
use field_service_management.Scheduling.Store.{Store}
use field_service_management.GoogleCalendar.Connections.{
  CalendarConnectionRow, row_technician, set_sync_token,
}
use field_service_management.Platform.Sync.{
  RawEvent, map_events, Listing, listed, auth_error, other_error, Outside, reconcile_each, Synced,
  told, Processed, processed, auth_failed, failed, publish_all, finish, announce, commit,
  apply_changes, apply_listing, process_connection,
}
use field_service_management.Platform.Sync.Changes.{
  Reads, Applies, map_events-Reads, reconcile_each-Applies,
}

module _ (inputs : ℕ → ℕ → AvailabilityInputs) (outside : Outside) where
  -- The changes that Google lists for the row's sync token are applied in one unit of work.
  abbrev pub Reconciles :
      (ℕ → ℕ)
      → CalendarConnectionRow
      → Synced
      → CalendarConnectionRow
      → Text
      → ℕ
      → List ReconciledChange
      → Store
      → Type 0
  Reconciles clock connection w row next n changed u =
      (events : List RawEvent) × (changes : List InboundEventChange) × (find row_technician
          connection.technician_id w.connections
        ≡ some row)
      × (outside.list_events connection.fsm_calendar_id row.encrypted_refresh_token row.sync_token
          ≡ listed events next)
      × Reads events changes
      × (n ≡ length changes)
      × Applies inputs clock changes w.store changed u

  -- The listener raises at the first of these.
  abbrev pub Stops : List ReconciledChange → Type 0
  Stops [] = ⊥
  Stops (change ∷ rest) = outside.publish_raises change ≡ true

  -- What was committed, and then told up to a change at which the listener raises, or to the end with
  -- the write of the token raising; no row of a connection has changed.
  abbrev pub LosesToken : (ℕ → ℕ) → CalendarConnectionRow → Synced → Synced → Type 0
  LosesToken clock connection w w' =
      (row : CalendarConnectionRow) × (next : Text) × (n : ℕ) × (cued : List ReconciledChange)
      × (rest : List ReconciledChange) × Reconciles clock connection w row next n (cued ++ rest)
          w'.store
      × (Stops rest ⊎ ((rest ≡ []) × (outside.token_raises connection.technician_id ≡ true)))
      × (w'.published ≡ w.published ++ cued)
      × (w'.connections ≡ w.connections)

  abbrev pub Commits : (ℕ → ℕ) → CalendarConnectionRow → Synced → Processed × Synced → Type 0
  Commits clock connection w (processed n, w') =
      (row : CalendarConnectionRow) × (next : Text) × (changed : List ReconciledChange) × Reconciles
        clock connection w row next n changed w'.store
      × (w'.published ≡ w.published ++ changed)
      × (w'.connections ≡ put row_technician (record row { sync_token = some next }) w.connections)
  Commits clock connection w (auth_failed, w') = w' ≡ w
  Commits clock connection w (failed, w') = (w' ≡ w) ⊎ LosesToken clock connection w w'

  -- What the listener was told, and what is left where it raised.
  publish_all_cases :
      (changed : List ReconciledChange)
      → (publish_all outside.publish_raises changed ≡ (changed, false))
        ⊎ ((cued : List ReconciledChange) × (rest : List ReconciledChange) × (publish_all
                outside.publish_raises changed
              ≡ (cued, true))
            × (changed ≡ cued ++ rest)
            × Stops rest)
  unfolding publish_all
  publish_all_cases [] = inl refl
  publish_all_cases (change ∷ changed) = elim (Bool-cases (outside.publish_raises change)) [
    | inl raises ↦ inr ([], change ∷ changed, rw raises refl, refl, raises)
    | inr told ↦ elim (publish_all_cases changed) [
      | inl e ↦ inl (rw (told, e) refl)
      | inr (cued, rest, e, parts, stops) ↦
          inr (change ∷ cued, rest, rw (told, e) refl, ap (◌∷◌ change) parts, stops)
    ]
  ]

  module _ (clock : ℕ → ℕ) (connection : CalendarConnectionRow) (w : Synced)
      (row : CalendarConnectionRow)
      (found : find row_technician connection.technician_id w.connections ≡ some row) where
    -- The end of a sync whose changes have all been told.
    token_written :
        (next : Text) (n : ℕ) (changed : List ReconciledChange) (s : Store)
        → Reconciles clock connection w row next n changed s
        → Commits clock connection w (
            finish outside connection.technician_id next n
              (record w { store = s; published = w.published ++ changed }))
    unfolding set_sync_token
    token_written next n changed s done =
        elim (Bool-cases (outside.token_raises connection.technician_id)) [
          | inl raises ↦ subst (Commits clock connection w) (sym (lost raises)) (
              inr (
                row,
                next,
                n,
                changed,
                [],
                subst (λ l. Reconciles clock connection w row next n l s) (sym (append-nil changed))
                    done,
                inr (refl, raises),
                refl,
                refl,
              ))
          | inr written ↦
              subst (Commits clock connection w) (sym (stored written))
                (row, next, changed, done, refl, refl)
        ]
      where
        told_all : Synced
        told_all = record w { store = s; published = w.published ++ changed }

        lost :
            outside.token_raises connection.technician_id ≡ true
            → finish outside connection.technician_id next n told_all ≡ (failed, told_all)
        lost raises = ground (arith, raises)

        stored :
            outside.token_raises connection.technician_id ≡ false
            → finish outside connection.technician_id next n told_all ≡ (
              processed n,
              record told_all {
                connections =
                    put row_technician (record row { sync_token = some next }) w.connections;
              },
            )
        stored written = ground (arith, written, found)

    announce-Commits :
        (next : Text) (n : ℕ) (changed : List ReconciledChange) (s : Store)
        → Reconciles clock connection w row next n changed s
        → Commits clock connection w (
            announce outside connection.technician_id next n
              (publish_all outside.publish_raises changed)
              (record w { store = s }))
    announce-Commits next n changed s done = elim (publish_all_cases changed) [
      | inr (cued, rest, e, parts, stops) ↦ rw e (
          inr (
            row,
            next,
            n,
            cued,
            rest,
            subst (λ l. Reconciles clock connection w row next n l s) parts done,
            inl stops,
            refl,
            refl,
          ))
      | inl e ↦ rw e (token_written next n changed s done)
    ]

    commit-Commits :
        (events : List RawEvent) (next : Text) (changes : List InboundEventChange)
        → outside.list_events connection.fsm_calendar_id row.encrypted_refresh_token row.sync_token
          ≡ listed events next
        → map_events events ≡ ok changes
        → (out : Result (List (Option ReconciledChange)) × Store)
        → reconcile_each inputs clock changes w.store ≡ out
        → Commits clock connection w
            (commit outside connection.technician_id next (length changes) out w)
    commit-Commits events next changes fetched mapped (err e, s) ran = inl refl
    commit-Commits events next changes fetched mapped (ok results, s) ran =
        announce-Commits next (length changes) (told results) s (
          events,
          changes,
          found,
          fetched,
          map_events-Reads events changes mapped,
          refl,
          reconcile_each-Applies inputs clock changes w.store results s ran,
        )

    apply_changes-Commits :
        (events : List RawEvent) (next : Text) (mapped : Result (List InboundEventChange))
        → outside.list_events connection.fsm_calendar_id row.encrypted_refresh_token row.sync_token
          ≡ listed events next
        → map_events events ≡ mapped
        → Commits clock connection w
            (apply_changes inputs outside clock connection.technician_id next mapped w)
    apply_changes-Commits events next (err e) fetched mapped = inl refl
    apply_changes-Commits events next (ok changes) fetched mapped =
        commit-Commits events next changes fetched mapped
          (reconcile_each inputs clock changes w.store) refl

    apply_listing-Commits :
        (listing : Listing)
        → outside.list_events connection.fsm_calendar_id row.encrypted_refresh_token row.sync_token
          ≡ listing
        → Commits clock connection w
            (apply_listing inputs outside clock connection.technician_id listing w)
    apply_listing-Commits auth_error fetched = refl
    apply_listing-Commits other_error fetched = inl refl
    apply_listing-Commits (listed events next) fetched =
        apply_changes-Commits events next (map_events events) fetched refl

  -- A technician whose sync succeeds has every listed event of an appointment, in order, read as its
  -- change and reconciled, all in one unit of work, each effect told once, and the sync token that
  -- came with them stored. One whose sync fails has nothing changed, unless the listener or the write
  -- of the token raised after the commit: then the changes stay and were told up to there, and the
  -- sync token stays the old one, so that the next sweep lists the same changes again. A refused
  -- credential changes nothing.
  pub process_connection-Commits :
      (clock : ℕ → ℕ) (connection : CalendarConnectionRow) (w : Synced)
      → Commits clock connection w (process_connection inputs outside clock connection w)
  unfolding process_connection
  process_connection-Commits clock connection w =
      elim (Option-cases (find row_technician connection.technician_id w.connections)) [
        | inl absent ↦ subst (Commits clock connection w) (sym (gone absent)) (inl refl)
        | inr (row, found) ↦ subst (Commits clock connection w) (sym (here row found)) (
            apply_listing-Commits clock connection w row found
              (outside.list_events connection.fsm_calendar_id row.encrypted_refresh_token
                row.sync_token)
              refl)
      ]
    where
      gone :
          find row_technician connection.technician_id w.connections ≡ none
          → process_connection inputs outside clock connection w ≡ (failed, w)
      gone absent = ground (arith, absent)

      here :
          (row : CalendarConnectionRow)
          → find row_technician connection.technician_id w.connections ≡ some row
          → process_connection inputs outside clock connection w
            ≡ apply_listing inputs outside clock connection.technician_id
                (outside.list_events connection.fsm_calendar_id row.encrypted_refresh_token
                  row.sync_token)
                w
      here row found = ground (arith, found)
