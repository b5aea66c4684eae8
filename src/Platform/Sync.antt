-- ===== src/Platform/Sync.antt =====
-- The inbound sync: backend/src/fsm/platform/sync_runner.py and calendar_bridge/inbound_sync.py. What
-- the client answers for a calendar, a credential and a sync token is a parameter, and whether a
-- listener or the write of a token raises; its date-times are instants. A listener is given. A sweep
-- reads the clock once for each change, by a count of the changes before.
pub mod Changes
pub mod Commits
pub mod Invariant
use field_service_management.Base.{
  ℕ, suc, ◌+◌, Bool, true, false, Option, none, some, List, [], ◌∷◌, ◌++◌, length, any,
  if◌then◌else◌,
}
use field_service_management.Base.Rows.{find}
use field_service_management.Base.Text.{Text}
use field_service_management.Scheduling.Outcome.{Result, ok, err, Error}
use field_service_management.Scheduling.Outcome
use field_service_management.Scheduling.CalendarIdentity.{parse_ical_uid}
use field_service_management.Scheduling.Policy.{AvailabilityInputs}
use field_service_management.Scheduling.Reconciliation.{
  InboundEventChange, ReconciledChange, reconcile,
}
use field_service_management.Scheduling.Store.{Store, Action, pure, ◌>>=◌}
use field_service_management.Scheduling.TimeRange.{TimeRange, make_range}
use field_service_management.GoogleCalendar.Connections.{
  CalendarConnectionRow, Answer, returned, raised, Rows, row_technician, client_error,
  set_sync_token, disconnect_technician, list_connected,
}

-- What the program reads of an event of Google.
pub record RawEvent : Type 0 where
  pub ical_uid : Option Text
  pub cancelled : Bool
  pub start : Option ℕ
  pub end : Option ℕ
  pub declined : List Bool
  pub updated : ℕ

abbrev pub extract_appointment_id : RawEvent → Option ℕ
extract_appointment_id raw = elim raw.ical_uid [ none ↦ none | some uid ↦ parse_ical_uid uid ]

abbrev pub range_of : Option ℕ → Option ℕ → Result (Option TimeRange)
range_of none end = ok none
range_of (some start) none = ok none
range_of (some start) (some end) = Outcome.◌>>=◌ (make_range start end) λ r. ok (some r)

unfoldable pub map_event : RawEvent → Result (Option InboundEventChange)
map_event raw = elim (extract_appointment_id raw) [
  | none ↦ ok none
  | some appointment_id ↦ Outcome.◌>>=◌ (range_of raw.start raw.end) λ new_time_range. ok (
      some (record {
        appointment_id = appointment_id;
        updated_at = raw.updated;
        cancelled = raw.cancelled;
        customer_declined = any (λ declined. declined) raw.declined;
        new_time_range = new_time_range;
      }))
]

abbrev pub keep : {A : Type 0} → Option A → List A → List A
keep none xs = xs
keep (some x) xs = x ∷ xs

unfoldable pub map_events : List RawEvent → Result (List InboundEventChange)
unfolding map_event
map_events [] = ok []
map_events (raw ∷ rest) =
    Outcome.◌>>=◌ (map_event raw)
      λ change. Outcome.◌>>=◌ (map_events rest) λ changes. ok (keep change changes)

-- How a call of Google ends: with events and the next sync token, or with an error, of authorization
-- or another.
pub data Listing : Type 0 where
  listed : List RawEvent → Text → Listing
  auth_error other_error : Listing

-- What the sweep depends on: the client, the listener of committed changes, and the database when
-- the sync token is written.
pub record Outside : Type 0 where
  pub list_events : Text → Text → Option Text → Listing
  pub publish_raises : ReconciledChange → Bool
  pub token_raises : ℕ → Bool

-- The changes of one sweep for one technician, in one unit of work.
unfoldable pub reconcile_each :
    (ℕ → ℕ → AvailabilityInputs)
    → (ℕ → ℕ)
    → List InboundEventChange
    → Action (List (Option ReconciledChange))
reconcile_each inputs clock [] = pure []
reconcile_each inputs clock (change ∷ rest) = reconcile inputs (clock 0) change >>= λ result.
    reconcile_each inputs (λ n. clock (suc n)) rest >>= λ results. pure (result ∷ results)

pub record Synced : Type 0 where
  pub store : Store
  pub connections : Rows
  pub published : List ReconciledChange

abbrev pub told : List (Option ReconciledChange) → List ReconciledChange
told [] = []
told (result ∷ results) = keep result (told results)

pub data Processed : Type 0 where
  processed : ℕ → Processed
  auth_failed failed : Processed

-- The loop over `publish`: what was told, and whether a call raised.
unfoldable pub publish_all :
    (ReconciledChange → Bool) → List ReconciledChange → List ReconciledChange × Bool
publish_all raises [] = ([], false)
publish_all raises (change ∷ rest) =
    let others : List ReconciledChange × Bool = publish_all raises rest in
    if raises change then ([], true) else (change ∷ others.0, others.1)

-- The transaction of the sync token.
abbrev pub write_token : Outside → ℕ → Text → Rows → Answer (Unit {0}) × Rows
write_token outside technician_id next_token rows =
    if outside.token_raises technician_id
    then (raised client_error, rows)
    else set_sync_token technician_id next_token rows

abbrev pub finish : Outside → ℕ → Text → ℕ → Synced → Processed × Synced
finish outside technician_id next_token count w =
    elim (write_token outside technician_id next_token w.connections).0 [
      | raised e ↦ (failed, w)
      | returned u ↦ (
        processed count,
        record w { connections = (write_token outside technician_id next_token w.connections).1 },
      )
    ]

-- The cues after the commit, and then the token.
abbrev pub announce :
    Outside → ℕ → Text → ℕ → List ReconciledChange × Bool → Synced → Processed × Synced
announce outside technician_id next_token count (cued, true) w =
    (failed, record w { published = w.published ++ cued })
announce outside technician_id next_token count (cued, false) w =
    finish outside technician_id next_token count (record w { published = w.published ++ cued })

-- The unit of work, and what follows its commit.
abbrev pub commit :
    Outside
    → ℕ
    → Text
    → ℕ
    → Result (List (Option ReconciledChange)) × Store
    → Synced
    → Processed × Synced
commit outside technician_id next_token count (err e, s) w = (failed, w)
commit outside technician_id next_token count (ok results, s) w =
    announce outside technician_id next_token count
      (publish_all outside.publish_raises (told results)) (record w { store = s })

abbrev pub apply_changes :
    (ℕ → ℕ → AvailabilityInputs)
    → Outside
    → (ℕ → ℕ)
    → ℕ
    → Text
    → Result (List InboundEventChange)
    → Synced
    → Processed × Synced
apply_changes inputs outside clock technician_id next_token (err e) w = (failed, w)
apply_changes inputs outside clock technician_id next_token (ok changes) w =
    commit outside technician_id next_token (length changes)
      (reconcile_each inputs clock changes w.store) w

abbrev pub apply_listing :
    (ℕ → ℕ → AvailabilityInputs) → Outside → (ℕ → ℕ) → ℕ → Listing → Synced → Processed × Synced
apply_listing inputs outside clock technician_id auth_error w = (auth_failed, w)
apply_listing inputs outside clock technician_id other_error w = (failed, w)
apply_listing inputs outside clock technician_id (listed events next_token) w =
    apply_changes inputs outside clock technician_id next_token (map_events events) w

-- `_process_connection`; the calendar is that of the snapshot, the tokens are read again.
unfoldable pub process_connection :
    (ℕ → ℕ → AvailabilityInputs)
    → Outside
    → (ℕ → ℕ)
    → CalendarConnectionRow
    → Synced
    → Processed × Synced
unfolding map_events reconcile_each publish_all
process_connection inputs outside clock connection w =
    elim (find row_technician connection.technician_id w.connections) [
      | none ↦ (failed, w)
      | some row ↦
          apply_listing inputs outside clock connection.technician_id
            (outside.list_events connection.fsm_calendar_id row.encrypted_refresh_token
              row.sync_token)
            w
    ]

-- `_mark_disconnected` swallows its own failure.
abbrev pub mark_disconnected : ℕ → Synced → Synced
mark_disconnected technician_id w = record w {
  connections = (disconnect_technician technician_id w.connections).1;
}

abbrev pub count_one : ℕ → Processed × Synced → ℕ × Synced
count_one technician_id (processed n, w) = (n, w)
count_one technician_id (auth_failed, w) = (0, mark_disconnected technician_id w)
count_one technician_id (failed, w) = (0, w)

unfoldable pub sweep :
    (ℕ → ℕ → AvailabilityInputs) → Outside → (ℕ → ℕ → ℕ) → Rows → Synced → ℕ × Synced
unfolding process_connection
sweep inputs outside clocks [] w = (0, w)
sweep inputs outside clocks (connection ∷ rest) w =
    let one : ℕ × Synced =
      count_one connection.technician_id
        (process_connection inputs outside (clocks 0) connection w) in
    let others : ℕ × Synced = sweep inputs outside (λ n. clocks (suc n)) rest one.1 in
    (one.0 + others.0, others.1)

unfoldable pub poll_once :
    (ℕ → ℕ → AvailabilityInputs) → Outside → (ℕ → ℕ → ℕ) → Synced → ℕ × Synced
unfolding sweep
poll_once inputs outside clocks w = sweep inputs outside clocks (list_connected w.connections) w
