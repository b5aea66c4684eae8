-- ===== src/Notifications/Feed/Rows.antt =====
-- The tables of the feed: what appending events and rows, and marking a row, do to the join.
use mathlib.Core.List.{append_assoc, append-nil}
use mathlib.Core.Option.{some-injective}
use field_service_management.Base.{
  ℕ, suc, ◌≤◌, ◌<◌, true, false, none, some, List, [], ◌∷◌, ◌++◌, any, All, All-append, All-mono,
  is_some, Bool-cases, Option-cases, ◌≡◌, ◌≢◌, refl, sym, ap, ◌∙◌, inl, inr, arith,
}
use field_service_management.Base.Rows.{find}
use field_service_management.Notifications.Feed.{
  NotificationEvent, RecipientRow, event_id, is_taken, add_recipients, plus, joined,
}

-- Every row is of an event that is there.
abbrev pub IsOfEvent : List NotificationEvent → RecipientRow → Type 0
IsOfEvent events row = is_some (find event_id row.notification_event_id events) ≡ true

abbrev pub IsUnique : List RecipientRow → Type 0
IsUnique [] = Unit
IsUnique (row ∷ rest) = All (λ (other : RecipientRow). other.id ≢ row.id) rest × IsUnique rest

find-append :
    (k : ℕ) (events more : List NotificationEvent)
    → is_some (find event_id k events) ≡ true
    → find event_id k (events ++ more) ≡ find event_id k events
find-append k [] more h = ground arith
find-append k (event ∷ events) more h = ground (arith, find-append k events more)

pub find-append_last :
    (event : NotificationEvent) (events : List NotificationEvent)
    → find event_id event.id events ≡ none
    → find event_id event.id (events ++ event ∷ []) ≡ some event
find-append_last event [] h = ground arith
find-append_last event (other ∷ events) h = ground (arith, find-append_last event events)

pub joined-append :
    (events : List NotificationEvent) (rows more : List RecipientRow)
    → joined events (rows ++ more) ≡ joined events rows ++ joined events more
unfolding joined
joined-append events [] more = refl
joined-append events (row ∷ rows) more =
    elim (Option-cases (find event_id row.notification_event_id events)) [
      | inl absent ↦ ground (arith, absent, joined-append events rows more)
      | inr (event, e) ↦ ground (arith, e, joined-append events rows more)
    ]

pub joined-more_events :
    (events more : List NotificationEvent) (rows : List RecipientRow)
    → All (IsOfEvent events) rows
    → joined (events ++ more) rows ≡ joined events rows
unfolding joined
joined-more_events events more [] h = refl
joined-more_events events more (row ∷ rows) h = ground (
  arith,
  find-append row.notification_event_id events more h.0,
  joined-more_events events more rows h.1,
)

-- The rows that `add_recipients` appends.
abbrev pub new_rows : ℕ → List ℕ → ℕ → List RecipientRow
new_rows event [] next = []
new_rows event (user_id ∷ rest) next =
    record { id = next; notification_event_id = event; user_id = user_id; read = false }
    ∷ new_rows event rest (suc next)

pub add_recipients-eq :
    (event : ℕ) (user_ids : List ℕ) (next : ℕ) (rows rows' : List RecipientRow)
    → add_recipients event user_ids next rows ≡ some rows'
    → rows' ≡ rows ++ new_rows event user_ids next
unfolding add_recipients
add_recipients-eq event [] next rows rows' h = sym (append-nil rows ∙ some-injective _ _ h)
add_recipients-eq event (user_id ∷ rest) next rows rows' h =
    let row : RecipientRow = record {
      id = next;
      notification_event_id = event;
      user_id = user_id;
      read = false;
    } in
    elim (Bool-cases (any (is_taken row) rows)) [
      | inl taken ↦ ground (arith, h, taken)
      | inr free ↦
          add_recipients-eq event rest (suc next) (rows ++ row ∷ []) rows' (ground (arith, h, free))
          ∙ append_assoc rows (row ∷ []) (new_rows event rest (suc next))
    ]

pub plus_le : (user_ids : List ℕ) (n : ℕ) → n ≤ plus user_ids n
plus_le [] n = omega arith
plus_le (user_id ∷ rest) n = omega (arith, plus_le rest (suc n))

pub new_rows-below :
    (event : ℕ) (user_ids : List ℕ) (n : ℕ)
    → All (λ (row : RecipientRow). row.id < plus user_ids n) (new_rows event user_ids n)
new_rows-below event [] n = tt
new_rows-below event (user_id ∷ rest) n =
    (omega (arith, plus_le rest (suc n)), new_rows-below event rest (suc n))

new_rows-from :
    (event : ℕ) (user_ids : List ℕ) (n m : ℕ)
    → n ≤ m
    → All (λ (row : RecipientRow). n ≤ row.id) (new_rows event user_ids m)
new_rows-from event [] n m h = tt
new_rows-from event (user_id ∷ rest) n m h = (h, new_rows-from event rest n (suc m) (omega arith))

new_rows-IsUnique : (event : ℕ) (user_ids : List ℕ) (n : ℕ) → IsUnique (new_rows event user_ids n)
new_rows-IsUnique event [] n = tt
new_rows-IsUnique event (user_id ∷ rest) n = (
  All-mono (new_rows event rest (suc n)) (λ row h e. omega arith)
      (new_rows-from event rest (suc n) (suc n) (omega arith)),
  new_rows-IsUnique event rest (suc n),
)

append-IsUnique :
    (n : ℕ) (rows more : List RecipientRow)
    → IsUnique rows
    → IsUnique more
    → All (λ (row : RecipientRow). row.id < n) rows
    → All (λ (row : RecipientRow). n ≤ row.id) more
    → IsUnique (rows ++ more)
append-IsUnique n [] more u v below above = v
append-IsUnique n (row ∷ rows) more u v below above = (
  All-append _ rows more u.0 (All-mono more (λ other h e. omega (arith, below.0)) above),
  append-IsUnique n rows more u.1 v below.1 above,
)

pub new_rows-append_IsUnique :
    (event : ℕ) (user_ids : List ℕ) (n : ℕ) (rows : List RecipientRow)
    → IsUnique rows
    → All (λ (row : RecipientRow). row.id < n) rows
    → IsUnique (rows ++ new_rows event user_ids n)
new_rows-append_IsUnique event user_ids n rows u below =
    append-IsUnique n rows (new_rows event user_ids n) u (new_rows-IsUnique event user_ids n) below
      (new_rows-from event user_ids n n (omega arith))

pub new_rows-IsOfEvent :
    (event : NotificationEvent) (events : List NotificationEvent) (user_ids : List ℕ) (n : ℕ)
    → find event_id event.id events ≡ none
    → All (IsOfEvent (events ++ event ∷ [])) (new_rows event.id user_ids n)
new_rows-IsOfEvent event events [] n h = tt
new_rows-IsOfEvent event events (user_id ∷ rest) n h =
    (ap is_some (find-append_last event events h), new_rows-IsOfEvent event events rest (suc n) h)

pub more_events-IsOfEvent :
    (events more : List NotificationEvent) (rows : List RecipientRow)
    → All (IsOfEvent events) rows
    → All (IsOfEvent (events ++ more)) rows
more_events-IsOfEvent events more rows =
    All-mono rows (λ row h. ap is_some (find-append row.notification_event_id events more h) ∙ h)
