-- ===== src/Notifications/Feed/Inbox/Success.antt =====
-- When `add_event` of backend/src/fsm/notifications/adapters/feed_repository.py raises nothing.
use field_service_management.Base.{
  ℕ, suc, ◌<◌, true, false, none, List, [], ◌∷◌, ◌++◌, any, All, All-append, All-mono,
  any-eq-false_of_All, is_some, ◌≡◌, ◌≢◌, refl, arith,
}
use field_service_management.Base.Rows.{find}
use field_service_management.Notifications.Feed.Rows.{IsOfEvent}
use field_service_management.Notifications.Feed.Inbox.{IsFeed}
use field_service_management.Notifications.Feed.{
  NotificationEvent, RecipientRow, Feed, event_id, is_taken, add_recipients, add_event,
}

abbrev pub Distinct : List ℕ → Type 0
Distinct [] = Unit
Distinct (u ∷ us) = All (λ v. v ≢ u) us × Distinct us

-- The row is of another event or of another user.
IsNotFor : ℕ → RecipientRow → ℕ → Type 0
IsNotFor event row user = row.notification_event_id ≡ event → row.user_id ≢ user

none_taken :
    (event user n : ℕ) (rest : List ℕ) (rows : List RecipientRow)
    → All (λ (row : RecipientRow). row.id < n) rows
    → All (λ (row : RecipientRow). All (IsNotFor event row) (user ∷ rest)) rows
    → All
        (λ (other : RecipientRow).
          is_taken
            (record { id = n; notification_event_id = event; user_id = user; read = false })
            other
          ≡ false)
        rows
unfolding IsNotFor
none_taken event user n rest [] below free = tt
none_taken event user n rest (row ∷ rows) below free =
    (ground (arith, below.0, free.0.0), none_taken event user n rest rows below.1 free.1)

add_recipients-some :
    (event : ℕ) (user_ids : List ℕ) (n : ℕ) (rows : List RecipientRow)
    → Distinct user_ids
    → All (λ (row : RecipientRow). row.id < n) rows
    → All (λ (row : RecipientRow). All (IsNotFor event row) user_ids) rows
    → is_some (add_recipients event user_ids n rows) ≡ true
unfolding add_recipients IsNotFor
add_recipients-some event [] n rows d below free = refl
add_recipients-some event (user ∷ rest) n rows d below free =
    let row : RecipientRow = record {
      id = n;
      notification_event_id = event;
      user_id = user;
      read = false;
    } in
    let clear : any (is_taken row) rows ≡ false =
      any-eq-false_of_All (is_taken row) rows (none_taken event user n rest rows below free) in
    ground (
      arith,
      clear,
      add_recipients-some event rest (suc n) (rows ++ row ∷ []) d.1
          (All-append _ rows (row ∷ []) (All-mono rows (λ r b. omega (arith, b)) below)
            (omega arith, tt))
          (All-append _ rows (row ∷ []) (All-mono rows (λ r h. h.1) free)
            (All-mono rest (λ v ne e same. ne (omega (arith, same))) d.0, tt)),
    )

All-always : (P : ℕ → Type 0) (xs : List ℕ) → ((x : ℕ) → P x) → All P xs
All-always P [] h = tt
All-always P (x ∷ xs) h = (h x, All-always P xs h)

find-none :
    (k : ℕ) (events : List NotificationEvent) (row : RecipientRow)
    → find event_id k events ≡ none
    → IsOfEvent events row
    → row.notification_event_id ≢ k
find-none k events row h e same = ground (arith, h, e, same)

pub add_event-some :
    (event : NotificationEvent) (user_ids : List ℕ) (f : Feed)
    → IsFeed f
    → Distinct user_ids
    → find event_id event.id f.events ≡ none
    → is_some (add_event event user_ids f) ≡ true
unfolding add_event IsNotFor
add_event-some event user_ids f ok d fresh = ground (
  arith,
  fresh,
  add_recipients-some event.id user_ids f.next_uuid f.recipients d ok.below (
      All-mono f.recipients
        (λ (row : RecipientRow) there.
          All-always (IsNotFor event.id row) user_ids
            (λ user same own. find-none event.id f.events row fresh there same))
        ok.of_events),
)
