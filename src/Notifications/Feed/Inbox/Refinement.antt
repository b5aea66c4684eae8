-- ===== src/Notifications/Feed/Inbox/Refinement.antt =====
-- The tables of backend/src/fsm/notifications/adapters/feed_repository.py against the inboxes.
use mathlib.Core.List.{Perm, perm_append_comm}
use mathlib.Core.List.Perm
use mathlib.Core.Option.{some-injective}
use mathlib.Core.Path.{subst}
use mathlib.Mathlib.Data.Multiset.Defs.{of_list, coe-eq-coe}
use field_service_management.Base.{
  ℕ, suc, Bool, true, false, none, some, List, [], ◌∷◌, ◌++◌, map, filter, All, All-append,
  All-mono, All-filter, filter-append, Bool-cases, Option-cases, ◌≡◌, ◌≢◌, refl, sym, ap, ◌∙◌, inl,
  inr, ◌==◌, if◌then◌else◌, arith,
}
use field_service_management.Base.Rows.{find, find-key, put}
use field_service_management.Base.Sort.{sort_by}
use field_service_management.Base.Sort.Order.{sort_by-Perm, sort_by-map, sort_by-filter}
use field_service_management.Notifications.Feed.Rows.{
  IsUnique, joined-append, joined-more_events, new_rows, add_recipients-eq,
  new_rows-append_IsUnique, new_rows-below, new_rows-IsOfEvent, more_events-IsOfEvent, plus_le,
  find-append_last,
}
use field_service_management.Notifications.Feed.{
  NotificationEvent, RecipientRow, Notification, Feed, event_id, recipient_id, plus, joined,
  add_recipients, add_event, is_listed, newer, list_for_user, mark_read,
}
use field_service_management.Notifications.Feed.Inbox.{
  change_all, expected_all, is_unread, IsFeed, FeedChange, post, read, change, Inboxes, posted,
  marked, expected, view,
}

joined-posted :
    (user : ℕ) (event : NotificationEvent) (events : List NotificationEvent) (user_ids : List ℕ)
    (n : ℕ)
    → find event_id event.id events ≡ none
    → joined (events ++ event ∷ []) (filter (is_listed user false) (new_rows event.id user_ids n))
      ≡ posted user event user_ids n
unfolding joined
joined-posted user event events [] n h = refl
joined-posted user event events (user_id ∷ rest) n h = elim (Bool-cases (user_id == user)) [
  | inl own ↦
      ground (
        arith,
        own,
        find-append_last event events h,
        joined-posted user event events rest (suc n) h,
      )
  | inr other ↦ ground (arith, other, joined-posted user event events rest (suc n) h)
]

-- What a successful `add_event` leaves.
add_event-eq :
    (event : NotificationEvent) (user_ids : List ℕ) (f f' : Feed)
    → add_event event user_ids f ≡ some f'
    → (find event_id event.id f.events ≡ none)
      × (f' ≡ record {
        events = f.events ++ event ∷ [];
        recipients = f.recipients ++ new_rows event.id user_ids f.next_uuid;
        next_uuid = plus user_ids f.next_uuid;
      })
unfolding add_event
add_event-eq event user_ids f f' h = elim (Option-cases (find event_id event.id f.events)) [
  | inr (other, e) ↦ ground (arith, e, h)
  | inl absent ↦ elim (Option-cases (add_recipients event.id user_ids f.next_uuid f.recipients)) [
    | inl taken ↦ ground (arith, absent, taken, h)
    | inr (rows, e) ↦ (
      absent,
      ground (
        arith,
        absent,
        e,
        h,
        add_recipients-eq event.id user_ids f.next_uuid f.recipients rows e,
      ),
    )
  ]
]

mark_all : ℕ → List RecipientRow → List RecipientRow
mark_all id [] = []
mark_all id (row ∷ rows) =
    (if row.id == id then record row { read = true } else row) ∷ mark_all id rows

mark_all-absent :
    (id : ℕ) (rows : List RecipientRow)
    → All (λ (row : RecipientRow). row.id ≢ id) rows
    → mark_all id rows ≡ rows
unfolding mark_all
mark_all-absent id [] h = refl
mark_all-absent id (row ∷ rows) h = ground (arith, mark_all-absent id rows h.1)

find-none :
    (id : ℕ) (rows : List RecipientRow) → find recipient_id id rows ≡ none → mark_all id rows ≡ rows
unfolding mark_all
find-none id [] h = refl
find-none id (row ∷ rows) h = ground (arith, find-none id rows)

put-mark_all :
    (id : ℕ) (rows : List RecipientRow) (row : RecipientRow)
    → IsUnique rows
    → find recipient_id id rows ≡ some row
    → put recipient_id (record row { read = true }) rows ≡ mark_all id rows
unfolding mark_all
put-mark_all id [] row u h = ground arith
put-mark_all id (other ∷ rows) row u h = elim (Bool-cases (other.id == id)) [
  | inl found ↦ ground (
    arith,
    found,
    h,
    mark_all-absent id rows
        (All-mono rows (λ (r : RecipientRow) differs e. differs (ground (arith, e, found))) u.0),
  )
  | inr more ↦
      let rest : find recipient_id id rows ≡ some row = ground (arith, more, h) in
      ground
        (arith, more, find-key recipient_id id rows row rest, put-mark_all id rows row u.1 rest)
]

joined-mark_all :
    (id user : ℕ) (events : List NotificationEvent) (rows : List RecipientRow)
    → joined events (filter (is_listed user false) (mark_all id rows))
      ≡ map (marked id) (joined events (filter (is_listed user false) rows))
unfolding joined mark_all
joined-mark_all id user events [] = refl
joined-mark_all id user events (row ∷ rows) = elim (Bool-cases (row.user_id == user)) [
  | inr other ↦ ground (arith, other, joined-mark_all id user events rows)
  | inl own ↦ elim (Option-cases (find event_id row.notification_event_id events)) [
    | inl absent ↦ ground (arith, own, absent, joined-mark_all id user events rows)
    | inr (event, e) ↦ ground (arith, own, e, joined-mark_all id user events rows)
  ]
]

newer-marked : (id : ℕ) (a b : Notification) → newer (marked id a) (marked id b) ≡ newer a b
newer-marked id a b = ground arith

mark_read-eq :
    (id : ℕ) (f : Feed)
    → IsUnique f.recipients
    → mark_read id f ≡ record f { recipients = mark_all id f.recipients }
unfolding mark_read
mark_read-eq id f u = elim (Option-cases (find recipient_id id f.recipients)) [
  | inl absent ↦ ground (arith, absent, find-none id f.recipients absent)
  | inr (row, e) ↦ ground (arith, e, put-mark_all id f.recipients row u e)
]

All-mark_all :
    (P : RecipientRow → Type 0) (id : ℕ) (rows : List RecipientRow)
    → ((row : RecipientRow) → P row → P (record row { read = true }))
    → All P rows
    → All P (mark_all id rows)
unfolding mark_all
All-mark_all P id [] keeps h = tt
All-mark_all P id (row ∷ rows) keeps h = elim (Bool-cases (row.id == id)) [
  | inl found ↦ rw found (keeps row h.0, All-mark_all P id rows keeps h.1)
  | inr other ↦ rw other (h.0, All-mark_all P id rows keeps h.1)
]

mark_all-IsUnique :
    (id : ℕ) (rows : List RecipientRow) → IsUnique rows → IsUnique (mark_all id rows)
unfolding mark_all
mark_all-IsUnique id [] u = tt
mark_all-IsUnique id (row ∷ rows) u = elim (Bool-cases (row.id == id)) [
  | inl found ↦ rw found (All-mark_all _ id rows (λ r ne. ne) u.0, mark_all-IsUnique id rows u.1)
  | inr other ↦ rw other (All-mark_all _ id rows (λ r ne. ne) u.0, mark_all-IsUnique id rows u.1)
]

Inboxes-ext :
    {m m' : Inboxes}
    → ((user : ℕ) → m.inbox user ≡ m'.inbox user)
    → m.next_uuid ≡ m'.next_uuid
    → m ≡ m'
Inboxes-ext h e i = record { inbox = λ user. h user i; next_uuid = e i }

module _ (f : Feed) (ok : IsFeed f) where
  pub add_event-Perm :
      (event : NotificationEvent) (user_ids : List ℕ) (f' : Feed) (user : ℕ)
      → add_event event user_ids f ≡ some f'
      → Perm
          (list_for_user user false f')
          (posted user event user_ids f.next_uuid ++ list_for_user user false f)
  unfolding list_for_user
  add_event-Perm event user_ids f' user h =
      let p : RecipientRow → Bool = is_listed user false in
      let new : List RecipientRow = new_rows event.id user_ids f.next_uuid in
      let old : List Notification = joined f.events (filter p f.recipients) in
      let after = add_event-eq event user_ids f f' h in
      let both : joined f'.events (filter p f'.recipients)
          ≡ old ++ posted user event user_ids f.next_uuid =
        rw
          (
            after.1,
            filter-append p f.recipients new,
            joined-append (f.events ++ event ∷ []) (filter p f.recipients) (filter p new),
            joined-more_events f.events (event ∷ []) (filter p f.recipients)
                (All-filter _ p f.recipients ok.of_events),
            joined-posted user event f.events user_ids f.next_uuid after.0,
          )
          refl in
      Perm.trans (sort_by-Perm newer (joined f'.events (filter p f'.recipients))) (
        rw both (
          Perm.trans (perm_append_comm old (posted user event user_ids f.next_uuid)) (
            Perm.append_left (posted user event user_ids f.next_uuid)
              (Perm.symm (sort_by-Perm newer old)))))

  list_for_user-mark_read :
      (id user : ℕ)
      → list_for_user user false (mark_read id f) ≡ map (marked id) (list_for_user user false f)
  unfolding list_for_user
  list_for_user-mark_read id user =
      rw (mark_read-eq id f ok.unique, joined-mark_all id user f.events f.recipients)
        (sort_by-map newer (marked id) (newer-marked id)
          (joined f.events (filter (is_listed user false) f.recipients)))

  pub change-IsFeed : (c : FeedChange) (f' : Feed) → change c f ≡ some f' → IsFeed f'
  change-IsFeed (read id) f' h = subst IsFeed (some-injective _ _ h) (
      rw (mark_read-eq id f ok.unique) (record {
        unique = mark_all-IsUnique id f.recipients ok.unique;
        below = All-mark_all _ id f.recipients (λ row b. b) ok.below;
        of_events = All-mark_all _ id f.recipients (λ row e. e) ok.of_events;
      }))
  change-IsFeed (post event user_ids) f' h =
      let after = add_event-eq event user_ids f f' h in
      subst IsFeed (sym after.1) (record {
        unique =
            new_rows-append_IsUnique event.id user_ids f.next_uuid f.recipients ok.unique ok.below;
        below =
            All-append _ f.recipients (new_rows event.id user_ids f.next_uuid)
              (All-mono f.recipients (λ row b. omega (arith, b, plus_le user_ids f.next_uuid))
                ok.below)
              (new_rows-below event.id user_ids f.next_uuid);
        of_events =
            All-append _ f.recipients (new_rows event.id user_ids f.next_uuid)
              (more_events-IsOfEvent f.events (event ∷ []) f.recipients ok.of_events)
              (new_rows-IsOfEvent event f.events user_ids f.next_uuid after.0);
      })

  -- One change of the tables is the change of the inboxes.
  pub view-change :
      (c : FeedChange) (f' : Feed) → change c f ≡ some f' → view f' ≡ expected c (view f)
  unfolding view expected
  view-change (read id) f' h =
      ap view (sym (some-injective _ _ h))
      ∙ Inboxes-ext (λ user. ap of_list (list_for_user-mark_read id user))
          (ap (λ g. g.next_uuid) (mark_read-eq id f ok.unique))
  view-change (post event user_ids) f' h =
      Inboxes-ext (λ user. coe-eq-coe.1 (add_event-Perm event user_ids f' user h))
        (ap (λ g. g.next_uuid) (add_event-eq event user_ids f f' h).1)

-- A list of changes that the tables take is, for the inboxes of the users, the changes one after the
-- other: each post adds one unread notification to the inbox of each of its users and nothing to
-- any other, and each reading marks that notification, in whichever inbox it is, and no other.
pub list_for_user-refines :
    (cs : List FeedChange) (f f' : Feed)
    → IsFeed f
    → change_all cs f ≡ some f'
    → view f' ≡ expected_all cs (view f)
list_for_user-refines [] f f' ok h = ap view (sym (some-injective _ _ h))
list_for_user-refines (c ∷ cs) f f' ok h = elim (Option-cases (change c f)) [
  | inl failed ↦ ground (arith, failed, h)
  | inr (g, e) ↦
      list_for_user-refines cs g f' (change-IsFeed f ok c g e) (ground (arith, e, h))
      ∙ ap (expected_all cs) (view-change f ok c g e)
]

newer-total : (a b : Notification) → newer a b ≡ false → newer b a ≡ true
newer-total a b h = ground arith

newer-transitive : (a b c : Notification) → newer a b ≡ true → newer b c ≡ true → newer a c ≡ true
newer-transitive a b c h k = ground arith

joined-unread :
    (user : ℕ) (events : List NotificationEvent) (rows : List RecipientRow)
    → joined events (filter (is_listed user true) rows)
      ≡ filter is_unread (joined events (filter (is_listed user false) rows))
unfolding joined
joined-unread user events [] = refl
joined-unread user events (row ∷ rows) = elim (Bool-cases (row.user_id == user)) [
  | inr other ↦ ground (arith, other, joined-unread user events rows)
  | inl own ↦ elim (Option-cases (find event_id row.notification_event_id events)) [
    | inl absent ↦ ground (arith, own, absent, joined-unread user events rows)
    | inr (event, e) ↦ ground (arith, own, e, joined-unread user events rows)
  ]
]

-- The unread listing is the unread notifications of the whole listing, in its order.
pub list_for_user-unread :
    (user : ℕ) (f : Feed)
    → list_for_user user true f ≡ filter is_unread (list_for_user user false f)
unfolding list_for_user
list_for_user-unread user f =
    ap (sort_by newer) (joined-unread user f.events f.recipients)
    ∙ sort_by-filter newer newer-total newer-transitive is_unread
        (joined f.events (filter (is_listed user false) f.recipients))
