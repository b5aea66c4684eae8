-- ===== src/Notifications/Feed/Inbox.antt =====
-- The feed as one inbox for each user, a multiset of notifications: the promise of
-- backend/src/fsm/notifications/ports/feed_repository.py, and that the tables keep it.
pub mod Refinement
pub mod Success
use mathlib.Core.List.{Perm}
use mathlib.Core.List.Perm
use mathlib.Core.Path.{fun_ext}
use mathlib.Mathlib.Data.Multiset.Defs.{Multiset, of_list, coe-eq-coe}
use mathlib.Mathlib.Data.Multiset.AddSub.{add}
use mathlib.Mathlib.Data.Multiset.MapFold as Multiset
use field_service_management.Base.{
  ℕ, suc, ◌≤◌, ◌<◌, Bool, true, false, not, ◌&&◌, Option, none, some, List, [], ◌∷◌, ◌++◌, map,
  filter, All, All-append, All-mono, All-filter, filter-append, Bool-cases, Option-cases, ◌≡◌, ◌≢◌,
  refl, sym, ap, ◌∙◌, inl, inr, leb, ◌==◌, if◌then◌else◌, arith,
}
use field_service_management.Base.Rows.{find, put}
use field_service_management.Base.Sort.{sort_by}
use field_service_management.Base.Sort.Order.{sort_by-Perm, sort_by-map, sort_by-filter}
use field_service_management.Notifications.Feed.Rows.{
  IsUnique, IsOfEvent, joined-append, joined-more_events, new_rows, add_recipients-eq,
  new_rows-append_IsUnique, new_rows-below, new_rows-IsOfEvent, more_events-IsOfEvent, plus_le,
}
use field_service_management.Notifications.Feed.{
  NotificationEvent, RecipientRow, Notification, Feed, event_id, recipient_id, plus,
  to_notification, joined, add_recipients, add_event, is_listed, newer, list_for_user, mark_read,
}

-- What the tables hold between two transactions.
pub record IsFeed (f : Feed) : Type 0 where
  pub unique : IsUnique f.recipients
  pub below : All (λ (row : RecipientRow). row.id < f.next_uuid) f.recipients
  pub of_events : All (IsOfEvent f.events) f.recipients

pub data FeedChange : Type 0 where
  post : NotificationEvent → List ℕ → FeedChange
  read : ℕ → FeedChange

abbrev pub change : FeedChange → Feed → Option Feed
change (post event user_ids) f = add_event event user_ids f
change (read id) f = some (mark_read id f)

-- The promise.

pub record Inboxes : Type 0 where
  pub inbox : ℕ → Multiset Notification
  pub next_uuid : ℕ

abbrev pub unread : ℕ → ℕ → NotificationEvent → Notification
unread id user_id event = record {
  id = id;
  user_id = user_id;
  kind = event.kind;
  subject = event.subject;
  body = event.body;
  created_at = event.created_at;
  read = false;
}

-- What `user` gets of an event for `user_ids`.
abbrev pub posted : ℕ → NotificationEvent → List ℕ → ℕ → List Notification
posted user event [] next = []
posted user event (user_id ∷ rest) next =
    if user_id == user
    then unread next user_id event ∷ posted user event rest (suc next)
    else posted user event rest (suc next)

abbrev pub marked : ℕ → Notification → Notification
marked id n = if n.id == id then record n { read = true } else n

unfoldable pub expected : FeedChange → Inboxes → Inboxes
expected (post event user_ids) m = record {
  inbox = λ user. add (of_list (posted user event user_ids m.next_uuid)) (m.inbox user);
  next_uuid = plus user_ids m.next_uuid;
}
expected (read id) m = record m { inbox = λ user. Multiset.map (marked id) (m.inbox user) }

-- The inboxes that the tables stand for.
unfoldable pub view : Feed → Inboxes
unfolding list_for_user
view f = record { inbox = λ user. of_list (list_for_user user false f); next_uuid = f.next_uuid }

-- The state after a list of changes; `none` where one of them fails.
abbrev pub change_all : List FeedChange → Feed → Option Feed
change_all [] f = some f
change_all (c ∷ cs) f = elim (change c f) [ none ↦ none | some g ↦ change_all cs g ]

abbrev pub expected_all : List FeedChange → Inboxes → Inboxes
expected_all [] m = m
expected_all (c ∷ cs) m = expected_all cs (expected c m)

abbrev pub is_unread : Notification → Bool
is_unread n = not n.read
