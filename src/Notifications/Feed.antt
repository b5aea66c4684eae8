-- ===== src/Notifications/Feed.antt =====
-- backend/src/fsm/notifications/adapters/feed_repository.py over the tables of adapters/orm.py, and
-- domain/notification.py. Events of one instant are listed in the order of their rows.
pub mod Rows
pub mod Inbox
use field_service_management.Base.{
  ℕ, suc, Bool, true, false, not, ◌&&◌, ◌||◌, Option, none, some, List, [], ◌∷◌, ◌++◌, filter, map,
  any, is_some, leb, ◌==◌, if◌then◌else◌,
}
use field_service_management.Base.Rows.{find, put}
use field_service_management.Base.Sort.{sort_by}
use field_service_management.Base.Text.{Text}

pub data NotificationKind : Type 0 where
  booked rescheduled reschedule_rejected updated cancelled : NotificationKind

-- `NotificationEvent`, and one row of `notification_event`.
pub record NotificationEvent : Type 0 where
  pub id : ℕ
  pub kind : NotificationKind
  pub subject : Text
  pub body : Text
  pub created_at : ℕ

-- One row of `notification_recipient`.
pub record RecipientRow : Type 0 where
  pub id : ℕ
  pub notification_event_id : ℕ
  pub user_id : ℕ
  pub read : Bool

pub record Notification : Type 0 where
  pub id : ℕ
  pub user_id : ℕ
  pub kind : NotificationKind
  pub subject : Text
  pub body : Text
  pub created_at : ℕ
  pub read : Bool

-- The tables; `uuid4` counts up.
pub record Feed : Type 0 where
  pub events : List NotificationEvent
  pub recipients : List RecipientRow
  pub next_uuid : ℕ

abbrev pub event_id : NotificationEvent → ℕ
event_id event = event.id

abbrev pub recipient_id : RecipientRow → ℕ
recipient_id row = row.id

-- The primary key, and `uq_notification_recipient`.
abbrev pub is_taken : RecipientRow → RecipientRow → Bool
is_taken row other =
    other.id == row.id
    || (other.notification_event_id == row.notification_event_id && other.user_id == row.user_id)

-- The rows that the loop adds, flushed one by one; `none` for an IntegrityError.
unfoldable pub add_recipients : ℕ → List ℕ → ℕ → List RecipientRow → Option (List RecipientRow)
add_recipients event [] next rows = some rows
add_recipients event (user_id ∷ rest) next rows =
    let row : RecipientRow = record {
      id = next;
      notification_event_id = event;
      user_id = user_id;
      read = false;
    } in
    let added = add_recipients event rest (suc next) (rows ++ row ∷ []) in
    if any (is_taken row) rows then none else added

abbrev pub plus : List ℕ → ℕ → ℕ
plus [] n = n
plus (user_id ∷ rest) n = plus rest (suc n)

unfoldable pub add_event : NotificationEvent → List ℕ → Feed → Option Feed
add_event event user_ids f = elim (find event_id event.id f.events) [
  | some other ↦ none
  | none ↦ elim (add_recipients event.id user_ids f.next_uuid f.recipients) [
    | none ↦ none
    | some recipients ↦ some (record {
      events = f.events ++ event ∷ [];
      recipients = recipients;
      next_uuid = plus user_ids f.next_uuid;
    })
  ]
]

abbrev pub to_notification : RecipientRow → NotificationEvent → Notification
to_notification recipient event = record {
  id = recipient.id;
  user_id = recipient.user_id;
  kind = event.kind;
  subject = event.subject;
  body = event.body;
  created_at = event.created_at;
  read = recipient.read;
}

-- The inner join.
unfoldable pub joined : List NotificationEvent → List RecipientRow → List Notification
joined events [] = []
joined events (row ∷ rows) = elim (find event_id row.notification_event_id events) [
  | none ↦ joined events rows
  | some event ↦ to_notification row event ∷ joined events rows
]

abbrev pub is_listed : ℕ → Bool → RecipientRow → Bool
is_listed user_id unread_only row = row.user_id == user_id && not (unread_only && row.read)

-- `ORDER BY created_at DESC`.
abbrev pub newer : Notification → Notification → Bool
newer a b = leb b.created_at a.created_at

unfoldable pub list_for_user : ℕ → Bool → Feed → List Notification
unfolding joined
list_for_user user_id unread_only f =
    sort_by newer (joined f.events (filter (is_listed user_id unread_only) f.recipients))

unfoldable pub mark_read : ℕ → Feed → Feed
mark_read id f = elim (find recipient_id id f.recipients) [
  | none ↦ f
  | some row ↦ record f { recipients = put recipient_id (record row { read = true }) f.recipients }
]
