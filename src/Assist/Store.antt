-- ===== src/Assist/Store.antt =====
-- The tables of backend/src/fsm/assist/adapters/orm.py beside those of the scheduling context, the
-- object store of photos, and a call that may raise over them; domain/errors.py. What was flushed
-- stays after a raise, until the unit of work rolls back.
use field_service_management.Base.{ℕ, suc, Bool, Option, List}
use field_service_management.Base.Text.{Text}
use field_service_management.Scheduling.Outcome.{Error}
use field_service_management.Scheduling.Store.{Store}
use field_service_management.Assist.Conversation.{ConversationStatus, MessageRole}

-- `model_failed` is whatever the chat model, the index or the preview maker raises.
pub data AssistError : Type 0 where
  conversation_not_found conversation_closed conversation_already_open : AssistError
  photo_not_found photo_limit_reached unsupported_photo : AssistError
  integrity_error assertion_error model_failed : AssistError
  scheduling_failed : Error → AssistError

-- One row of `assist_conversation`.
pub record ConversationRow : Type 0 where
  pub id : ℕ
  pub customer_id : ℕ
  pub status : ConversationStatus
  pub service_call_id : Option ℕ
  pub equipment : Option Text
  pub triage_declined : Bool
  pub created_at : ℕ
  pub updated_at : ℕ

-- One row of `assist_message`.
pub record MessageRow : Type 0 where
  pub id : ℕ
  pub conversation_id : ℕ
  pub seq : ℕ
  pub role : MessageRole
  pub text : Text
  pub created_at : ℕ

-- One row of `assist_photo`.
pub record PhotoRow : Type 0 where
  pub id : ℕ
  pub conversation_id : ℕ
  pub message_id : Option ℕ
  pub filename : Text
  pub media_type : ℕ
  pub size_bytes : ℕ
  pub object_key : Text
  pub created_at : ℕ

-- The tables, the keys in the object store, the keys that the request has staged for removal, and
-- the tables of the scheduling context, whose counter gives the UUIDs.
pub record Desk : Type 0 where
  pub conversations : List ConversationRow
  pub messages : List MessageRow
  pub photos : List PhotoRow
  pub objects : List Text
  pub discarded_keys : List Text
  pub calls : Store

pub data Attempt (A : Type 0) : Type 0 where
  did : A → Attempt A
  failed : AssistError → Attempt A

abbrev pub Action : Type 0 → Type 0
Action A = Desk → Attempt A × Desk

module _ {A : Type 0} where
  abbrev pub pure : A → Action A
  pure a d = (did a, d)

  abbrev pub raise : AssistError → Action A
  raise e d = (failed e, d)

  abbrev pub gets : (Desk → A) → Action A
  gets f d = (did (f d), d)

infixl 5 ◌>>=◌ ◌>>◌
abbrev pub ◌>>=◌ : {A B : Type 0} → Action A → (A → Action B) → Action B
◌>>=◌ m f d = let (r, d') = m d in elim r [ did a ↦ f a d' | failed e ↦ raise e d' ]

abbrev pub ◌>>◌ : {A B : Type 0} → Action A → Action B → Action B
m >> k = m >>= λ _. k

abbrev pub modify : (Desk → Desk) → Action (Unit {0})
modify f d = (did tt, f d)

abbrev pub new_id : Action ℕ
new_id d = (
  did d.calls.next_uuid,
  record d { calls = record d.calls { next_uuid = suc d.calls.next_uuid } },
)
