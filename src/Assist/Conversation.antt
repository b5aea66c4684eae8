-- ===== src/Assist/Conversation.antt =====
-- backend/src/fsm/assist/domain/conversation.py. A method returns the conversation as it left it, or
-- raises `ConversationClosed`, which is the one error here. Instants and UUIDs are numbers; the
-- media type of a photo is opaque.
pub mod Endings
use field_service_management.Base.{
  ℕ, ◌+◌, ◌*◌, Bool, true, false, not, ◌&&◌, Option, none, some, List, [], ◌∷◌, ◌++◌, ltb,
  if◌then◌else◌,
}
use field_service_management.Base.Text.{Text}

-- A day, in microseconds.
abbrev pub conversation_ttl : ℕ
conversation_ttl = 86_400_000_000

pub data ConversationStatus : Type 0 where
  active solved escalated abandoned : ConversationStatus

pub data MessageRole : Type 0 where
  customer assistant : MessageRole

pub record Photo : Type 0 where
  pub id : ℕ
  pub filename : Text
  pub media_type : ℕ
  pub size_bytes : ℕ
  pub object_key : Text
  pub created_at : ℕ

pub record Message : Type 0 where
  pub id : ℕ
  pub role : MessageRole
  pub text : Text
  pub created_at : ℕ
  pub photos : List Photo

pub record Conversation : Type 0 where
  pub id : ℕ
  pub customer_id : ℕ
  pub status : ConversationStatus
  pub created_at : ℕ
  pub updated_at : ℕ
  pub messages : List Message
  pub service_call_id : Option ℕ
  pub equipment : Option Text
  pub triage_declined : Bool

-- How a mutation ends: the conversation as it is then, or `ConversationClosed`.
pub data Turn : Type 0 where
  went : Conversation → Turn
  closed : Turn

abbrev pub is_active : ConversationStatus → Bool
is_active ConversationStatus.active = true
is_active ConversationStatus.solved = false
is_active ConversationStatus.escalated = false
is_active ConversationStatus.abandoned = false

abbrev pub is_open : Conversation → Bool
is_open c = is_active c.status

-- `now - self.updated_at > CONVERSATION_TTL`.
unfoldable pub is_expired : ℕ → Conversation → Bool
is_expired now c = is_open c && ltb (c.updated_at + conversation_ttl) now

-- `require_open`, then the rest of the method.
abbrev pub require_open : Conversation → Conversation → Turn
require_open c after = if is_open c then went after else closed

unfoldable pub append : Message → ℕ → Conversation → Turn
append message now c =
    require_open c (record c { messages = c.messages ++ message ∷ []; updated_at = now })

unfoldable pub identify_equipment : Text → Conversation → Turn
identify_equipment identity c = require_open c (record c { equipment = some identity })

unfoldable pub decline_triage : Conversation → Turn
decline_triage c = require_open c (record c { triage_declined = true })

unfoldable pub resume_triage : Conversation → Turn
resume_triage c = require_open c (record c { triage_declined = false })

abbrev pub close : ConversationStatus → ℕ → Conversation → Turn
close status now c = require_open c (record c { status = status; updated_at = now })

unfoldable pub mark_solved : ℕ → Conversation → Turn
mark_solved = close ConversationStatus.solved

-- The service call is set after the close, when that did not raise.
abbrev pub with_call : ℕ → Turn → Turn
with_call service_call_id (went c) = went (record c { service_call_id = some service_call_id })
with_call service_call_id closed = closed

unfoldable pub mark_escalated : ℕ → ℕ → Conversation → Turn
mark_escalated service_call_id now c =
    with_call service_call_id (close ConversationStatus.escalated now c)

unfoldable pub mark_abandoned : ℕ → Conversation → Turn
mark_abandoned = close ConversationStatus.abandoned
