-- ===== src/Assist/Triage.antt =====
-- `TriageService` of backend/src/fsm/assist/application/triage.py, whose service calls are opened by
-- backend/src/fsm/platform/service_call_bridge.py. The chat model and the document index are
-- parameters; a prompt is what build_system_prompt and build_summary_prompt are given.
use field_service_management.Base.Rows.{find}
use field_service_management.Base.{
  any, is_some, ℕ, Bool, false, not, ◌&&◌, Option, none, some, List, [], ◌∷◌, ◌++◌, if◌then◌else◌,
}
use field_service_management.Base.Text.{Text, codes}
use field_service_management.Assist.Summary.{TriageSummary}
use field_service_management.Assist.Conversation
use field_service_management.Assist.Conversation.{
  ConversationStatus, MessageRole, Photo, Message, Turn, went, closed, is_open, is_expired, append,
  identify_equipment, decline_triage, resume_triage, mark_solved, mark_escalated, mark_abandoned,
  is_active,
}
use field_service_management.Assist.Conversations
use field_service_management.Assist.Conversations.{ConversationSummary, is_customer}
use field_service_management.Assist.Photos.{
  list_unbound, delete_unbound, photo_keys, remove_objects,
}
use field_service_management.Assist.Replies.{QuestionSpan}
use field_service_management.Assist.Sources.{SearchHit, DocumentRef}
use field_service_management.Assist.Store.{
  AssistError, ConversationRow, Desk, did, failed, Action, pure, raise, gets, ◌>>=◌, ◌>>◌, modify,
  new_id, Attempt,
}

abbrev pub max_customer_turns : ℕ
max_customer_turns = 12

abbrev pub history_length : ℕ
history_length = 20

abbrev pub grounding_hits : ℕ
grounding_hits = 3

abbrev pub turn_cap_handoff : Text
turn_cap_handoff =
    codes "We have worked through a fair few things without getting this sorted, so I am opening a "
    ++ (codes
          "service call for a technician to take a proper look. You will be asked to pick a visit slot "
        ++ codes "next.")

-- What build_system_prompt is given.
pub record SystemPrompt : Type 0 where
  pub hits : List SearchHit
  pub triage_declined : Bool

-- What a stream gives: its fragments, and whether it raised after them.
pub record Streamed : Type 0 where
  pub fragments : List Text
  pub broke : Bool

-- The collaborators of a service. `summarize` is given the identified equipment; `none` stands for a
-- raise, of `search` too, which is absent where there is no index.
pub record Service : Type 0 where
  pub stream : SystemPrompt → List Message → Streamed
  pub summarize : Option Text → List Message → Option TriageSummary
  pub search : Option (Text → ℕ → Option (List SearchHit))
  pub has_photos : Bool
  pub has_photo_store : Bool

pub record TurnOutcome : Type 0 where
  pub status : ConversationStatus
  pub service_call_id : Option ℕ
  pub service_call_description : Option Text
  pub question : Option QuestionSpan
  pub sources : List DocumentRef

abbrev pub ended_with : ConversationStatus → TurnOutcome
ended_with status = record {
  status = status;
  service_call_id = none;
  service_call_description = none;
  question = none;
  sources = [];
}

-- A mutation of a conversation; it raises ConversationClosed.
abbrev pub or_closed : Turn → Action Conversation.Conversation
or_closed (went c) = pure c
or_closed closed = raise AssistError.conversation_closed

abbrev pub sent_photos : List Message → List Photo
sent_photos [] = []
sent_photos (message ∷ rest) =
    if is_customer message.role then message.photos ++ sent_photos rest else sent_photos rest

abbrev pub keys_of : List Photo → List Text
keys_of [] = []
keys_of (photo ∷ photos) = photo_keys photo.object_key ++ keys_of photos

abbrev pub stage_keys : List Text → Action (Unit {0})
stage_keys keys = modify (λ d. record d { discarded_keys = d.discarded_keys ++ keys })

-- `_discard_photos` and `_discard_unbound`: the objects die after the commit.
unfoldable pub discard_photos : Service → Conversation.Conversation → Action (Unit {0})
discard_photos service c =
    if service.has_photos && service.has_photo_store
    then (gets (list_unbound c.id) >>= λ unbound.
        stage_keys (keys_of (sent_photos c.messages ++ unbound)) >> delete_unbound c.id)
    else pure tt

unfoldable pub drop_unbound : ℕ → List Photo → Action (Unit {0})
drop_unbound conversation_id [] = pure tt
drop_unbound conversation_id (photo ∷ rest) =
    stage_keys (keys_of (photo ∷ rest)) >> delete_unbound conversation_id

unfoldable pub discard_unbound : Service → ℕ → Action (Unit {0})
unfolding drop_unbound
discard_unbound service conversation_id =
    if service.has_photos && service.has_photo_store
    then (gets (list_unbound conversation_id) >>= drop_unbound conversation_id)
    else pure tt

-- After the commit.
unfoldable pub remove_discarded_objects : Action (Unit {0})
remove_discarded_objects = gets (λ d. d.discarded_keys) >>= λ keys.
    remove_objects keys >> modify (λ d. record d { discarded_keys = [] })

abbrev pub new_conversation : ℕ → ℕ → ℕ → Conversation.Conversation
new_conversation id customer_id now = record {
  id = id;
  customer_id = customer_id;
  status = ConversationStatus.active;
  created_at = now;
  updated_at = now;
  messages = [];
  service_call_id = none;
  equipment = none;
  triage_declined = false;
}

-- The handler of ConversationAlreadyOpen: the loser joins the winner.
unfoldable pub joined :
    Conversation.Conversation → Attempt (Unit {0}) × Desk → Attempt Conversation.Conversation × Desk
joined c (did done, d) = (did c, d)
joined c (failed AssistError.conversation_already_open, d) =
    elim (Conversations.find_active_for_customer c.customer_id d) [
      | none ↦ (failed AssistError.conversation_already_open, d)
      | some winner ↦ (did winner, d)
    ]
joined c (failed other, d) = (failed other, d)

unfoldable pub add_or_join : Conversation.Conversation → Action Conversation.Conversation
unfolding joined
add_or_join c d = joined c (Conversations.add c d)

-- What other requests commit between the lookup and the insert: the table refuses a row of theirs
-- that its key or the index of active conversations rules out.
unfoldable pub commit_others : List ConversationRow → List ConversationRow → List ConversationRow
commit_others [] rows = rows
commit_others (other ∷ others) rows = commit_others others (
    if is_some (find Conversations.row_id other.id rows)
    then rows
    else if is_active other.status && any (Conversations.is_active_of other.customer_id) rows
    then rows
    else rows ++ other ∷ [])

unfoldable pub open_new : ℕ → ℕ → List ConversationRow → Action Conversation.Conversation
unfolding add_or_join commit_others
open_new now customer_id others = new_id >>= λ id.
    modify (λ d. record d { conversations = commit_others others d.conversations })
    >> add_or_join (new_conversation id customer_id now)

-- An expired conversation is retired.
unfoldable pub retire : Service → ℕ → Conversation.Conversation → Action (Unit {0})
unfolding discard_photos
retire service now existing = or_closed (mark_abandoned now existing) >>= λ abandoned.
    Conversations.save abandoned >> discard_photos service abandoned

unfoldable pub start_from :
    Service
    → ℕ
    → ℕ
    → List ConversationRow
    → Option Conversation.Conversation
    → Action Conversation.Conversation
unfolding retire open_new
start_from service now customer_id others none = open_new now customer_id others
start_from service now customer_id others (some existing) =
    if not (is_expired now existing)
    then pure existing
    else retire service now existing >> open_new now customer_id others

unfoldable pub start : Service → ℕ → ℕ → List ConversationRow → Action Conversation.Conversation
unfolding start_from
start service now customer_id others =
    gets (Conversations.find_active_for_customer customer_id)
    >>= start_from service now customer_id others

unfoldable pub end_conversation : Service → ℕ → ℕ → ℕ → Action Conversation.Conversation
unfolding discard_photos
end_conversation service now conversation_id customer_id =
    Conversations.get conversation_id customer_id >>= λ c.
    or_closed (mark_abandoned now c) >>= λ abandoned.
    Conversations.save abandoned >> discard_photos service abandoned >> pure abandoned

unfoldable pub history : ℕ → Desk → List ConversationSummary
history customer_id = Conversations.list_ended customer_id history_length
