-- ===== src/Assist/Answers.antt =====
-- `_record_answer` of `TriageService`, backend/src/fsm/assist/application/triage.py: both messages,
-- the markers, the ending and its photos.
use field_service_management.Base.{
  ℕ, suc, Bool, true, false, Option, none, some, List, [], ◌∷◌, ◌++◌, map, if◌then◌else◌,
}
use field_service_management.Base.Text.{Text}
use field_service_management.Scheduling.Outcome.{ok, err}
use field_service_management.Scheduling.ServiceCall.{ServiceCall, ServiceCallAttachment}
use field_service_management.Scheduling.Store
use field_service_management.Scheduling.Opening.{open_service_call}
use field_service_management.Scheduling.Repositories.Attachments.{add_all}
use field_service_management.Assist.Summary.{TriageSummary, headline, render}
use field_service_management.Assist.Conversation
use field_service_management.Assist.Conversation.{
  ConversationStatus, MessageRole, Photo, Message, Turn, went, closed, is_open, is_expired, append,
  identify_equipment, decline_triage, resume_triage, mark_solved, mark_escalated, mark_abandoned,
}
use field_service_management.Assist.Conversations
use field_service_management.Assist.Conversations.{ConversationSummary, is_customer}
use field_service_management.Assist.Photos.{bind}
use field_service_management.Assist.Replies.{Marker, ParsedReply}
use field_service_management.Assist.Sources.{SearchHit}
use field_service_management.Assist.Store.{
  AssistError, did, failed, Action, pure, raise, ◌>>=◌, ◌>>◌, new_id,
}
use field_service_management.Assist.Triage.{
  Service, TurnOutcome, ended_with, or_closed, sent_photos, discard_photos, discard_unbound,
  grounding_hits,
}

abbrev pub customer_turns : List Message → ℕ
customer_turns [] = 0
customer_turns (message ∷ rest) =
    if is_customer message.role then suc (customer_turns rest) else customer_turns rest

-- A call of the scheduling context.
abbrev pub on_calls : {A : Type 0} → Store.Action A → Action A
on_calls action d =
    let (r, s) = action d.calls in
    elim r [
      | ok a ↦ (did a, record d { calls = s })
      | err e ↦ (failed (AssistError.scheduling_failed e), record d { calls = s })
    ]

abbrev pub to_attachment : ℕ → Photo → ServiceCallAttachment
to_attachment service_call_id photo = record {
  id = photo.id;
  service_call_id = service_call_id;
  filename = photo.filename;
  media_type = photo.media_type;
  size_bytes = photo.size_bytes;
  object_key = photo.object_key;
  created_at = photo.created_at;
}

-- `SchedulingServiceCallOpener.open`, of a conversation's summary.
unfoldable pub open_call : ℕ → ℕ → TriageSummary → List Photo → Action ServiceCall
open_call now customer_id summary photos =
    on_calls
      (open_service_call now customer_id (render summary) (some summary) (some (headline summary)))
    >>= λ service_call.
        on_calls (add_all (map (to_attachment service_call.id) photos)) >> pure service_call

abbrev pub or_model_failed : {A : Type 0} → Option A → Action A
or_model_failed none = raise AssistError.model_failed
or_model_failed (some a) = pure a

abbrev pub apply_equipment : Option Text → Conversation.Conversation → Turn
apply_equipment none c = went c
apply_equipment (some identity) c = identify_equipment identity c

abbrev pub apply_choice : Option Bool → Conversation.Conversation → Turn
apply_choice none c = went c
apply_choice (some true) c = decline_triage c
apply_choice (some false) c = resume_triage c

infixl 5 ◌then◌
abbrev pub ◌then◌ : Turn → (Conversation.Conversation → Turn) → Turn
went c then f = f c
closed then f = closed

abbrev pub answer_message : ℕ → ℕ → Text → Message
answer_message id now text = record {
  id = id;
  role = MessageRole.assistant;
  text = text;
  created_at = now;
  photos = [];
}

-- Both messages, then what the markers declared.
abbrev pub record_turn : ℕ → ℕ → Message → ParsedReply → Conversation.Conversation → Turn
record_turn now answer_id question parsed c =
    append question question.created_at c
    then append (answer_message answer_id now parsed.text) now
    then apply_equipment parsed.equipment
    then apply_choice parsed.triage_declined

-- The branch on the ending marker: the conversation as it ends, and the outcome.
unfoldable pub apply_ending :
    Service
    → ℕ
    → ParsedReply
    → Option Marker
    → Conversation.Conversation
    → Action (Conversation.Conversation × TurnOutcome)
unfolding open_call
apply_ending service now parsed (some Marker.solved) c =
    or_closed (mark_solved now c) >>= λ after. pure (after, ended_with ConversationStatus.solved)
apply_ending service now parsed (some Marker.closed) c =
    or_closed (mark_abandoned now c) >>= λ after.
    pure (after, ended_with ConversationStatus.abandoned)
apply_ending service now parsed (some Marker.escalate) c =
    or_model_failed (service.summarize c.equipment c.messages) >>= λ summary.
    open_call now c.customer_id summary (sent_photos c.messages) >>= λ opened.
    or_closed (mark_escalated opened.id now c) >>= λ after. pure (
      after,
      record (ended_with ConversationStatus.escalated) {
        service_call_id = some opened.id;
        service_call_description = some (render summary);
      },
    )
apply_ending service now parsed other c =
    pure (c, record (ended_with ConversationStatus.active) { question = parsed.question })

-- What goes with the ending.
unfoldable pub discard_after :
    Service → Option Marker → Conversation.Conversation → Action (Unit {0})
unfolding discard_photos discard_unbound
discard_after service (some Marker.solved) c = discard_photos service c
discard_after service (some Marker.closed) c = discard_photos service c
discard_after service (some Marker.escalate) c = discard_unbound service c.id
discard_after service other c = pure tt

unfoldable pub bind_photos : Service → Message → Action (Unit {0})
bind_photos service question = elim question.photos [
  | [] ↦ pure tt
  | photo ∷ rest ↦
      if service.has_photos then bind question.id (map (λ p. p.id) question.photos) else pure tt
]

unfoldable pub record_answer :
    Service → ℕ → Message → ParsedReply → Conversation.Conversation → Action TurnOutcome
unfolding apply_ending discard_after bind_photos
record_answer service now question parsed c = new_id >>= λ answer_id.
    or_closed (record_turn now answer_id question parsed c) >>= λ recorded.
    apply_ending service now parsed parsed.marker recorded >>= λ (ended, outcome).
    Conversations.save ended
    >> bind_photos service question
    >> discard_after service parsed.marker ended
    >> pure outcome

-- `_search_query`.
abbrev pub search_query : Option Text → Text → Text
search_query none text = text
search_query (some equipment) text = equipment ++ (b'\n' ∷ text)

abbrev pub search_hits : Service → Option Text → Text → Option (List SearchHit)
search_hits service equipment text = elim service.search [
  | none ↦ some []
  | some search ↦ search (search_query equipment text) grounding_hits
]
