-- ===== src/Assist/Turns.antt =====
-- `reply` and `outcome` of backend/src/fsm/assist/application/triage.py: what one turn yields, and
-- what it records once the stream is exhausted.
use field_service_management.Base.{
  ℕ, ◌+◌, Option, none, some, List, [], ◌∷◌, ◌++◌, leb, if◌then◌else◌,
}
use field_service_management.Base.Text.{Text}
use field_service_management.Assist.Conversation
use field_service_management.Assist.Conversation.{MessageRole, Photo, Message, is_open}
use field_service_management.Assist.Conversations
use field_service_management.Assist.Photos.{get_unbound}
use field_service_management.Assist.Replies.{Marker, ParsedReply}
use field_service_management.Assist.Sources.{SearchHit, DocumentRef, cited_sources}
use field_service_management.Assist.Store.{
  AssistError, Desk, Attempt, did, failed, Action, pure, raise, ◌>>=◌, ◌>>◌, new_id,
}
use field_service_management.Assist.Streaming.{stream_reply, receive_all, opening}
use field_service_management.Assist.Triage.{
  Service, Streamed, TurnOutcome, max_customer_turns, turn_cap_handoff,
}
use field_service_management.Assist.Answers.{customer_turns, record_answer, search_hits}

-- What the customer was shown, and how the turn ended.
abbrev pub Reply : Type 0
Reply = List Text × (Attempt TurnOutcome × Desk)

-- The photos of the turn.
unfoldable pub attached : Service → ℕ → List ℕ → Action (List Photo)
attached service conversation_id [] = pure []
attached service conversation_id (photo_id ∷ rest) =
    if service.has_photos
    then get_unbound conversation_id (photo_id ∷ rest)
    else raise AssistError.assertion_error

abbrev pub require_open : Conversation.Conversation → Action (Unit {0})
require_open c = if is_open c then pure tt else raise AssistError.conversation_closed

-- The conversation, and the customer's message.
unfoldable pub prepare :
    Service → ℕ → ℕ → ℕ → Text → List ℕ → Action (Conversation.Conversation × Message)
unfolding attached
prepare service asked_at conversation_id customer_id text photo_ids =
    Conversations.get conversation_id customer_id >>= λ c.
    require_open c
    >> (attached service conversation_id photo_ids >>= λ photos. new_id >>= λ question_id. pure (
      c,
      record {
        id = question_id;
        role = MessageRole.customer;
        text = text;
        created_at = asked_at;
        photos = photos;
      },
    ))

abbrev pub handoff : ParsedReply
handoff = record {
  text = turn_cap_handoff;
  marker = some Marker.escalate;
  question = none;
  equipment = none;
  triage_declined = none;
}

-- `outcome`: the turn's sources on whatever the ending built.
abbrev pub with_sources : List DocumentRef → Attempt TurnOutcome × Desk → Attempt TurnOutcome × Desk
with_sources sources (did outcome, d) = (did (record outcome { sources = sources }), d)
with_sources sources (failed e, d) = (failed e, d)

-- A stream that raises leaves nothing behind but what it showed.
unfoldable pub listen :
    Service → ℕ → Conversation.Conversation → Message → List DocumentRef → Streamed → Desk → Reply
listen service now c question sources streamed d =
    if streamed.broke
    then ((receive_all streamed.fragments opening).0, (failed AssistError.model_failed, d))
    else let (shown, parsed) = stream_reply streamed.fragments in
      (shown, with_sources sources (record_answer service now question parsed c d))

unfoldable pub respond :
    Service → ℕ → Conversation.Conversation → Message → Option (List SearchHit) → Desk → Reply
unfolding listen
respond service now c question none d = ([], (failed AssistError.model_failed, d))
respond service now c question (some hits) d =
    listen service now c question (cited_sources hits)
      (service.stream (record { hits = hits; triage_declined = c.triage_declined })
        (c.messages ++ question ∷ []))
      d

-- The turn that reaches the cap is answered with the handoff.
unfoldable pub take_turn : Service → ℕ → Conversation.Conversation → Message → Desk → Reply
unfolding respond
take_turn service now c question d =
    if leb max_customer_turns (customer_turns c.messages + 1)
    then (turn_cap_handoff ∷ [], record_answer service now question handoff c d)
    else respond service now c question (search_hits service c.equipment question.text) d

-- A turn that could not be prepared shows nothing.
unfoldable pub proceed : Service → ℕ → Attempt (Conversation.Conversation × Message) × Desk → Reply
unfolding take_turn
proceed service now (failed e, d) = ([], (failed e, d))
proceed service now (did (c, question), d) = take_turn service now c question d

unfoldable pub reply : Service → ℕ → ℕ → ℕ → ℕ → Text → List ℕ → Desk → Reply
unfolding prepare proceed
reply service asked_at now conversation_id customer_id text photo_ids d =
    proceed service now (prepare service asked_at conversation_id customer_id text photo_ids d)
