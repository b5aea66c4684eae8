-- ===== src/Assist/Orderly/Turns.antt =====
-- A turn, `reply`, keeps the tables in order.
use field_service_management.Base.{
  ℕ, ◌+◌, refl, sym, Option, none, some, List, [], ◌∷◌, ◌++◌, map, leb, Bool-cases, inl, inr,
  if◌then◌else◌,
}
use mathlib.Core.Path.{subst}
use field_service_management.Base.Text.{Text}
use field_service_management.Scheduling.Outcome.{ok, err}
use field_service_management.Scheduling.ServiceCall.{ServiceCall}
use field_service_management.Scheduling.Store
use field_service_management.Scheduling.Opening.{open_service_call}
use field_service_management.Scheduling.Repositories.Attachments.{add_all}
use field_service_management.Assist.Summary.{TriageSummary, headline, render}
use field_service_management.Assist.Conversation
use field_service_management.Assist.Conversation.{
  ConversationStatus, MessageRole, Photo, Message, is_open, mark_solved, mark_abandoned,
  mark_escalated,
}
use field_service_management.Assist.Conversations
use field_service_management.Assist.Photos.{bind, get_unbound}
use field_service_management.Assist.Replies.{Marker, ParsedReply}
use field_service_management.Assist.Sources.{SearchHit, DocumentRef, cited_sources}
use field_service_management.Assist.Store.{
  AssistError, Desk, Attempt, did, failed, Action, pure, raise, new_id, ◌>>=◌, ◌>>◌,
}
use field_service_management.Assist.Triage.{
  max_customer_turns, Service, Streamed, TurnOutcome, ended_with, or_closed, sent_photos,
}
use field_service_management.Assist.Answers.{
  on_calls, to_attachment, open_call, or_model_failed, record_turn, apply_ending, discard_after,
  bind_photos, record_answer, customer_turns, search_hits,
}
use field_service_management.Assist.Turns.{
  attached, require_open, prepare, with_sources, listen, respond, take_turn, reply, proceed,
  handoff,
}
use field_service_management.Assist.Streaming.{stream_reply}
use field_service_management.Assist.Orderly.{IsOrderly}
use field_service_management.Assist.Orderly.Calls.{
  IsOrderly-with, save-IsOrderly, bind-IsOrderly, get_unbound-same, get-same,
}
use field_service_management.Assist.Orderly.Triage.{
  or_closed-IsOrderly, new_id-IsOrderly, discard_photos-IsOrderly, discard_unbound-IsOrderly,
}
use field_service_management.Assist.Triples.{Keeps, Keeps-bind, Keeps-if}

on_calls-IsOrderly : {A : Type 0} (action : Store.Action A) → Keeps IsOrderly (on_calls action)
on_calls-IsOrderly {A} action d o =
    elim (action d.calls).0
      as (λ r.
        IsOrderly
          (elim r as (λ x. Attempt A × Desk) [
            | ok a ↦ (did a, record d { calls = (action d.calls).1 })
            | err e ↦
                (failed (AssistError.scheduling_failed e), record d { calls = (action d.calls).1 })
          ]).1) [
            | ok a ↦ IsOrderly-with d (record d { calls = (action d.calls).1 }) refl refl o
            | err e ↦ IsOrderly-with d (record d { calls = (action d.calls).1 }) refl refl o
          ]

open_call-IsOrderly :
    (now customer : ℕ) (summary : TriageSummary) (photos : List Photo)
    → Keeps IsOrderly (open_call now customer summary photos)
unfolding open_call
open_call-IsOrderly now customer summary photos =
    Keeps-bind IsOrderly
      (on_calls
        (open_service_call now customer (render summary) (some summary) (some (headline summary))))
      (λ (sc : ServiceCall). on_calls (add_all (map (to_attachment sc.id) photos)) >> pure sc)
      (on_calls-IsOrderly
        (open_service_call now customer (render summary) (some summary) (some (headline summary))))
      (λ (sc : ServiceCall).
        Keeps-bind IsOrderly (on_calls (add_all (map (to_attachment sc.id) photos))) (λ _. pure sc)
          (on_calls-IsOrderly (add_all (map (to_attachment sc.id) photos))) (λ _ d o. o))

or_model_failed-IsOrderly : {A : Type 0} (a : Option A) → Keeps IsOrderly (or_model_failed a)
or_model_failed-IsOrderly none d o = o
or_model_failed-IsOrderly (some a) d o = o

module _ (service : Service) (now : ℕ) (parsed : ParsedReply) (c : Conversation.Conversation) where
  apply_ending-IsOrderly :
      (marker : Option Marker) → Keeps IsOrderly (apply_ending service now parsed marker c)
  unfolding apply_ending
  apply_ending-IsOrderly (some Marker.solved) =
      Keeps-bind IsOrderly (or_closed (mark_solved now c))
        (λ after. pure (after, ended_with ConversationStatus.solved))
        (or_closed-IsOrderly (mark_solved now c)) (λ after d o. o)
  apply_ending-IsOrderly (some Marker.closed) =
      Keeps-bind IsOrderly (or_closed (mark_abandoned now c))
        (λ after. pure (after, ended_with ConversationStatus.abandoned))
        (or_closed-IsOrderly (mark_abandoned now c)) (λ after d o. o)
  apply_ending-IsOrderly (some Marker.escalate) =
      Keeps-bind IsOrderly (or_model_failed (service.summarize c.equipment c.messages)) opening_of
        (or_model_failed-IsOrderly (service.summarize c.equipment c.messages))
        (λ summary.
          Keeps-bind IsOrderly (open_call now c.customer_id summary (sent_photos c.messages))
            (escalated summary)
            (open_call-IsOrderly now c.customer_id summary (sent_photos c.messages))
            (λ opened.
              Keeps-bind IsOrderly (or_closed (mark_escalated opened.id now c))
                (λ after. pure (after, escalation summary opened))
                (or_closed-IsOrderly (mark_escalated opened.id now c)) (λ after d o. o)))
    where
      escalation : TriageSummary → ServiceCall → TurnOutcome
      escalation summary opened = record (ended_with ConversationStatus.escalated) {
        service_call_id = some opened.id;
        service_call_description = some (render summary);
      }

      escalated : TriageSummary → ServiceCall → Action (Conversation.Conversation × TurnOutcome)
      escalated summary opened = or_closed (mark_escalated opened.id now c) >>= λ after.
          pure (after, escalation summary opened)

      opening_of : TriageSummary → Action (Conversation.Conversation × TurnOutcome)
      opening_of summary =
          open_call now c.customer_id summary (sent_photos c.messages) >>= escalated summary
  apply_ending-IsOrderly _ = λ d o. o

  discard_after-IsOrderly :
      (marker : Option Marker) → Keeps IsOrderly (discard_after service marker c)
  unfolding discard_after
  discard_after-IsOrderly (some Marker.solved) = discard_photos-IsOrderly service c
  discard_after-IsOrderly (some Marker.closed) = discard_photos-IsOrderly service c
  discard_after-IsOrderly (some Marker.escalate) = discard_unbound-IsOrderly service c.id
  discard_after-IsOrderly _ = λ d o. o

bind_photos-IsOrderly :
    (service : Service) (question : Message) → Keeps IsOrderly (bind_photos service question)
unfolding bind_photos
bind_photos-IsOrderly service question d o =
    elim question.photos
      as (λ photos.
        IsOrderly
          ((elim photos as (λ x. Action (Unit {0})) [
            | [] ↦ pure tt
            | photo ∷ rest ↦
                if service.has_photos
                then bind question.id (map (λ p. p.id) question.photos)
                else pure tt
          ])
            d).1) [
              | [] ↦ o
              | photo ∷ rest ↦
                  Keeps-if IsOrderly service.has_photos
                    (bind question.id (map (λ p. p.id) question.photos)) (pure tt)
                    (bind-IsOrderly question.id (map (λ p. p.id) question.photos)) (λ d o. o) d o
            ]

module _ (service : Service) (now : ℕ) where
  save_turn : Message → ParsedReply → Conversation.Conversation → TurnOutcome → Action TurnOutcome
  save_turn question parsed ended outcome =
      Conversations.save ended
      >> bind_photos service question
      >> discard_after service parsed.marker ended
      >> pure outcome

  save_turn-IsOrderly :
      (question : Message) (parsed : ParsedReply) (ended : Conversation.Conversation)
      (outcome : TurnOutcome)
      → Keeps IsOrderly (save_turn question parsed ended outcome)
  unfolding save_turn
  save_turn-IsOrderly question parsed ended outcome =
      Keeps-bind IsOrderly
        (Conversations.save ended
          >> bind_photos service question
          >> discard_after service parsed.marker ended)
        (λ _. pure outcome)
        (Keeps-bind IsOrderly (Conversations.save ended >> bind_photos service question)
          (λ _. discard_after service parsed.marker ended)
          (Keeps-bind IsOrderly (Conversations.save ended) (λ _. bind_photos service question)
            (save-IsOrderly ended) (λ _. bind_photos-IsOrderly service question))
          (λ _. discard_after-IsOrderly service now parsed ended parsed.marker))
        (λ _ d o. o)

  record_answer-IsOrderly :
      (question : Message) (parsed : ParsedReply) (c : Conversation.Conversation)
      → Keeps IsOrderly (record_answer service now question parsed c)
  unfolding record_answer save_turn
  record_answer-IsOrderly question parsed c =
      Keeps-bind IsOrderly new_id
        (λ answer_id. or_closed (record_turn now answer_id question parsed c) >>= ending)
        new_id-IsOrderly
        (λ answer_id.
          Keeps-bind IsOrderly (or_closed (record_turn now answer_id question parsed c)) ending
            (or_closed-IsOrderly (record_turn now answer_id question parsed c))
            (λ recorded.
              Keeps-bind IsOrderly (apply_ending service now parsed parsed.marker recorded)
                (λ r. save_turn question parsed r.0 r.1)
                (apply_ending-IsOrderly service now parsed recorded parsed.marker)
                (λ r. save_turn-IsOrderly question parsed r.0 r.1)))
    where
      ending : Conversation.Conversation → Action TurnOutcome
      ending recorded = apply_ending service now parsed parsed.marker recorded >>= λ r.
          save_turn question parsed r.0 r.1

attached-IsOrderly :
    (service : Service) (conversation : ℕ) (ids : List ℕ)
    → Keeps IsOrderly (attached service conversation ids)
unfolding attached
attached-IsOrderly service conversation [] = λ d o. o
attached-IsOrderly service conversation (id ∷ ids) =
    Keeps-if IsOrderly service.has_photos (get_unbound conversation (id ∷ ids))
      (raise AssistError.assertion_error)
      (λ d o. subst IsOrderly (sym (get_unbound-same conversation (id ∷ ids) d)) o) (λ d o. o)

require_open-IsOrderly : (c : Conversation.Conversation) → Keeps IsOrderly (require_open c)
require_open-IsOrderly c =
    Keeps-if IsOrderly (is_open c) (pure tt) (raise AssistError.conversation_closed) (λ d o. o)
      (λ d o. o)

prepare-IsOrderly :
    (service : Service) (asked conversation customer : ℕ) (text : Text) (ids : List ℕ)
    → Keeps IsOrderly (prepare service asked conversation customer text ids)
unfolding prepare
prepare-IsOrderly service asked conversation customer text ids =
    Keeps-bind IsOrderly (Conversations.get conversation customer)
      (λ c. require_open c >> asked_with c)
      (λ d o. subst IsOrderly (sym (get-same conversation customer d)) o)
      (λ c.
        Keeps-bind IsOrderly (require_open c) (λ _. asked_with c) (require_open-IsOrderly c)
          (λ _.
            Keeps-bind IsOrderly (attached service conversation ids) (with_id c)
              (attached-IsOrderly service conversation ids)
              (λ photos.
                Keeps-bind IsOrderly new_id (answer c photos) new_id-IsOrderly (λ id d o. o))))
  where
    question_of : ℕ → List Photo → Message
    question_of id photos = record {
      id = id;
      role = MessageRole.customer;
      text = text;
      created_at = asked;
      photos = photos;
    }

    answer :
        Conversation.Conversation → List Photo → ℕ → Action (Conversation.Conversation × Message)
    answer c photos id = pure (c, question_of id photos)

    with_id : Conversation.Conversation → List Photo → Action (Conversation.Conversation × Message)
    with_id c photos = new_id >>= answer c photos

    asked_with : Conversation.Conversation → Action (Conversation.Conversation × Message)
    asked_with c = attached service conversation ids >>= with_id c

with_sources-IsOrderly :
    (sources : List DocumentRef) (out : Attempt TurnOutcome × Desk)
    → IsOrderly out.1
    → IsOrderly (with_sources sources out).1
with_sources-IsOrderly sources (did outcome, d) o = o
with_sources-IsOrderly sources (failed e, d) o = o

module _ (service : Service) (now : ℕ) (c : Conversation.Conversation) (question : Message) where
  listen-IsOrderly :
      (sources : List DocumentRef) (streamed : Streamed) (d : Desk)
      → IsOrderly d
      → IsOrderly (listen service now c question sources streamed d).1.1
  unfolding listen
  listen-IsOrderly sources streamed d o = elim (Bool-cases streamed.broke) [
    | inl broke ↦ rw (broke, listen) o
    | inr whole ↦
        rw (whole, listen)
          (with_sources-IsOrderly sources
            (record_answer service now question (stream_reply streamed.fragments).1 c d)
            (record_answer-IsOrderly service now question (stream_reply streamed.fragments).1 c d
              o))
  ]

  respond-IsOrderly :
      (hits : Option (List SearchHit)) (d : Desk)
      → IsOrderly d
      → IsOrderly (respond service now c question hits d).1.1
  unfolding respond
  respond-IsOrderly none d o = o
  respond-IsOrderly (some hits) d o =
      listen-IsOrderly (cited_sources hits)
        (service.stream (record { hits = hits; triage_declined = c.triage_declined })
          (c.messages ++ question ∷ []))
        d o

  take_turn-IsOrderly :
      (d : Desk) → IsOrderly d → IsOrderly (take_turn service now c question d).1.1
  unfolding take_turn
  take_turn-IsOrderly d o =
      elim (Bool-cases (leb max_customer_turns (customer_turns c.messages + 1))) [
        | inl last ↦
            rw (last, take_turn) (record_answer-IsOrderly service now question handoff c d o)
        | inr more ↦
            rw (more, take_turn)
              (respond-IsOrderly (search_hits service c.equipment question.text) d o)
      ]

proceed-IsOrderly :
    (service : Service) (now : ℕ) (out : Attempt (Conversation.Conversation × Message) × Desk)
    → IsOrderly out.1
    → IsOrderly (proceed service now out).1.1
unfolding proceed
proceed-IsOrderly service now (failed e, d) o = o
proceed-IsOrderly service now (did (c, question), d) o =
    take_turn-IsOrderly service now c question d o

pub reply-IsOrderly :
    (service : Service) (asked now conversation customer : ℕ) (text : Text) (ids : List ℕ)
    (d : Desk)
    → IsOrderly d
    → IsOrderly (reply service asked now conversation customer text ids d).1.1
unfolding reply
reply-IsOrderly service asked now conversation customer text ids d o =
    proceed-IsOrderly service now (prepare service asked conversation customer text ids d)
      (prepare-IsOrderly service asked conversation customer text ids d o)
