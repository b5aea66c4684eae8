-- ===== src/Assist/Orderly/Triage.antt =====
-- `TriageService` keeps the tables in order.
use field_service_management.Base.{
  ℕ, refl, sym, not, ◌&&◌, Option, none, some, List, [], ◌∷◌, ◌++◌, any, Bool-cases, Option-cases,
  inl, inr,
}
use mathlib.Core.Path.{subst}
use field_service_management.Base.Rows.{find}
use field_service_management.Assist.Conversation
use field_service_management.Assist.Conversation.{
  Message, Photo, Turn, went, closed, is_active, is_expired, mark_abandoned,
}
use field_service_management.Assist.Conversations
use field_service_management.Assist.Conversations.{row_id, is_active_of}
use field_service_management.Assist.Photos.{delete_unbound, list_unbound}
use field_service_management.Assist.Store.{
  AssistError, ConversationRow, Desk, Attempt, did, failed, pure, gets, modify, new_id, ◌>>=◌, ◌>>◌,
}
use field_service_management.Assist.Triage.{
  Service, or_closed, sent_photos, keys_of, stage_keys, discard_photos, discard_unbound,
  remove_discarded_objects, add_or_join, joined, drop_unbound, commit_others, open_new, retire,
  start_from, start, end_conversation, new_conversation,
}
use field_service_management.Assist.Orderly.{IsOrderly}
use field_service_management.Assist.Orderly.Calls.{
  IsOrderly-with, append-IsOrderly, add-IsOrderly, save-IsOrderly, delete_unbound-IsOrderly,
  get-same,
}
use field_service_management.Assist.Triples.{Keeps, Keeps-bind, Keeps-if}

pub or_closed-IsOrderly : (t : Turn) → Keeps IsOrderly (or_closed t)
or_closed-IsOrderly (went c) d o = o
or_closed-IsOrderly closed d o = o

pub new_id-IsOrderly : Keeps IsOrderly new_id
new_id-IsOrderly d o = IsOrderly-with d (new_id d).1 refl refl o

discard-IsOrderly :
    (keys : List (List ℕ)) (conversation : ℕ)
    → Keeps IsOrderly (stage_keys keys >> delete_unbound conversation)
discard-IsOrderly keys conversation =
    Keeps-bind IsOrderly (stage_keys keys) (λ _. delete_unbound conversation)
      (λ d o. IsOrderly-with d (stage_keys keys d).1 refl refl o)
      (λ _. delete_unbound-IsOrderly conversation)

pub discard_photos-IsOrderly :
    (service : Service) (c : Conversation.Conversation) → Keeps IsOrderly (discard_photos service c)
unfolding discard_photos
discard_photos-IsOrderly service c =
    Keeps-if IsOrderly (service.has_photos && service.has_photo_store)
      (gets (list_unbound c.id) >>= λ unbound.
        stage_keys (keys_of (sent_photos c.messages ++ unbound)) >> delete_unbound c.id)
      (pure tt)
      (Keeps-bind IsOrderly (gets (list_unbound c.id))
        (λ unbound. stage_keys (keys_of (sent_photos c.messages ++ unbound)) >> delete_unbound c.id)
        (λ d o. o)
        (λ unbound. discard-IsOrderly (keys_of (sent_photos c.messages ++ unbound)) c.id))
      (λ d o. o)

pub discard_unbound-IsOrderly :
    (service : Service) (conversation : ℕ) → Keeps IsOrderly (discard_unbound service conversation)
unfolding discard_unbound drop_unbound
discard_unbound-IsOrderly service conversation =
    Keeps-if IsOrderly (service.has_photos && service.has_photo_store)
      (gets (list_unbound conversation) >>= drop_unbound conversation) (pure tt)
      (Keeps-bind IsOrderly (gets (list_unbound conversation)) (drop_unbound conversation)
        (λ d o. o) dropped)
      (λ d o. o)
  where
    dropped : (unbound : List Photo) → Keeps IsOrderly (drop_unbound conversation unbound)
    dropped [] = λ d o. o
    dropped (photo ∷ rest) = discard-IsOrderly (keys_of (photo ∷ rest)) conversation

joined-IsOrderly :
    (c : Conversation.Conversation) (out : Attempt (Unit {0}) × Desk)
    → IsOrderly out.1
    → IsOrderly (joined c out).1
unfolding joined
joined-IsOrderly c (did done, d) o = o
joined-IsOrderly c (failed AssistError.conversation_already_open, d) o =
    elim (Conversations.find_active_for_customer c.customer_id d)
      as (λ r.
        IsOrderly
          (elim r as (λ x. Attempt Conversation.Conversation × Desk) [
            | none ↦ (failed AssistError.conversation_already_open, d)
            | some winner ↦ (did winner, d)
          ]).1) [ none ↦ o | some winner ↦ o ]
joined-IsOrderly c (failed _, d) o = o

pub remove_discarded_objects-IsOrderly : Keeps IsOrderly remove_discarded_objects
unfolding remove_discarded_objects
remove_discarded_objects-IsOrderly d o = IsOrderly-with d (remove_discarded_objects d).1 refl refl o

pub commit_others-IsOrderly :
    (others : List ConversationRow) (d : Desk)
    → IsOrderly d
    → IsOrderly (record d { conversations = commit_others others d.conversations })
unfolding commit_others
commit_others-IsOrderly [] d o = o
commit_others-IsOrderly (other ∷ others) d o =
    elim (Option-cases (find row_id other.id d.conversations)) [
      | inr (row, taken) ↦ rw taken (commit_others-IsOrderly others d o)
      | inl fresh ↦
          elim (Bool-cases
            (is_active other.status && any (is_active_of other.customer_id) d.conversations)) [
              | inl clash ↦ rw (fresh, clash) (commit_others-IsOrderly others d o)
              | inr free ↦
                  rw (fresh, free)
                    (commit_others-IsOrderly others
                      (record d { conversations = d.conversations ++ other ∷ [] })
                      (append-IsOrderly other d fresh free o))
            ]
    ]

add_or_join-IsOrderly : (c : Conversation.Conversation) → Keeps IsOrderly (add_or_join c)
unfolding add_or_join
add_or_join-IsOrderly c d o = joined-IsOrderly c (Conversations.add c d) (add-IsOrderly c d o)

open_new-IsOrderly :
    (now customer : ℕ) (others : List ConversationRow)
    → Keeps IsOrderly (open_new now customer others)
unfolding open_new
open_new-IsOrderly now customer others =
    Keeps-bind IsOrderly new_id
      (λ id.
        modify (λ d. record d { conversations = commit_others others d.conversations })
        >> add_or_join (new_conversation id customer now))
      new_id-IsOrderly
      (λ id.
        Keeps-bind IsOrderly
          (modify (λ d. record d { conversations = commit_others others d.conversations }))
          (λ _. add_or_join (new_conversation id customer now)) (commit_others-IsOrderly others)
          (λ _. add_or_join-IsOrderly (new_conversation id customer now)))

close_and_discard :
    (service : Service) (c : Conversation.Conversation)
    → Keeps IsOrderly (Conversations.save c >> discard_photos service c)
close_and_discard service c =
    Keeps-bind IsOrderly (Conversations.save c) (λ _. discard_photos service c) (save-IsOrderly c)
      (λ _. discard_photos-IsOrderly service c)

retire-IsOrderly :
    (service : Service) (now : ℕ) (c : Conversation.Conversation)
    → Keeps IsOrderly (retire service now c)
unfolding retire
retire-IsOrderly service now c =
    Keeps-bind IsOrderly (or_closed (mark_abandoned now c))
      (λ abandoned. Conversations.save abandoned >> discard_photos service abandoned)
      (or_closed-IsOrderly (mark_abandoned now c)) (close_and_discard service)

start_from-IsOrderly :
    (service : Service) (now customer : ℕ) (others : List ConversationRow)
    (existing : Option Conversation.Conversation)
    → Keeps IsOrderly (start_from service now customer others existing)
unfolding start_from
start_from-IsOrderly service now customer others none = open_new-IsOrderly now customer others
start_from-IsOrderly service now customer others (some existing) =
    Keeps-if IsOrderly (not (is_expired now existing)) (pure existing)
      (retire service now existing >> open_new now customer others) (λ d o. o)
      (Keeps-bind IsOrderly (retire service now existing) (λ _. open_new now customer others)
        (retire-IsOrderly service now existing) (λ _. open_new-IsOrderly now customer others))

pub start-IsOrderly :
    (service : Service) (now customer : ℕ) (others : List ConversationRow)
    → Keeps IsOrderly (start service now customer others)
unfolding start
start-IsOrderly service now customer others =
    Keeps-bind IsOrderly (gets (Conversations.find_active_for_customer customer))
      (start_from service now customer others) (λ d o. o)
      (start_from-IsOrderly service now customer others)

pub end_conversation-IsOrderly :
    (service : Service) (now conversation customer : ℕ)
    → Keeps IsOrderly (end_conversation service now conversation customer)
unfolding end_conversation
end_conversation-IsOrderly service now conversation customer =
    Keeps-bind IsOrderly (Conversations.get conversation customer)
      (λ c. or_closed (mark_abandoned now c) >>= λ abandoned.
        Conversations.save abandoned >> discard_photos service abandoned >> pure abandoned)
      (λ d o. subst IsOrderly (sym (get-same conversation customer d)) o)
      (λ c.
        Keeps-bind IsOrderly (or_closed (mark_abandoned now c))
          (λ abandoned.
            Conversations.save abandoned >> discard_photos service abandoned >> pure abandoned)
          (or_closed-IsOrderly (mark_abandoned now c))
          (λ abandoned.
            Keeps-bind IsOrderly (Conversations.save abandoned >> discard_photos service abandoned)
              (λ _. pure abandoned) (close_and_discard service abandoned) (λ _ d o. o)))
