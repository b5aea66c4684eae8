-- ===== src/Assist/Orderly/Calls.antt =====
-- The calls of the assist repositories keep the tables in order.
use field_service_management.Base.{
  ℕ, ◌≡◌, refl, sym, ◌≤◌, Bool, false, not, ◌&&◌, none, some, List, [], ◌∷◌, ◌++◌, arith, drop, map,
  ==_iff, filter, any, ◌==◌, if◌then◌else◌, Bool-cases, Option-cases, inl, inr,
}
use mathlib.Core.Path.{subst}
use field_service_management.Base.Rows.{find, find-key}
use field_service_management.Assist.Conversation
use field_service_management.Assist.Conversation.{Photo, is_active}
use field_service_management.Assist.Conversations
use field_service_management.Assist.Conversations.{
  row_id, is_active_of, other_active, to_row, insert, append_messages, saved_row, write_row,
  write_messages, stored_message_count,
}
use field_service_management.Assist.Photos
use field_service_management.Assist.Photos.{
  is_unbound, is_among, bind, delete_unbound, get_unbound, pick,
}
use field_service_management.Assist.Store.{
  AssistError, ConversationRow, MessageRow, PhotoRow, Desk, Attempt, did, failed,
}
use field_service_management.Assist.Orderly.{
  IsOrderly, count, count-append, count-filter, count-eq_zero, put-one_active, put-distinct,
}
use field_service_management.Assist.Triples.{kept_out, Keeps}

-- The order is one of the conversations and the photos alone.
pub IsOrderly-with :
    (d d' : Desk)
    → d'.conversations ≡ d.conversations
    → d'.photos ≡ d.photos
    → IsOrderly d
    → IsOrderly d'
IsOrderly-with d d' c p o = record {
  distinct = rw c (o.distinct);
  one_active = rw c (o.one_active);
  few_photos = rw p (o.few_photos);
}

any-find :
    (id : ℕ) (rows : List ConversationRow)
    → find row_id id rows ≡ none
    → any (λ row. row.id == id) rows ≡ false
any-find id [] h = refl
any-find id (row ∷ rows) h = ground (arith, any-find id rows)

one_at_most : (p : ConversationRow → Bool) (row : ConversationRow) → count p (row ∷ []) ≤ 1
one_at_most p row = ground arith

-- A new row, with an id of its own, and active only where its customer has no active one.
pub append-IsOrderly :
    (row : ConversationRow) (d : Desk)
    → find row_id row.id d.conversations ≡ none
    → (is_active row.status && any (is_active_of row.customer_id) d.conversations) ≡ false
    → IsOrderly d
    → IsOrderly (record d { conversations = d.conversations ++ row ∷ [] })
append-IsOrderly row d fresh idle o = record {
  distinct = λ id.
      let total =
        count-append (λ (other : ConversationRow). other.id == id) d.conversations (row ∷ []) in
      elim (Bool-cases (row.id == id)) [
        | inl mine ↦
            let none_there : any (λ (other : ConversationRow). other.id == id) d.conversations
                ≡ false =
              subst (λ k. any (λ (other : ConversationRow). other.id == k) d.conversations ≡ false)
                ((==_iff row.id id).0 mine) (any-find row.id d.conversations fresh) in
            omega (
              arith,
              total,
              one_at_most (λ (other : ConversationRow). other.id == id) row,
              count-eq_zero (λ (other : ConversationRow). other.id == id) d.conversations
                  none_there,
            )
        | inr other ↦
            let none_new : count (λ (other : ConversationRow). other.id == id) (row ∷ []) ≡ 0 =
              rw other refl in
            omega (arith, total, o.distinct id, none_new)
      ];
  one_active = λ customer.
      let total = count-append (is_active_of customer) d.conversations (row ∷ []) in
      elim (Bool-cases (is_active_of customer row)) [
        | inl active ↦
            let none_there : any (is_active_of customer) d.conversations ≡ false =
              subst (λ k. any (is_active_of k) d.conversations ≡ false)
                ((==_iff row.customer_id customer).0 (ground arith)) (ground arith) in
            omega (
              arith,
              total,
              one_at_most (is_active_of customer) row,
              count-eq_zero (is_active_of customer) d.conversations none_there,
            )
        | inr idle ↦
            let none_new : count (is_active_of customer) (row ∷ []) ≡ 0 = rw idle refl in
            omega (arith, total, o.one_active customer, none_new)
      ];
  few_photos = o.few_photos;
}

insert-did :
    (c : Conversation.Conversation) (d : Desk) (conversations : List ConversationRow)
    (messages : List MessageRow)
    → insert c d ≡ did (conversations, messages)
    → (find row_id c.id d.conversations ≡ none)
      × ((is_active c.status && any (is_active_of c.customer_id) d.conversations) ≡ false)
      × (conversations ≡ d.conversations ++ to_row c ∷ [])
unfolding insert
insert-did c d conversations messages h = ground arith

pub add-IsOrderly : (c : Conversation.Conversation) → Keeps IsOrderly (Conversations.add c)
unfolding Conversations.add
add-IsOrderly c d o = added (insert c d) refl
  where
    added :
        (r : Attempt (List ConversationRow × List MessageRow))
        → insert c d ≡ r
        → IsOrderly
            (elim r as (λ x. Attempt (Unit {0}) × Desk) [
              | failed e ↦ (failed e, d)
              | did (conversations, messages) ↦
                  (did tt, record d { conversations = conversations; messages = messages })
            ]).1
    added (failed e) h = o
    added (did (conversations, messages)) h =
        let (fresh, idle, e) = insert-did c d conversations messages h in
        subst (λ rows. IsOrderly (record d { conversations = rows; messages = messages })) (sym e)
          (IsOrderly-with (record d { conversations = d.conversations ++ to_row c ∷ [] })
            (record d { conversations = d.conversations ++ to_row c ∷ []; messages = messages })
            refl refl (append-IsOrderly (to_row c) d fresh idle o))

pub write_row-IsOrderly :
    (c : Conversation.Conversation) (row : ConversationRow) (d : Desk)
    → find row_id row.id d.conversations ≡ some row
    → IsOrderly d
    → IsOrderly (write_row c row d).1
unfolding write_row
write_row-IsOrderly c row d found o =
    elim (Bool-cases (is_active c.status && other_active row.id row.customer_id d.conversations)) [
      | inl clash ↦ rw clash o
      | inr free ↦ rw free (record {
        distinct = put-distinct (saved_row c row) row d.conversations found o.distinct;
        one_active =
            put-one_active (saved_row c row) row d.conversations found refl free (o.distinct row.id)
              o.one_active;
        few_photos = o.few_photos;
      })
    ]

pub write_messages-IsOrderly : (c : Conversation.Conversation) → Keeps IsOrderly (write_messages c)
unfolding write_messages
write_messages-IsOrderly c d o =
    elim (append_messages c.id (stored_message_count c.id d)
        (drop (stored_message_count c.id d) c.messages) d.messages)
      as (λ r.
        IsOrderly
          (elim r as (λ x. Attempt (Unit {0}) × Desk) [
            | none ↦ (failed AssistError.integrity_error, d)
            | some messages ↦ (did tt, record d { messages = messages })
          ]).1) [
            | none ↦ o
            | some messages ↦ IsOrderly-with d (record d { messages = messages }) refl refl o
          ]

pub save-IsOrderly : (c : Conversation.Conversation) → Keeps IsOrderly (Conversations.save c)
unfolding Conversations.save
save-IsOrderly c d o = elim (Option-cases (find row_id c.id d.conversations)) [
  | inl missing ↦ rw (missing, Conversations.save) o
  | inr (row, found) ↦
      let own : find row_id row.id d.conversations ≡ some row =
        subst (λ id. find row_id id d.conversations ≡ some row)
          (sym (find-key row_id c.id d.conversations row found)) found in
      rw (found, Conversations.save)
        (kept_out IsOrderly (write_row c row d) (λ _. write_messages c)
          (write_row-IsOrderly c row d own o) (λ _. write_messages-IsOrderly c))
]

-- Photos.
bind-count :
    (message : ℕ) (ids : List ℕ) (conversation : ℕ) (rows : List PhotoRow)
    → count
        (λ row. row.conversation_id == conversation)
        (map
          (λ row. if is_among ids row then record row { message_id = some message } else row)
          rows)
      ≡ count (λ row. row.conversation_id == conversation) rows
bind-count message ids conversation [] = refl
bind-count message ids conversation (row ∷ rows) = elim (Bool-cases (is_among ids row)) [
  | inl among ↦ rw among (ground (arith, bind-count message ids conversation rows))
  | inr other ↦ rw other (ground (arith, bind-count message ids conversation rows))
]

pub bind-IsOrderly : (message : ℕ) (ids : List ℕ) → Keeps IsOrderly (bind message ids)
unfolding bind
bind-IsOrderly message ids d o = record {
  distinct = o.distinct;
  one_active = o.one_active;
  few_photos = λ conversation.
      omega (arith, o.few_photos conversation, bind-count message ids conversation d.photos);
}

keep-IsOrderly :
    (p : PhotoRow → Bool) (d : Desk)
    → IsOrderly d
    → IsOrderly (record d { photos = filter p d.photos })
keep-IsOrderly p d o = record {
  distinct = o.distinct;
  one_active = o.one_active;
  few_photos = λ conversation. omega (
    arith,
    o.few_photos conversation,
    count-filter (λ (row : PhotoRow). row.conversation_id == conversation) p d.photos,
  );
}

pub delete_unbound-IsOrderly : (conversation : ℕ) → Keeps IsOrderly (delete_unbound conversation)
unfolding delete_unbound
delete_unbound-IsOrderly conversation d o =
    keep-IsOrderly (λ row. not (is_unbound conversation row)) d o

pub delete-IsOrderly : (photo : ℕ) → Keeps IsOrderly (Photos.delete photo)
unfolding Photos.delete
delete-IsOrderly photo d o = keep-IsOrderly (λ row. not (row.id == photo)) d o

pub get_unbound-same :
    (conversation : ℕ) (ids : List ℕ) (d : Desk) → (get_unbound conversation ids d).1 ≡ d
unfolding get_unbound
get_unbound-same conversation ids d = ground arith

pub get-same :
    (conversation customer : ℕ) (d : Desk) → (Conversations.get conversation customer d).1 ≡ d
unfolding Conversations.get
get-same conversation customer d = ground arith
