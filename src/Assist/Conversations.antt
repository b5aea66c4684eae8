-- ===== src/Assist/Conversations.antt =====
-- backend/src/fsm/assist/adapters/conversation_repository.py. A flush is made where a row is added
-- or changed. The index of one ACTIVE conversation for each customer is that of adapters/orm.py.
use field_service_management.Base.{
  ℕ, suc, Bool, true, false, not, ◌&&◌, ◌||◌, Option, none, some, List, [], ◌∷◌, ◌++◌, length, take,
  drop, filter, map, any, is_some, opt_eq, leb, ltb, ◌==◌, if◌then◌else◌,
}
use field_service_management.Base.Rows.{find, put}
use field_service_management.Base.Sort.{sort_by}
use field_service_management.Base.Text.{Text}
use field_service_management.Assist.Conversation.{
  ConversationStatus, MessageRole, Photo, Message, Conversation, is_active,
}
use field_service_management.Assist.Store.{
  AssistError, ConversationRow, MessageRow, PhotoRow, Desk, Attempt, did, failed, Action, ◌>>◌,
}

abbrev pub row_id : ConversationRow → ℕ
row_id row = row.id

abbrev pub message_row_id : MessageRow → ℕ
message_row_id row = row.id

abbrev pub is_active_of : ℕ → ConversationRow → Bool
is_active_of customer_id row = row.customer_id == customer_id && is_active row.status

-- Another row than `id` is the customer's active one.
abbrev pub other_active : ℕ → ℕ → List ConversationRow → Bool
other_active id customer_id = any (λ row. not (row.id == id) && is_active_of customer_id row)

abbrev pub to_message_row : ℕ → ℕ → Message → MessageRow
to_message_row conversation_id seq message = record {
  id = message.id;
  conversation_id = conversation_id;
  seq = seq;
  role = message.role;
  text = message.text;
  created_at = message.created_at;
}

-- The primary key, and the unique position in a conversation.
abbrev pub is_taken : MessageRow → MessageRow → Bool
is_taken row other =
    other.id == row.id || (other.conversation_id == row.conversation_id && other.seq == row.seq)

-- `_append_messages`, with its flush.
unfoldable pub append_messages : ℕ → ℕ → List Message → List MessageRow → Option (List MessageRow)
append_messages conversation_id seq [] rows = some rows
append_messages conversation_id seq (message ∷ rest) rows =
    let row = to_message_row conversation_id seq message in
    let added = append_messages conversation_id (suc seq) rest (rows ++ row ∷ []) in
    if any (is_taken row) rows then none else added

abbrev pub to_row : Conversation → ConversationRow
to_row c = record {
  id = c.id;
  customer_id = c.customer_id;
  status = c.status;
  service_call_id = c.service_call_id;
  equipment = c.equipment;
  triage_declined = c.triage_declined;
  created_at = c.created_at;
  updated_at = c.updated_at;
}

-- `_translate_integrity_error`; the savepoint takes back what was flushed.
unfoldable pub insert : Conversation → Desk → Attempt (List ConversationRow × List MessageRow)
insert c d =
    if is_some (find row_id c.id d.conversations)
    then failed AssistError.integrity_error
    else if is_active c.status && any (is_active_of c.customer_id) d.conversations
    then failed AssistError.conversation_already_open
    else elim (append_messages c.id 0 c.messages d.messages) [
      | none ↦ failed AssistError.integrity_error
      | some messages ↦ did (d.conversations ++ to_row c ∷ [], messages)
    ]

unfoldable pub add : Conversation → Action (Unit {0})
unfolding insert
add c d = elim (insert c d) [
  | failed e ↦ (failed e, d)
  | did (conversations, messages) ↦
      (did tt, record d { conversations = conversations; messages = messages })
]

-- `ORDER BY seq`.
abbrev pub by_seq : MessageRow → MessageRow → Bool
by_seq a b = leb a.seq b.seq

-- `ORDER BY created_at, id`.
abbrev pub by_age : PhotoRow → PhotoRow → Bool
by_age a b = ltb a.created_at b.created_at || (a.created_at == b.created_at && leb a.id b.id)

abbrev pub messages_of : ℕ → List MessageRow → List MessageRow
messages_of conversation_id = filter (λ row. row.conversation_id == conversation_id)

abbrev pub to_photo : PhotoRow → Photo
to_photo row = record {
  id = row.id;
  filename = row.filename;
  media_type = row.media_type;
  size_bytes = row.size_bytes;
  object_key = row.object_key;
  created_at = row.created_at;
}

-- The photos that a message of the conversation carries, in upload order.
unfoldable pub photos_of : ℕ → ℕ → List PhotoRow → List Photo
photos_of conversation_id message_id rows = map to_photo (
    filter (λ row. opt_eq row.message_id (some message_id))
      (sort_by by_age
        (filter (λ row. row.conversation_id == conversation_id && is_some row.message_id) rows)))

unfoldable pub to_message : List PhotoRow → MessageRow → Message
to_message photos row = record {
  id = row.id;
  role = row.role;
  text = row.text;
  created_at = row.created_at;
  photos = photos_of row.conversation_id row.id photos;
}

unfoldable pub to_conversation : ConversationRow → Desk → Conversation
to_conversation row d = record {
  id = row.id;
  customer_id = row.customer_id;
  status = row.status;
  created_at = row.created_at;
  updated_at = row.updated_at;
  messages = map (to_message d.photos) (sort_by by_seq (messages_of row.id d.messages));
  service_call_id = row.service_call_id;
  equipment = row.equipment;
  triage_declined = row.triage_declined;
}

unfoldable pub get : ℕ → ℕ → Action Conversation
get conversation_id customer_id d = elim (find row_id conversation_id d.conversations) [
  | none ↦ (failed AssistError.conversation_not_found, d)
  | some row ↦
      if not (row.customer_id == customer_id)
      then (failed AssistError.conversation_not_found, d)
      else (did (to_conversation row d), d)
]

-- The columns that `save` writes.
abbrev pub saved_row : Conversation → ConversationRow → ConversationRow
saved_row c row = record row {
  status = c.status;
  service_call_id = c.service_call_id;
  equipment = c.equipment;
  triage_declined = c.triage_declined;
  updated_at = c.updated_at;
}

abbrev pub stored_message_count : ℕ → Desk → ℕ
stored_message_count conversation_id d = length (messages_of conversation_id d.messages)

unfoldable pub write_row : Conversation → ConversationRow → Action (Unit {0})
write_row c row d =
    if is_active c.status && other_active row.id row.customer_id d.conversations
    then (failed AssistError.integrity_error, d)
    else (did tt, record d { conversations = put row_id (saved_row c row) d.conversations })

unfoldable pub write_messages : Conversation → Action (Unit {0})
write_messages c d =
    elim (append_messages c.id (stored_message_count c.id d)
      (drop (stored_message_count c.id d) c.messages) d.messages) [
        | none ↦ (failed AssistError.integrity_error, d)
        | some messages ↦ (did tt, record d { messages = messages })
      ]

unfoldable pub save : Conversation → Action (Unit {0})
unfolding write_row write_messages
save c d = elim (find row_id c.id d.conversations) [
  | none ↦ (failed AssistError.conversation_not_found, d)
  | some row ↦ (write_row c row >> write_messages c) d
]

-- `.first()` of an unordered query over rows of which the index allows one.
abbrev pub first_active : ℕ → List ConversationRow → Option ConversationRow
first_active customer_id [] = none
first_active customer_id (row ∷ rows) =
    if is_active_of customer_id row then some row else first_active customer_id rows

unfoldable pub find_active_for_customer : ℕ → Desk → Option Conversation
find_active_for_customer customer_id d = elim (first_active customer_id d.conversations) [
  | none ↦ none
  | some row ↦ some (to_conversation row d)
]

pub record ConversationSummary : Type 0 where
  pub id : ℕ
  pub status : ConversationStatus
  pub updated_at : ℕ
  pub opening_line : Text

abbrev pub opening_line_chars : ℕ
opening_line_chars = 160

abbrev pub is_customer : MessageRole → Bool
is_customer MessageRole.customer = true
is_customer MessageRole.assistant = false

abbrev pub first_text : List MessageRow → Option Text
first_text [] = none
first_text (row ∷ rows) = some (take opening_line_chars row.text)

unfoldable pub opening_line : ℕ → List MessageRow → Option Text
opening_line conversation_id rows =
    first_text
      (sort_by by_seq (filter (λ row. is_customer row.role) (messages_of conversation_id rows)))

abbrev pub summary_of : ConversationRow → Text → ConversationSummary
summary_of row line = record {
  id = row.id;
  status = row.status;
  updated_at = row.updated_at;
  opening_line = line;
}

-- The rows with an opening line.
unfoldable pub summaries : List MessageRow → List ConversationRow → List ConversationSummary
summaries messages [] = []
summaries messages (row ∷ rows) = elim (opening_line row.id messages) [
  | none ↦ summaries messages rows
  | some line ↦ summary_of row line ∷ summaries messages rows
]

-- `ORDER BY updated_at DESC`.
abbrev pub newer : ConversationSummary → ConversationSummary → Bool
newer a b = leb b.updated_at a.updated_at

unfoldable pub list_ended : ℕ → ℕ → Desk → List ConversationSummary
unfolding summaries opening_line
list_ended customer_id limit d = take limit (
    sort_by newer (
      summaries d.messages (
        filter (λ row. row.customer_id == customer_id && not (is_active row.status))
          d.conversations)))
