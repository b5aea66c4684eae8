-- ===== src/Assist/Orderly/Uploads.antt =====
-- `PhotoService` keeps the tables in order: the count of photos is checked before a row is added.
use field_service_management.Base.{
  ℕ, ◌≡◌, refl, sym, ◌≤◌, ◌<◌, none, some, List, [], ◌∷◌, ◌++◌, arith, is_some, leb, ◌∙◌, ==_iff,
  ◌==◌, Bool-cases, inl, inr, if◌then◌else◌,
}
use mathlib.Core.Path.{subst}
use field_service_management.Base.Rows.{find}
use field_service_management.Base.Text.{Text}
use field_service_management.Assist.Conversation.{Photo, is_open}
use field_service_management.Assist.Conversations
use field_service_management.Assist.Photos
use field_service_management.Assist.Photos.{
  Inspection, count_for_conversation, or_unsupported, require_open_conversation, require_room,
  store_photo, put_object, original_key, preview_key, photo_keys, remove_objects, drop_photos,
  get_unbound, attach, detach, max_photos_per_conversation, object_prefix, photo_row_id,
}
use field_service_management.Assist.Store.{
  AssistError, PhotoRow, Desk, Action, pure, raise, new_id, ◌>>=◌, ◌>>◌,
}
use field_service_management.Assist.Orderly.{IsOrderly, count, count-append}
use field_service_management.Assist.Orderly.Calls.{
  IsOrderly-with, get-same, get_unbound-same, delete-IsOrderly,
}
use field_service_management.Assist.Orderly.Triage.{new_id-IsOrderly}
use field_service_management.Assist.Triples.{
  kept_out, Ends-in, Triple, Triple-bind, Keeps, Keeps-bind, Keeps-if, Ends-out,
}

-- In order, and with room for one more photo in the conversation.
abbrev HasRoom : ℕ → Desk → Type 0
HasRoom conversation d =
    IsOrderly d
    × (count (λ (row : PhotoRow). row.conversation_id == conversation) d.photos
        < max_photos_per_conversation)

require_open_conversation-IsOrderly :
    (conversation customer : ℕ) → Keeps IsOrderly (require_open_conversation conversation customer)
unfolding require_open_conversation
require_open_conversation-IsOrderly conversation customer =
    Keeps-bind IsOrderly (Conversations.get conversation customer)
      (λ c. if is_open c then pure tt else raise AssistError.conversation_closed)
      (λ d o. subst IsOrderly (sym (get-same conversation customer d)) o)
      (λ c.
        Keeps-if IsOrderly (is_open c) (pure tt) (raise AssistError.conversation_closed) (λ d o. o)
          (λ d o. o))

require_room-HasRoom :
    (conversation : ℕ)
    → Triple IsOrderly
        (λ (_ : Unit {0}). HasRoom conversation)
        IsOrderly
        (require_room conversation)
unfolding require_room
require_room-HasRoom conversation d o =
    elim (Bool-cases (leb max_photos_per_conversation (count_for_conversation conversation d))) [
      | inl full ↦ rw full o
      | inr room ↦ rw room (o, ground arith)
    ]

new_row : ℕ → Photo → PhotoRow
new_row conversation photo = record {
  id = photo.id;
  conversation_id = conversation;
  message_id = none;
  filename = photo.filename;
  media_type = photo.media_type;
  size_bytes = photo.size_bytes;
  object_key = photo.object_key;
  created_at = photo.created_at;
}

room_for :
    (conversation k : ℕ) (rows : List PhotoRow) (row : PhotoRow)
    → row.conversation_id ≡ conversation
    → count (λ (other : PhotoRow). other.conversation_id == conversation) rows
      < max_photos_per_conversation
    → count (λ (other : PhotoRow). other.conversation_id == k) rows ≤ max_photos_per_conversation
    → count (λ (other : PhotoRow). other.conversation_id == k) (rows ++ row ∷ [])
      ≤ max_photos_per_conversation
room_for conversation k rows row own room few =
    let total = count-append (λ (other : PhotoRow). other.conversation_id == k) rows (row ∷ []) in
    elim (Bool-cases (row.conversation_id == k)) [
      | inl mine ↦
          let here : count (λ (other : PhotoRow). other.conversation_id == k) (row ∷ []) ≡ 1 =
            rw mine refl in
          let moved : count (λ (other : PhotoRow). other.conversation_id == k) rows
              < max_photos_per_conversation =
            subst
              (λ j.
                count (λ (other : PhotoRow). other.conversation_id == j) rows
                < max_photos_per_conversation)
              (sym own ∙ (==_iff row.conversation_id k).0 mine) room in
          omega (arith, total)
      | inr other ↦
          let there : count (λ (other : PhotoRow). other.conversation_id == k) (row ∷ []) ≡ 0 =
            rw other refl in
          omega (arith, total)
    ]

add-IsOrderly :
    (conversation : ℕ) (photo : Photo) (d : Desk)
    → HasRoom conversation d
    → IsOrderly (Photos.add conversation photo d).1
unfolding Photos.add new_row
add-IsOrderly conversation photo d (o, room) =
    elim (Bool-cases (is_some (find photo_row_id photo.id d.photos))) [
      | inl taken ↦ rw (taken, Photos.add) o
      | inr free ↦
          rw (free, Photos.add)
            (record {
              distinct = o.distinct;
              one_active = o.one_active;
              few_photos = λ k. omega (
                arith,
                o.few_photos k,
                room_for conversation k d.photos (new_row conversation photo) refl room,
              );
            })
    ]

store_photo-IsOrderly :
    (conversation : ℕ) (photo : Photo) (d : Desk)
    → HasRoom conversation d
    → IsOrderly (store_photo conversation photo d).1
unfolding store_photo
store_photo-IsOrderly conversation photo d (o, room) =
    kept_out IsOrderly
      (Photos.add conversation photo
        (put_object (preview_key photo.object_key)
          (put_object (original_key photo.object_key) d).1).1)
      (λ _. pure photo)
      (add-IsOrderly conversation photo
        (put_object (preview_key photo.object_key)
          (put_object (original_key photo.object_key) d).1).1
        (
          IsOrderly-with d
              (put_object (preview_key photo.object_key)
                (put_object (original_key photo.object_key) d).1).1
              refl refl o,
          room,
        ))
      (λ _ d' o'. o')

pub attach-IsOrderly :
    (now conversation customer : ℕ) (filename : Text) (size : ℕ) (inspected : Inspection) (d : Desk)
    → IsOrderly d
    → IsOrderly (attach now conversation customer filename size inspected d).1
unfolding attach
attach-IsOrderly now conversation customer filename size inspected d o =
    Ends-out IsOrderly (attach now conversation customer filename size inspected d) (
      Triple-bind (λ _. IsOrderly) IsOrderly IsOrderly (λ _. HasRoom conversation)
        (require_open_conversation conversation customer >> require_room conversation)
        (λ _. or_unsupported inspected >>= upload)
        (Triple-bind (λ _. HasRoom conversation) IsOrderly IsOrderly (λ _. IsOrderly)
          (require_open_conversation conversation customer) (λ _. require_room conversation)
          (λ d' o'.
            Ends-in IsOrderly (require_open_conversation conversation customer d')
              (require_open_conversation-IsOrderly conversation customer d' o'))
          (λ _. require_room-HasRoom conversation))
        (λ _. inspected_then inspected) d o)
  where
    upload : ℕ → Action Photo
    upload media_type = new_id >>= λ photo_id. store_photo conversation (record {
      id = photo_id;
      filename = filename;
      media_type = media_type;
      size_bytes = size;
      object_key = object_prefix photo_id;
      created_at = now;
    })

    inspected_then :
        (i : Inspection)
        → Triple (HasRoom conversation) (λ _. IsOrderly) IsOrderly (or_unsupported i >>= upload)
    inspected_then none = λ d' h. h.0
    inspected_then (some media_type) = λ d' h.
        Ends-in IsOrderly (upload media_type d')
          (store_photo-IsOrderly conversation _ (new_id d').1 (new_id-IsOrderly d' h.0, h.1))

drop_photos-IsOrderly : (photos : List Photo) → Keeps IsOrderly (drop_photos photos)
unfolding drop_photos
drop_photos-IsOrderly [] = λ d o. o
drop_photos-IsOrderly (photo ∷ rest) =
    Keeps-bind IsOrderly (remove_objects (photo_keys photo.object_key))
      (λ _. Photos.delete photo.id)
      (λ d o. IsOrderly-with d (remove_objects (photo_keys photo.object_key) d).1 refl refl o)
      (λ _. delete-IsOrderly photo.id)

pub detach-IsOrderly :
    (conversation customer photo : ℕ) → Keeps IsOrderly (detach conversation customer photo)
unfolding detach
detach-IsOrderly conversation customer photo =
    Keeps-bind IsOrderly (require_open_conversation conversation customer)
      (λ _. get_unbound conversation (photo ∷ []) >>= drop_photos)
      (require_open_conversation-IsOrderly conversation customer)
      (λ _.
        Keeps-bind IsOrderly (get_unbound conversation (photo ∷ [])) drop_photos
          (λ d o. subst IsOrderly (sym (get_unbound-same conversation (photo ∷ []) d)) o)
          drop_photos-IsOrderly)
