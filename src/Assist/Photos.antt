-- ===== src/Assist/Photos.antt =====
-- backend/src/fsm/assist/adapters/photo_repository.py, the key scheme of ports/photo_store.py, and
-- application/photos.py.
use field_service_management.Base.{
  ℕ, Bool, not, ◌&&◌, Option, none, some, List, [], ◌∷◌, ◌++◌, length, filter, map, any, is_some,
  leb, ◌==◌, if◌then◌else◌,
}
use field_service_management.Base.Rows.{find}
use field_service_management.Base.Text.{Text, codes, same_text}
use field_service_management.Base.Uuid.{uuid_text}
use field_service_management.Assist.Conversation.{Photo, is_open}
use field_service_management.Assist.Store.{
  AssistError, PhotoRow, Desk, did, failed, Action, pure, raise, gets, ◌>>=◌, ◌>>◌, modify, new_id,
}
use field_service_management.Assist.Conversations
use field_service_management.Assist.Conversations.{to_photo}

abbrev pub photo_row_id : PhotoRow → ℕ
photo_row_id row = row.id

abbrev pub is_unbound : ℕ → PhotoRow → Bool
is_unbound conversation_id row =
    row.conversation_id == conversation_id && not (is_some row.message_id)

-- The primary key refuses a second row of one id.
unfoldable pub add : ℕ → Photo → Action (Unit {0})
add conversation_id photo d =
    if is_some (find photo_row_id photo.id d.photos)
    then (failed AssistError.integrity_error, d)
    else (
      did tt,
      record d {
        photos =
            d.photos
            ++ record {
              id = photo.id;
              conversation_id = conversation_id;
              message_id = none;
              filename = photo.filename;
              media_type = photo.media_type;
              size_bytes = photo.size_bytes;
              object_key = photo.object_key;
              created_at = photo.created_at;
            }
              ∷ [];
      },
    )

abbrev pub count_for_conversation : ℕ → Desk → ℕ
count_for_conversation conversation_id d =
    length (filter (λ row. row.conversation_id == conversation_id) d.photos)

-- In the order of the ids that are asked for; the first that is missing raises.
unfoldable pub pick : ℕ → List PhotoRow → List ℕ → Option (List Photo)
pick conversation_id rows [] = some []
pick conversation_id rows (photo_id ∷ rest) =
    elim (find photo_row_id photo_id (filter (is_unbound conversation_id) rows)) [
      | none ↦ none
      | some row ↦ elim (pick conversation_id rows rest) [
        | none ↦ none
        | some photos ↦ some (to_photo row ∷ photos)
      ]
    ]

unfoldable pub get_unbound : ℕ → List ℕ → Action (List Photo)
get_unbound conversation_id photo_ids d = elim (pick conversation_id d.photos photo_ids) [
  | none ↦ (failed AssistError.photo_not_found, d)
  | some photos ↦ (did photos, d)
]

-- `AssistPhotoRow.id.in_(photo_ids)`.
abbrev pub is_among : List ℕ → PhotoRow → Bool
is_among photo_ids row = any (λ photo_id. row.id == photo_id) photo_ids

unfoldable pub bind : ℕ → List ℕ → Action (Unit {0})
bind message_id photo_ids = modify (λ d. record d {
  photos =
      map
        (λ row. if is_among photo_ids row then record row { message_id = some message_id } else row)
        d.photos;
})

abbrev pub list_unbound : ℕ → Desk → List Photo
list_unbound conversation_id d = map to_photo (filter (is_unbound conversation_id) d.photos)

unfoldable pub delete_unbound : ℕ → Action (Unit {0})
delete_unbound conversation_id =
    modify
      (λ d. record d { photos = filter (λ row. not (is_unbound conversation_id row)) d.photos })

unfoldable pub get : ℕ → ℕ → Action Photo
get conversation_id photo_id d =
    elim (find photo_row_id photo_id
      (filter (λ row. row.conversation_id == conversation_id) d.photos)) [
        | none ↦ (failed AssistError.photo_not_found, d)
        | some row ↦ (did (to_photo row), d)
      ]

unfoldable pub delete : ℕ → Action (Unit {0})
delete photo_id =
    modify (λ d. record d { photos = filter (λ row. not (row.id == photo_id)) d.photos })

-- The key scheme.
unfoldable pub object_prefix : ℕ → Text
object_prefix photo_id = codes "photos/" ++ uuid_text photo_id

abbrev pub original_key : Text → Text
original_key object_key = object_key ++ codes "/original"

abbrev pub preview_key : Text → Text
preview_key object_key = object_key ++ codes "/preview"

abbrev pub photo_keys : Text → List Text
photo_keys object_key = original_key object_key ∷ preview_key object_key ∷ []

-- `PhotoStore.put` and `PhotoStore.remove`; the contents are not kept.
abbrev pub put_object : Text → Action (Unit {0})
put_object key = modify (λ d. record d { objects = d.objects ++ key ∷ [] })

abbrev pub remove_objects : List Text → Action (Unit {0})
remove_objects keys =
    modify (λ d. record d { objects = filter (λ key. not (any (same_text key) keys)) d.objects })

abbrev pub max_photos_per_conversation : ℕ
max_photos_per_conversation = 5

-- `self._conversations.get(...).require_open()`.
unfoldable pub require_open_conversation : ℕ → ℕ → Action (Unit {0})
require_open_conversation conversation_id customer_id =
    Conversations.get conversation_id customer_id >>= λ c.
    if is_open c then pure tt else raise AssistError.conversation_closed

unfoldable pub require_room : ℕ → Action (Unit {0})
require_room conversation_id = gets (count_for_conversation conversation_id) >>= λ count.
    if leb max_photos_per_conversation count then raise AssistError.photo_limit_reached else pure tt

-- What the preview maker returns of an image: its media type; `none` where it raises.
abbrev pub Inspection : Type 0
Inspection = Option ℕ

abbrev pub or_unsupported : Inspection → Action ℕ
or_unsupported none = raise AssistError.unsupported_photo
or_unsupported (some media_type) = pure media_type

-- The end of `attach`: both objects, then the row.
unfoldable pub store_photo : ℕ → Photo → Action Photo
store_photo conversation_id photo =
    put_object (original_key photo.object_key)
    >> put_object (preview_key photo.object_key)
    >> add conversation_id photo
    >> pure photo

unfoldable pub attach : ℕ → ℕ → ℕ → Text → ℕ → Inspection → Action Photo
unfolding require_open_conversation require_room store_photo
attach now conversation_id customer_id filename size_bytes inspected =
    require_open_conversation conversation_id customer_id
    >> require_room conversation_id
    >> (or_unsupported inspected >>= λ media_type. new_id >>= λ photo_id.
        store_photo conversation_id (record {
          id = photo_id;
          filename = filename;
          media_type = media_type;
          size_bytes = size_bytes;
          object_key = object_prefix photo_id;
          created_at = now;
        }))

-- `(photo,) = ...`, then the objects and the row.
unfoldable pub drop_photos : List Photo → Action (Unit {0})
drop_photos [] = raise AssistError.assertion_error
drop_photos (photo ∷ rest) = remove_objects (photo_keys photo.object_key) >> delete photo.id

unfoldable pub detach : ℕ → ℕ → ℕ → Action (Unit {0})
unfolding require_open_conversation drop_photos
detach conversation_id customer_id photo_id =
    require_open_conversation conversation_id customer_id
    >> (get_unbound conversation_id (photo_id ∷ []) >>= drop_photos)
