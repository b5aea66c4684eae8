-- ===== src/Scheduling/Repositories/Attachments.antt =====
-- backend/src/fsm/scheduling/adapters/repositories.py, `SqlAlchemyServiceCallAttachmentRepository`.
use field_service_management.Base.{
  ℕ, ◌&&◌, ◌||◌, Option, none, some, List, [], ◌∷◌, ◌++◌, filter, is_some, leb, ltb, ◌==◌,
  if◌then◌else◌,
}
use field_service_management.Base.Rows.{find}
use field_service_management.Scheduling.Outcome.{ok, err, Error}
use field_service_management.Scheduling.ServiceCall.{ServiceCallAttachment}
use field_service_management.Scheduling.Store.{Store, Action}

abbrev pub attachment_id : ServiceCallAttachment → ℕ
attachment_id a = a.id

-- The primary key refuses an id that is there already, in the table or earlier in the list.
insert_all :
    List ServiceCallAttachment → List ServiceCallAttachment → Option (List ServiceCallAttachment)
insert_all [] rows = some rows
insert_all (a ∷ rest) rows =
    if is_some (find attachment_id a.id rows) then none else insert_all rest (rows ++ a ∷ [])

unfoldable pub add_all : List ServiceCallAttachment → Action (Unit {0})
unfolding insert_all
add_all attachments s = elim (insert_all attachments s.attachments) [
  | none ↦ (err Error.integrity_error, s)
  | some rows ↦ (ok tt, record s { attachments = rows })
]

unfoldable pub get : ℕ → Action ServiceCallAttachment
get id s = elim (find attachment_id id s.attachments) [
  | none ↦ (err Error.not_found, s)
  | some a ↦ (ok a, s)
]

-- `ORDER BY created_at, id`.
insert_by_age : ServiceCallAttachment → List ServiceCallAttachment → List ServiceCallAttachment
insert_by_age a [] = a ∷ []
insert_by_age a (b ∷ bs) =
    if ltb a.created_at b.created_at || (a.created_at == b.created_at && leb a.id b.id)
    then a ∷ b ∷ bs
    else b ∷ insert_by_age a bs

by_age : List ServiceCallAttachment → List ServiceCallAttachment
unfolding insert_by_age
by_age [] = []
by_age (a ∷ rest) = insert_by_age a (by_age rest)

unfoldable pub list_for_service_call : ℕ → Store → List ServiceCallAttachment
unfolding by_age
list_for_service_call service_call_id s =
    by_age (filter (λ a. a.service_call_id == service_call_id) s.attachments)
