-- ===== src/Identity/Users.antt =====
-- backend/src/fsm/identity/adapters/repositories.py: the table of users, with its primary key and
-- the unique Google subject. A row holds the fields of the entity.
pub mod Subjects
use field_service_management.Base.{
  ℕ, Bool, true, false, ◌&&◌, Option, none, some, List, [], ◌∷◌, ◌++◌, filter, is_some, ◌==◌,
  if◌then◌else◌,
}
use field_service_management.Base.Rows.{find, put}
use field_service_management.Base.Text.{Text, same_text}
use field_service_management.Identity.User.{
  User, IdentityError, Answer, returned, raised, is_technician, is_pending,
}

abbrev pub user_id : User → ℕ
user_id user = user.id

abbrev pub get_by_google_sub : Text → List User → Option User
get_by_google_sub google_sub [] = none
get_by_google_sub google_sub (row ∷ rows) =
    if same_text row.google_sub google_sub then some row else get_by_google_sub google_sub rows

-- The unique constraint on the subject; the caller ensures that the id is new.
abbrev pub add : User → List User → Answer (Unit {0}) × List User
add user rows =
    if is_some (get_by_google_sub user.google_sub rows)
    then (raised IdentityError.duplicate_google_sub, rows)
    else (returned tt, rows ++ user ∷ [])

abbrev pub get : ℕ → List User → Answer User
get id rows = elim (find user_id id rows) [
  | none ↦ raised IdentityError.not_found
  | some row ↦ returned row
]

abbrev pub save : User → List User → Answer (Unit {0}) × List User
save user rows =
    if is_some (find user_id user.id rows)
    then (returned tt, put user_id user rows)
    else (raised IdentityError.not_found, rows)

unfoldable pub list_pending_technicians : List User → List User
list_pending_technicians = filter (λ row. is_technician row.role && is_pending row.role_status)
