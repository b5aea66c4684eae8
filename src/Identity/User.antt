-- ===== src/Identity/User.antt =====
-- backend/src/fsm/identity/domain: user.py, role.py, role_status.py and errors.py. A method returns
-- the entity as it left it. A UUID is a number; `pending_rollback` is the error of SQLAlchemy for a
-- session whose flush has failed.
-- whose flush has failed.
use field_service_management.Base.{
  ℕ, Bool, true, false, not, ◌&&◌, ◌||◌, Option, none, some, if◌then◌else◌,
}
use field_service_management.Base.Text.{Text, truthy}

pub data Role : Type 0 where
  customer technician admin : Role

pub data RoleStatus : Type 0 where
  pending approved rejected : RoleStatus

pub data IdentityError : Type 0 where
  invalid_user authentication_error not_found duplicate_google_sub : IdentityError
  back_office_access_denied invalid_role_decision pending_rollback : IdentityError

-- How a call of the identity context ends.
pub data Answer (Value : Type 0) : Type 0 where
  returned : Value → Answer Value
  raised : IdentityError → Answer Value

pub record User : Type 0 where
  pub id : ℕ
  pub google_sub : Text
  pub email : Text
  pub name : Text
  pub role : Role
  pub role_status : RoleStatus
  pub role_decided_at : Option ℕ
  pub role_decided_by : Option ℕ
  pub display_name : Option Text
  pub address : Option Text
  pub phone : Option Text
  pub assist_disclaimer_accepted_at : Option ℕ

-- The check of `__post_init__`.
unfoldable pub check_user : User → Answer User
check_user user =
    if not (truthy user.google_sub) || not (truthy user.email)
    then raised IdentityError.invalid_user
    else returned user

-- `self.display_name or self.name`.
unfoldable pub preferred_name : User → Text
preferred_name user = elim user.display_name [
  | none ↦ user.name
  | some display_name ↦ if truthy display_name then display_name else user.name
]

abbrev pub is_technician : Role → Bool
is_technician Role.customer = false
is_technician Role.technician = true
is_technician Role.admin = false

abbrev pub is_approved : RoleStatus → Bool
is_approved RoleStatus.pending = false
is_approved RoleStatus.approved = true
is_approved RoleStatus.rejected = false

abbrev pub is_pending : RoleStatus → Bool
is_pending RoleStatus.pending = true
is_pending RoleStatus.approved = false
is_pending RoleStatus.rejected = false

abbrev pub is_approved_technician : User → Bool
is_approved_technician user = is_technician user.role && is_approved user.role_status

-- The first acceptance is kept.
unfoldable pub accept_assist_disclaimer : ℕ → User → User
accept_assist_disclaimer at user = elim user.assist_disclaimer_accepted_at [
  | none ↦ record user { assist_disclaimer_accepted_at = some at }
  | some before ↦ user
]

abbrev pub grant_role : Role → User → User
grant_role role user = record user {
  role = role;
  role_status = RoleStatus.approved;
  role_decided_at = none;
  role_decided_by = none;
}

abbrev pub request_role : Role → User → User
request_role role user = record user {
  role = role;
  role_status = RoleStatus.pending;
  role_decided_at = none;
  role_decided_by = none;
}

abbrev pub approve : ℕ → ℕ → User → User
approve decided_by at user = record user {
  role_status = RoleStatus.approved;
  role_decided_by = some decided_by;
  role_decided_at = some at;
}

abbrev pub reject : ℕ → ℕ → User → User
reject decided_by at user = record user {
  role_status = RoleStatus.rejected;
  role_decided_by = some decided_by;
  role_decided_at = some at;
}
