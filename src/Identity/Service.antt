-- ===== src/Identity/Service.antt =====
-- backend/src/fsm/identity/application/identity_service.py. `lower` is `str.lower`; `verified` is
-- what the auth port answers, `none` for a raise; `others` is what other transactions commit between
-- the lookup of a first sign-in and its insert.
pub mod Access
pub mod Sticky
pub mod Decisions
use field_service_management.Base.{
  ℕ, Bool, true, false, not, ◌&&◌, ◌||◌, Option, none, some, List, [], ◌∷◌, any, if◌then◌else◌,
}
use field_service_management.Base.Text.{same_text, Text}
use field_service_management.Identity.User.{
  Role, RoleStatus, User, IdentityError, Answer, returned, raised, check_user, is_technician,
  is_pending, grant_role, request_role, approve, reject,
}
use field_service_management.Identity.Users.{get_by_google_sub, add, get, save}

pub data SignInHost : Type 0 where
  customer technician backoffice : SignInHost

pub record VerifiedIdentity : Type 0 where
  pub google_sub : Text
  pub email : Text
  pub name : Text

pub record SignInOutcome : Type 0 where
  pub user : User
  pub requested_pending : Bool
  pub withdrew_pending : Bool

-- `_is_pending_technician`.
abbrev pub is_pending_technician : Role → RoleStatus → Bool
is_pending_technician role status = is_technician role && is_pending status

-- `before != after` on role and status.
abbrev pub same_role : Role → Role → Bool
same_role Role.customer Role.customer = true
same_role Role.technician Role.technician = true
same_role Role.admin Role.admin = true
same_role a b = false

abbrev pub same_status : RoleStatus → RoleStatus → Bool
same_status RoleStatus.pending RoleStatus.pending = true
same_status RoleStatus.approved RoleStatus.approved = true
same_status RoleStatus.rejected RoleStatus.rejected = true
same_status a b = false

abbrev pub is_unchanged : User → User → Bool
is_unchanged before after =
    same_text before.email after.email
    && same_text before.name after.name
    && same_role before.role after.role
    && same_status before.role_status after.role_status

-- The email and name of the latest claims.
abbrev pub sync_claims : VerifiedIdentity → User → User
sync_claims identity user = record user { email = identity.email; name = identity.name }

abbrev pub outcome_of : User → User → SignInOutcome
outcome_of before after =
    let was_pending : Bool = is_pending_technician before.role before.role_status in
    let now_pending : Bool = is_pending_technician after.role after.role_status in
    record {
      user = after;
      requested_pending = now_pending && not was_pending;
      withdrew_pending = was_pending && not now_pending;
    }

abbrev pub reported :
    SignInOutcome → Answer (Unit {0}) × List User → Answer SignInOutcome × List User
reported outcome (returned done, rows) = (returned outcome, rows)
reported outcome (raised e, rows) = (raised e, rows)

abbrev pub new_user : ℕ → VerifiedIdentity → User
new_user id identity = record {
  id = id;
  google_sub = identity.google_sub;
  email = identity.email;
  name = identity.name;
  role = Role.customer;
  role_status = RoleStatus.approved;
  role_decided_at = none;
  role_decided_by = none;
  display_name = none;
  address = none;
  phone = none;
  assist_disclaimer_accepted_at = none;
}

-- The end of `_reconcile_existing`: it saves only on change.
pub save_changed : User → Answer User → List User → Answer SignInOutcome × List User
save_changed before (raised e) rows = (raised e, rows)
save_changed before (returned after) rows =
    if is_unchanged before after
    then (returned (outcome_of before after), rows)
    else reported (outcome_of before after) (save after rows)

-- The insert of a first sign-in. Another transaction may have taken the subject; the failed flush
-- leaves the session unusable, and the lookup of the winner raises.
pub insert_new : User → Answer (Unit {0}) × List User → Answer SignInOutcome × List User
insert_new user (returned done, rows) = (
  returned (record {
    user = user;
    requested_pending = is_pending_technician user.role user.role_status;
    withdrew_pending = false;
  }),
  rows,
)
insert_new user (raised e, rows) = (raised IdentityError.pending_rollback, rows)

pub assign_new :
    (List User → List User) → Answer User → List User → Answer SignInOutcome × List User
unfolding insert_new
assign_new others (raised e) rows = (raised e, rows)
assign_new others (returned user) rows = insert_new user (add user (others rows))

module _ (lower : Text → Text) (admin_emails : List Text) where
  -- `user.email.lower() in admin_emails`.
  pub is_allowlisted : Text → Bool
  is_allowlisted email = any (same_text (lower email)) admin_emails

  -- `_apply_host`.
  pub apply_host : SignInHost → User → Answer User
  unfolding is_allowlisted
  apply_host SignInHost.customer user = returned (grant_role Role.customer user)
  apply_host SignInHost.technician user =
      if not (is_technician user.role)
      then returned (request_role Role.technician user)
      else returned user
  apply_host SignInHost.backoffice user =
      if is_allowlisted user.email
      then returned (grant_role Role.admin user)
      else raised IdentityError.back_office_access_denied

  pub reconcile_existing :
      VerifiedIdentity → SignInHost → User → List User → Answer SignInOutcome × List User
  unfolding apply_host save_changed
  reconcile_existing identity host user rows =
      save_changed user (apply_host host (sync_claims identity user)) rows

  pub check_new :
      SignInHost
      → (List User → List User)
      → Answer User
      → List User
      → Answer SignInOutcome × List User
  unfolding assign_new
  check_new host others (raised e) rows = (raised e, rows)
  check_new host others (returned user) rows = assign_new others (apply_host host user) rows

  pub resolve_user :
      ℕ
      → VerifiedIdentity
      → SignInHost
      → (List User → List User)
      → Option User
      → List User
      → Answer SignInOutcome × List User
  unfolding check_new
  resolve_user new_id identity host others none rows =
      check_new host others (check_user (new_user new_id identity)) rows
  resolve_user new_id identity host others (some user) rows =
      reconcile_existing identity host user rows

  pub sign_in :
      ℕ
      → Option VerifiedIdentity
      → SignInHost
      → (List User → List User)
      → List User
      → Answer SignInOutcome × List User
  unfolding resolve_user
  sign_in new_id none host others rows = (raised IdentityError.authentication_error, rows)
  sign_in new_id (some identity) host others rows =
      resolve_user new_id identity host others (get_by_google_sub identity.google_sub rows) rows

-- The end of a decision, once the user is saved.
abbrev pub decided : User → Answer (Unit {0}) × List User → Answer User × List User
decided after (returned done, rows) = (returned after, rows)
decided after (raised e, rows) = (raised e, rows)

-- `_assert_pending_technician`, then the decision.
pub decide : (User → User) → Answer User → List User → Answer User × List User
decide decision (raised e) rows = (raised e, rows)
decide decision (returned user) rows =
    if is_pending_technician user.role user.role_status
    then decided (decision user) (save (decision user) rows)
    else (raised IdentityError.invalid_role_decision, rows)

pub approve_technician : ℕ → ℕ → ℕ → List User → Answer User × List User
unfolding decide
approve_technician user_id decided_by now rows =
    decide (approve decided_by now) (get user_id rows) rows

pub reject_technician : ℕ → ℕ → ℕ → List User → Answer User × List User
unfolding decide
reject_technician user_id decided_by now rows =
    decide (reject decided_by now) (get user_id rows) rows
