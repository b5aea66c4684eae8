-- ===== src/Platform/Session.antt =====
-- backend/src/fsm/platform/api/auth_deps.py, and the guards of scheduling_routes.py beside it. A
-- session is the id that its cookie carries: none without a session, an id, or a valid id.
use field_service_management.Base.{
  ℕ, Bool, true, false, ◌&&◌, ◌||◌, List, [], ◌∷◌, any, ◌==◌, if◌then◌else◌,
}
use field_service_management.Base.Text.{Text}
use field_service_management.Identity.User.{Role, RoleStatus, returned, raised, is_approved}
use field_service_management.Identity.Users
use field_service_management.Scheduling.Appointment.{Appointment}
use field_service_management.Scheduling.ServiceCall.{ServiceCall}
use field_service_management.Scheduling.Repositories.Appointments.{list_for_service_call}
use field_service_management.Platform.Backend.{
  answers, refuses, Handler, Channel, user_channel, admins_channel, pure, respond, require, ◌>>=◌,
  ◌>>◌, of_result,
}

pub record SessionUser : Type 0 where
  pub id : ℕ
  pub role : Role
  pub email : Text
  pub role_status : RoleStatus

unfoldable pub resolve_current_user : ℕ → Handler SessionUser
resolve_current_user user_id b = elim (Users.get user_id b.users) [
  | raised e ↦ (refuses 401, b)
  | returned user ↦ (
    answers (record {
      id = user.id;
      role = user.role;
      email = user.email;
      role_status = user.role_status;
    }),
    b,
  )
]

pub data Session : Type 0 where
  signed_out malformed : Session
  session_of : ℕ → Session

unfoldable pub require_user : Session → Handler SessionUser
unfolding resolve_current_user
require_user signed_out = respond (refuses 401)
require_user malformed = respond (refuses 401)
require_user (session_of user_id) = resolve_current_user user_id

abbrev pub same_role : Role → Role → Bool
same_role Role.customer Role.customer = true
same_role Role.technician Role.technician = true
same_role Role.admin Role.admin = true
same_role Role.customer Role.technician = false
same_role Role.customer Role.admin = false
same_role Role.technician Role.customer = false
same_role Role.technician Role.admin = false
same_role Role.admin Role.customer = false
same_role Role.admin Role.technician = false

abbrev pub has_role : Role → SessionUser → Bool
has_role role user = same_role user.role role && is_approved user.role_status

-- `require_role` of one role.
unfoldable pub require_role : Role → Session → Handler SessionUser
unfolding require_user
require_role role session =
    require_user session >>= λ user. require (has_role role user) 403 >> pure user

-- `_assert_self`.
abbrev pub assert_self : ℕ → SessionUser → Handler (Unit {0})
assert_self technician_id user = require (technician_id == user.id) 403

abbrev pub is_participant : Appointment → SessionUser → Bool
is_participant appt user = user.id == appt.customer_id || user.id == appt.technician_id

-- `_assert_participant`.
abbrev pub assert_participant : Appointment → SessionUser → Handler (Unit {0})
assert_participant appt user = require (is_participant appt user) 403

abbrev pub is_technician_of : SessionUser → Appointment → Bool
is_technician_of user appt = appt.technician_id == user.id

-- `_assert_call_participant`.
unfoldable pub assert_call_participant : ServiceCall → SessionUser → Handler (Unit {0})
assert_call_participant sc user =
    if same_role user.role Role.admin || user.id == sc.customer_id
    then pure tt
    else (λ b. (of_result (list_for_service_call sc.id b.store), b)) >>= λ appts.
        require (any (is_technician_of user) appts) 403

-- `subscribable_channels`.
abbrev pub subscribable_channels : SessionUser → List Channel
subscribable_channels user =
    if has_role Role.admin user
    then user_channel user.id ∷ admins_channel ∷ []
    else user_channel user.id ∷ []
