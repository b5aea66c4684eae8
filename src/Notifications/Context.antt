-- ===== src/Notifications/Context.antt =====
-- `appointment_context` of backend/src/fsm/platform/notifications_factory.py, `required_field` of
-- context_rendering.py and `load_user` of identity_lookup.py: what the notifications resolve of an
-- appointment, from the service calls and the users.
use field_service_management.Base.{ℕ, Option, none, some, List, [], ◌++◌, if◌then◌else◌}
use field_service_management.Base.Rows.{find}
use field_service_management.Base.Text.{Text, codes, strip, truthy}
use field_service_management.Identity.User.{User, preferred_name}
use field_service_management.Identity.Users.{user_id}
use field_service_management.Scheduling.Appointment.{Appointment}
use field_service_management.Scheduling.Context.{AppointmentContext, empty_context}
use field_service_management.Scheduling.Repositories.{call_id}
use field_service_management.Scheduling.Store.{Store}

abbrev pub or_empty : Option Text → Text
or_empty none = []
or_empty (some value) = value

unfoldable pub required_field : Option Text → Text → Text
required_field value label =
    if truthy (strip (or_empty value))
    then strip (or_empty value)
    else codes "[" ++ (label ++ codes " missing]")

-- `load_user`: None for a user who is not there.
abbrev pub load_user : ℕ → List User → Option User
load_user id users = find user_id id users

abbrev pub name_of : Option User → Option Text
name_of none = none
name_of (some user) = some (preferred_name user)

abbrev pub address_of : Option User → Option Text
address_of none = none
address_of (some user) = user.address

abbrev pub phone_of : Option User → Option Text
phone_of none = none
phone_of (some user) = user.phone

-- The description of the call; None where the lookup raises.
abbrev pub problem_of : ℕ → Store → Option Text
problem_of service_call_id s = elim (find call_id service_call_id s.service_calls) [
  | none ↦ none
  | some sc ↦ some sc.description
]

unfoldable pub appointment_context : Store → List User → Appointment → AppointmentContext
unfolding required_field
appointment_context s users appt =
    let customer : Option User = load_user appt.customer_id users in
    let technician : Option User = load_user appt.technician_id users in
    record empty_context {
      customer_name = some (required_field (name_of customer) (codes "customer name"));
      problem_description =
          some (required_field (problem_of appt.service_call_id s) (codes "problem"));
      service_address = some (required_field (address_of customer) (codes "service address"));
      customer_phone = some (required_field (phone_of customer) (codes "customer phone"));
      technician_name = some (required_field (name_of technician) (codes "technician name"));
      technician_phone = some (required_field (phone_of technician) (codes "technician phone"));
    }
