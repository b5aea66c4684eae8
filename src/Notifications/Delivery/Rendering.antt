-- ===== src/Notifications/Delivery/Rendering.antt =====
-- What `appointment_context` resolves, `_context_lines` can always render.
use field_service_management.Base.{
  true, Option, some, List, ◌++◌, Bool-cases, ◌≡◌, refl, ◌∙◌, inl, inr, is_some,
}
use field_service_management.Base.Text.{Text, codes, strip, truthy}
use field_service_management.Base.Text.Blank.{truthy-strip, truthy-strip-strip}
use field_service_management.Identity.User.{User}
use field_service_management.Notifications.Context.{
  load_user, name_of, phone_of, address_of, problem_of, or_empty, required_field,
  appointment_context,
}
use field_service_management.Notifications.Delivery.{required_line, required_problem, context_lines}
use field_service_management.Scheduling.Appointment.{Appointment}
use field_service_management.Scheduling.Context.{AppointmentContext}
use field_service_management.Scheduling.Store.{Store}

required_field-truthy :
    (value : Option Text) (label : Text) → truthy (strip (required_field value label)) ≡ true
unfolding required_field
required_field-truthy value label = elim (Bool-cases (truthy (strip (or_empty value)))) [
  | inl shown ↦ rw shown (truthy-strip-strip (or_empty value) ∙ shown)
  | inr blank ↦ rw blank (truthy-strip (codes "[" ++ (label ++ codes " missing]")))
]

required_line-some :
    (label value : Text)
    → truthy (strip value) ≡ true
    → required_line label (some value) ≡ some (label ++ (codes ": " ++ value))
unfolding required_line
required_line-some label value h = rw h refl

required_problem-some :
    (value : Text) → truthy (strip value) ≡ true → required_problem (some value) ≡ some value
required_problem-some value h = rw h refl

-- No line of a context whose six fields are there and not blank is refused.
context_lines-some :
    (context : AppointmentContext)
    (customer phone address technician technician_phone problem : Text)
    → context.customer_name ≡ some customer
    → truthy (strip customer) ≡ true
    → context.customer_phone ≡ some phone
    → truthy (strip phone) ≡ true
    → context.service_address ≡ some address
    → truthy (strip address) ≡ true
    → context.technician_name ≡ some technician
    → truthy (strip technician) ≡ true
    → context.technician_phone ≡ some technician_phone
    → truthy (strip technician_phone) ≡ true
    → context.problem_description ≡ some problem
    → truthy (strip problem) ≡ true
    → is_some (context_lines context) ≡ true
unfolding context_lines
context_lines-some context c p a t tp pr ec hc ep hp ea ha et ht etp htp epr hpr =
    rw
      (
        ec,
        required_line-some (codes "Customer") c hc,
        ep,
        required_line-some (codes "Phone") p hp,
        ea,
        required_line-some (codes "Address") a ha,
        et,
        required_line-some (codes "Technician") t ht,
        etp,
        required_line-some (codes "Technician phone") tp htp,
        epr,
        required_problem-some pr hpr,
      )
      refl

pub context_lines-appointment_context :
    (s : Store) (users : List User) (appt : Appointment)
    → is_some (context_lines (appointment_context s users appt)) ≡ true
unfolding appointment_context
context_lines-appointment_context s users appt =
    let customer : Option User = load_user appt.customer_id users in
    let technician : Option User = load_user appt.technician_id users in
    context_lines-some (appointment_context s users appt) _ _ _ _ _ _ refl
      (required_field-truthy (name_of customer) (codes "customer name")) refl
      (required_field-truthy (phone_of customer) (codes "customer phone")) refl
      (required_field-truthy (address_of customer) (codes "service address")) refl
      (required_field-truthy (name_of technician) (codes "technician name")) refl
      (required_field-truthy (phone_of technician) (codes "technician phone")) refl
      (required_field-truthy (problem_of appt.service_call_id s) (codes "problem"))
