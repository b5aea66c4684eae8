-- ===== src/Notifications/Delivery.antt =====
-- backend/src/fsm/notifications/application/delivering_notifications.py. `strftime` is Python's, of a
-- local time in the format of `_format_local`; the lookup of an address and the send may raise.
pub mod Rendering
pub mod Total
use field_service_management.Base.{
  ℕ, suc, Bool, true, false, Option, none, some, List, [], ◌∷◌, ◌++◌, if◌then◌else◌,
}
use field_service_management.Base.Text.{Text, codes, strip, truthy, join}
use field_service_management.Scheduling.Appointment.{Appointment}
use field_service_management.Scheduling.Context.{AppointmentContext, problem_summary}
use field_service_management.Scheduling.Slots.{Zone}
use field_service_management.Scheduling.Store.{
  Notice, appointment_booked, appointment_rescheduled, appointment_cancelled, appointment_updated,
  appointment_reschedule_rejected,
}
use field_service_management.Notifications.Feed.{
  NotificationKind, booked, rescheduled, reschedule_rejected, updated, cancelled, NotificationEvent,
  Feed, add_event,
}

-- `_subject`.
unfoldable pub subject_of : Text → AppointmentContext → Text
subject_of base context =
    let problem : Text = problem_summary context in
    if truthy problem then base ++ (codes " — " ++ problem) else base

-- A field whose value is None or blank raises ValueError: `none`.
unfoldable pub required_line : Text → Option Text → Option Text
required_line label none = none
required_line label (some value) =
    if truthy (strip value) then some (label ++ (codes ": " ++ value)) else none

infixl 5 ◌>>=◌
abbrev ◌>>=◌ : {A B : Type 0} → Option A → (A → Option B) → Option B
none >>= f = none
some a >>= f = f a

abbrev pub required_problem : Option Text → Option Text
required_problem none = none
required_problem (some problem) = if truthy (strip problem) then some problem else none

abbrev pub newline : Text
newline = b'\n' ∷ []

unfoldable pub context_lines : AppointmentContext → Option Text
unfolding required_line
context_lines context = required_line (codes "Customer") context.customer_name >>= λ customer.
    required_line (codes "Phone") context.customer_phone >>= λ phone.
    required_line (codes "Address") context.service_address >>= λ address.
    required_line (codes "Technician") context.technician_name >>= λ technician.
    required_line (codes "Technician phone") context.technician_phone >>= λ technician_phone.
    required_problem context.problem_description >>= λ problem. some (
      newline
      ++ (newline
          ++ (join newline (customer ∷ phone ∷ address ∷ technician ∷ technician_phone ∷ [])
              ++ (newline ++ (newline ++ problem)))))

-- The collaborators of the port.
pub record Port : Type 0 where
  pub strftime : ℕ → Text
  pub local_zone : ℕ → Zone
  pub context_resolver : Appointment → AppointmentContext
  -- `none` for a raise.
  pub recipient_email : ℕ → Option (Option Text)
  -- Whether the send raises.
  pub send_raises : Text → Text → Text → Bool

-- `_start_text`.
abbrev pub start_text : Port → Appointment → Text
start_text port appt =
    port.strftime ((port.local_zone appt.technician_id).to_local appt.time_range.start)

abbrev pub details_block : Option Text → Text
details_block none = []
details_block (some details) =
    if truthy (strip details) then newline ++ (codes "Details: " ++ strip details) else []

-- What the five methods of the port hand to `_deliver`.
abbrev pub kind_of : Notice → NotificationKind
kind_of (appointment_booked appt) = booked
kind_of (appointment_rescheduled appt) = rescheduled
kind_of (appointment_cancelled appt) = cancelled
kind_of (appointment_updated appt) = updated
kind_of (appointment_reschedule_rejected appt) = reschedule_rejected

abbrev pub subject_base : Notice → Text
subject_base (appointment_booked appt) = codes "Appointment booked"
subject_base (appointment_rescheduled appt) = codes "Appointment rescheduled"
subject_base (appointment_cancelled appt) = codes "Appointment cancelled"
subject_base (appointment_updated appt) = codes "Appointment updated"
subject_base (appointment_reschedule_rejected appt) = codes "Appointment time change rejected"

abbrev pub appointment_of : Notice → Appointment
appointment_of (appointment_booked appt) = appt
appointment_of (appointment_rescheduled appt) = appt
appointment_of (appointment_cancelled appt) = appt
appointment_of (appointment_updated appt) = appt
appointment_of (appointment_reschedule_rejected appt) = appt

unfoldable pub body_of : Port → Notice → Text → Text
body_of port (appointment_booked appt) lines =
    codes "Your appointment has been booked for " ++ (start_text port appt ++ (codes "." ++ lines))
body_of port (appointment_rescheduled appt) lines =
    codes "Your appointment has been rescheduled to "
    ++ (start_text port appt ++ (codes "." ++ lines))
body_of port (appointment_cancelled appt) lines =
    codes "Your appointment has been cancelled." ++ lines
body_of port (appointment_updated appt) lines =
    codes "Your appointment for "
    ++ (start_text port appt
        ++ (codes " has been updated." ++ (lines ++ details_block appt.details)))
body_of port (appointment_reschedule_rejected appt) lines =
    codes "The requested time is not available. The appointment remains at "
    ++ (start_text port appt ++ (codes "." ++ lines))

-- The feed, and the mails that were handed to the sender: address, subject and body.
pub record Office : Type 0 where
  pub feed : Feed
  pub mails : List (Text × Text × Text)

-- `_send_email`: whatever raises is caught.
unfoldable pub send_email : Port → ℕ → Text → Text → Office → Office
send_email port user_id subject body office = elim (port.recipient_email user_id) [
  | none ↦ office
  | some none ↦ office
  | some (some email) ↦
      if port.send_raises email subject body
      then office
      else record office { mails = office.mails ++ (email, subject, body) ∷ [] }
]

-- How a delivery ends.
pub data Delivered : Type 0 where
  delivered : Office → Delivered
  value_error integrity_error : Delivered

abbrev pub event_of : ℕ → ℕ → Notice → Text → Text → NotificationEvent
event_of id now notice subject body = record {
  id = id;
  kind = kind_of notice;
  subject = subject;
  body = body;
  created_at = now;
}

-- The event with its two recipients, and the mail of the technician.
unfoldable pub deliver_rendered : Port → ℕ → Notice → Text → Text → Office → Delivered
unfolding send_email
deliver_rendered port now notice subject body office =
    let appt : Appointment = appointment_of notice in
    let id : ℕ = office.feed.next_uuid in
    elim (add_event (event_of id now notice subject body)
      (appt.customer_id ∷ appt.technician_id ∷ []) (record office.feed { next_uuid = suc id })) [
        | none ↦ integrity_error
        | some feed ↦
            delivered
              (send_email port appt.technician_id subject body (record office { feed = feed }))
      ]

-- `_deliver`.
unfoldable pub deliver : Port → ℕ → Notice → Office → Delivered
unfolding deliver_rendered subject_of context_lines
deliver port now notice office =
    let context : AppointmentContext = port.context_resolver (appointment_of notice) in
    elim (context_lines context) [
      | none ↦ value_error
      | some lines ↦
          deliver_rendered port now notice (subject_of (subject_base notice) context)
            (body_of port notice lines) office
    ]
