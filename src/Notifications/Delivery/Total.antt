-- ===== src/Notifications/Delivery/Total.antt =====
-- `DeliveringNotificationPort` as `build_notifications` wires it: a delivery always succeeds.
use field_service_management.Base.{
  ℕ, suc, true, none, some, List, [], ◌∷◌, ◌++◌, All-mono, is_some, Bool-cases, Option-cases, ◌≡◌,
  ◌≢◌, ◌⊎◌, inl, inr, refl, ap, ◌∙◌, arith,
}
use field_service_management.Base.Rows.{find}
use field_service_management.Base.Text.{Text}
use field_service_management.Identity.User.{User}
use field_service_management.Scheduling.Appointment.{Appointment}
use field_service_management.Scheduling.Context.{AppointmentContext}
use field_service_management.Scheduling.Store.{Store, Notice}
use field_service_management.Notifications.Feed.{
  NotificationEvent, Feed, list_for_user, event_id, add_event,
}
use field_service_management.Notifications.Feed.Inbox.{IsFeed, post, expected, view}
use field_service_management.Notifications.Feed.Inbox.Refinement.{change-IsFeed, view-change}
use field_service_management.Notifications.Feed.Inbox.Success.{add_event-some}
use field_service_management.Notifications.Context.{appointment_context}
use field_service_management.Notifications.Delivery.Rendering.{context_lines-appointment_context}
use field_service_management.Notifications.Delivery.{
  Port, Office, delivered, kind_of, appointment_of, subject_of, subject_base, body_of,
  context_lines, event_of, send_email, deliver_rendered, deliver,
}

-- The wiring of `build_notifications`.
abbrev pub IsWired : Port → Store → List User → Type 0
IsWired port s users =
    (appt : Appointment) → port.context_resolver appt ≡ appointment_context s users appt

-- The mails after an event: one more, to the technician's address, or the same.
abbrev pub IsMailed : Port → ℕ → NotificationEvent → Office → Office → Type 0
IsMailed port technician_id event office after =
    (after.mails ≡ office.mails)
    ⊎ ((email : Text) × (port.recipient_email technician_id ≡ some (some email))
        × (after.mails ≡ office.mails ++ (email, event.subject, event.body) ∷ []))

-- What a delivery does.
abbrev pub Delivers : Port → ℕ → Notice → Office → NotificationEvent → Office → Type 0
Delivers port now notice office event after =
    (event.kind ≡ kind_of notice)
    × (event.created_at ≡ now)
    × (view after.feed
        ≡ expected
            (post event
              ((appointment_of notice).customer_id ∷ (appointment_of notice).technician_id ∷ []))
            (record (view office.feed) { next_uuid = suc office.feed.next_uuid }))
    × IsMailed port (appointment_of notice).technician_id event office after
    × IsFeed after.feed

send_email-feed :
    (port : Port) (user_id : ℕ) (subject body : Text) (office : Office)
    → (send_email port user_id subject body office).feed ≡ office.feed
unfolding send_email
send_email-feed port user_id subject body office = ground arith

-- The uuid of the event itself.
view-bumped :
    (f : Feed)
    → view (record f { next_uuid = suc f.next_uuid })
      ≡ record (view f) { next_uuid = suc f.next_uuid }
unfolding view list_for_user
view-bumped f = refl

bumped-IsFeed : (f : Feed) → IsFeed f → IsFeed (record f { next_uuid = suc f.next_uuid })
bumped-IsFeed f ok = record {
  unique = ok.unique;
  below = All-mono f.recipients (λ row b. omega (arith, b)) ok.below;
  of_events = ok.of_events;
}

send_email-IsMailed :
    (port : Port) (event : NotificationEvent) (user_id : ℕ) (office office' : Office)
    → office'.mails ≡ office.mails
    → IsMailed port user_id event office (send_email port user_id event.subject event.body office')
unfolding send_email
send_email-IsMailed port event user_id office office' same =
    elim (Option-cases (port.recipient_email user_id)) [
      | inl raised ↦ inl (ground (arith, raised, same))
      | inr (none, e) ↦ inl (ground (arith, e, same))
      | inr (some email, e) ↦ elim (Bool-cases (port.send_raises email event.subject event.body)) [
        | inl raises ↦ inl (ground (arith, e, raises, same))
        | inr sent ↦ inr (email, e, ground (arith, e, sent, same))
      ]
    ]

deliver_rendered-Delivers :
    (port : Port) (now : ℕ) (notice : Notice) (subject body : Text) (office : Office)
    → IsFeed office.feed
    → find event_id office.feed.next_uuid office.feed.events ≡ none
    → (appointment_of notice).technician_id ≢ (appointment_of notice).customer_id
    → (event : NotificationEvent) × (after : Office) × (deliver_rendered port now notice subject
          body office
        ≡ delivered after)
      × Delivers port now notice office event after
unfolding deliver_rendered
deliver_rendered-Delivers port now notice subject body office ok fresh differ =
    let appt : Appointment = appointment_of notice in
    let bumped : Feed = record office.feed { next_uuid = suc office.feed.next_uuid } in
    let event : NotificationEvent = event_of office.feed.next_uuid now notice subject body in
    let users : List ℕ = appt.customer_id ∷ appt.technician_id ∷ [] in
    let fine =
      add_event-some event users bumped (bumped-IsFeed office.feed ok) ((differ, tt), (tt, tt))
        fresh in
    elim (Option-cases (add_event event users bumped)) [
      | inl failed ↦ ground (arith, fine, failed)
      | inr (feed, e) ↦
          let after : Office =
            send_email port appt.technician_id subject body (record office { feed = feed }) in
          (
            event,
            after,
            ground (arith, e),
            (
              refl,
              refl,
              ap view (
                    send_email-feed port appt.technician_id subject body
                      (record office { feed = feed }))
                  ∙ view-change bumped (bumped-IsFeed office.feed ok) (post event users) feed e
                  ∙ ap (expected (post event users)) (view-bumped office.feed),
              send_email-IsMailed port event appt.technician_id office
                  (record office { feed = feed }) refl,
              rw
                  (send_email-feed port appt.technician_id subject body
                    (record office { feed = feed }))
                  (change-IsFeed bumped (bumped-IsFeed office.feed ok) (post event users) feed e),
            ),
          )
    ]

-- As `build_notifications` wires the port, with tables in order and a fresh uuid, every notice of an
-- appointment whose technician is not its customer is delivered, whatever is missing from the
-- profiles and whatever the address lookup and the sender raise: the customer and the technician
-- each get one unread notification of the notice and nobody else gets any, and at most one mail goes
-- out, of the same text, to the address of the technician.
pub deliver-Delivers :
    (port : Port) (s : Store) (users : List User) (now : ℕ) (notice : Notice) (office : Office)
    → IsWired port s users
    → IsFeed office.feed
    → find event_id office.feed.next_uuid office.feed.events ≡ none
    → (appointment_of notice).technician_id ≢ (appointment_of notice).customer_id
    → (event : NotificationEvent) × (after : Office) × (deliver port now notice office
        ≡ delivered after)
      × Delivers port now notice office event after
unfolding deliver
deliver-Delivers port s users now notice office wired ok fresh differ =
    let appt : Appointment = appointment_of notice in
    let context : AppointmentContext = port.context_resolver appt in
    let fine : is_some (context_lines context) ≡ true =
      ap (λ c. is_some (context_lines c)) (wired appt)
      ∙ context_lines-appointment_context s users appt in
    elim (Option-cases (context_lines context)) [
      | inl failed ↦ ground (arith, fine, failed)
      | inr (lines, e) ↦
          let done =
            deliver_rendered-Delivers port now notice (subject_of (subject_base notice) context)
              (body_of port notice lines) office ok fresh differ in
          (done.0, done.1, ground (arith, e) ∙ done.2, done.3)
    ]
