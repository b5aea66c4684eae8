-- ===== src/Notifications/Examples.antt =====
-- Each theorem of the notifications context at a concrete input.
use field_service_management.Base.{none, some, false, List, [], ◌∷◌, filter, ◌≡◌, refl, arith, true}
use field_service_management.Base.Text.{codes}
use field_service_management.Identity.User.{User, Role, RoleStatus}
use field_service_management.Scheduling.Appointment.{Appointment, AppointmentStatus}
use field_service_management.Scheduling.Samples.{between, store, utc}
use field_service_management.Scheduling.Store.{Notice}
use field_service_management.Notifications.Context.{appointment_context}
use field_service_management.Notifications.Feed.{
  NotificationKind, NotificationEvent, Feed, list_for_user, add_event, add_recipients, mark_read,
}
use field_service_management.Notifications.Feed.Inbox.{
  IsFeed, FeedChange, change_all, expected_all, view, is_unread,
}
use field_service_management.Notifications.Feed.Inbox.Refinement.{
  list_for_user-refines, list_for_user-unread,
}
use field_service_management.Notifications.Delivery.{Port, Office, Delivered, deliver}
use field_service_management.Notifications.Delivery.Total.{Delivers, deliver-Delivers}

abbrev visit : Appointment
visit = record {
  id = 1;
  service_call_id = 0;
  technician_id = 3;
  customer_id = 7;
  time_range = between 9 10;
  status = AppointmentStatus.scheduled;
  details = none;
  created_at = 5;
  updated_at = 5;
  external_event_id = none;
  pending_audits = [];
}

-- The technician, with no phone; the customer is not there.
abbrev technician : User
technician = record {
  id = 3;
  google_sub = codes "sub";
  email = codes "t@example.org";
  name = codes "Tess";
  role = Role.technician;
  role_status = RoleStatus.approved;
  role_decided_at = none;
  role_decided_by = none;
  display_name = none;
  address = none;
  phone = none;
  assist_disclaimer_accepted_at = none;
}

abbrev event : NotificationEvent
event = record {
  id = 20;
  kind = NotificationKind.booked;
  subject = codes "s";
  body = codes "b";
  created_at = 6;
}

abbrev feed : Feed
feed = record {
  events = event ∷ [];
  recipients =
      record { id = 21; notification_event_id = 20; user_id = 7; read = false }
      ∷ record { id = 22; notification_event_id = 20; user_id = 4; read = false }
      ∷ [];
  next_uuid = 23;
}

feed-IsFeed : IsFeed feed
feed-IsFeed = record {
  unique = ((λ e. omega arith, tt), (tt, tt));
  below = (omega arith, (omega arith, tt));
  of_events = (refl, (refl, tt));
}

-- The sender raises on every mail.
abbrev port : Port
port = record {
  strftime = λ t. codes "Monday";
  local_zone = λ technician_id. utc;
  context_resolver = appointment_context store (technician ∷ []);
  recipient_email = λ user_id. some (some (codes "t@example.org"));
  send_raises = λ email subject body. true;
}

abbrev office : Office
office = record { feed = feed; mails = [] }

deliver-Delivers_example :
    (e : NotificationEvent) × (after : Office) × (deliver port 8
        (Notice.appointment_booked visit)
        office
      ≡ Delivered.delivered after)
    × Delivers port 8 (Notice.appointment_booked visit) office e after
deliver-Delivers_example =
    deliver-Delivers port store (technician ∷ []) 8 (Notice.appointment_booked visit) office
      (λ appt. refl) feed-IsFeed refl (λ e. omega arith)

-- A second event for two users, and the first notification read.
abbrev second : NotificationEvent
second = record event { id = 30; created_at = 9 }

abbrev changes : List FeedChange
changes = FeedChange.post second (7 ∷ 3 ∷ []) ∷ FeedChange.read 21 ∷ []

abbrev changed : Feed
changed = record {
  events = event ∷ second ∷ [];
  recipients =
      record { id = 21; notification_event_id = 20; user_id = 7; read = true }
      ∷ record { id = 22; notification_event_id = 20; user_id = 4; read = false }
      ∷ record { id = 23; notification_event_id = 30; user_id = 7; read = false }
      ∷ record { id = 24; notification_event_id = 30; user_id = 3; read = false }
      ∷ [];
  next_uuid = 25;
}

changes-succeed : change_all changes feed ≡ some changed
unfolding add_event add_recipients mark_read
changes-succeed = refl

list_for_user-refines_example : view changed ≡ expected_all changes (view feed)
list_for_user-refines_example =
    list_for_user-refines changes feed changed feed-IsFeed changes-succeed

list_for_user-unread_example :
    list_for_user 7 true changed ≡ filter is_unread (list_for_user 7 false changed)
list_for_user-unread_example = list_for_user-unread 7 changed
