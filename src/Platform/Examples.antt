-- ===== src/Platform/Examples.antt =====
-- Each theorem of the HTTP layer at a concrete input.
use field_service_management.Base.{
  ℕ, none, some, false, List, [], ◌∷◌, any, ◌&&◌, ◌==◌, leb, ◌≡◌, refl, arith,
}
use field_service_management.Base.Text.{codes}
use field_service_management.Identity.User.{User, Role, RoleStatus}
use field_service_management.Scheduling.Outcome.{Result, ok}
use field_service_management.Scheduling.Outcome
use field_service_management.Scheduling.Repositories.Consistency.{IsConsistent}
use field_service_management.Scheduling.Samples.{
  at, hours, inputs, mondays, monday_hours, store, store-IsConsistent, utc,
}
use field_service_management.Scheduling.WorkingHours.{make_daily, make_weekly}
use field_service_management.Platform.Backend.{Backend, Settings, WorkingHoursRow}
use field_service_management.Platform.Backend.Post.{Authorizes}
use field_service_management.Platform.Session.{Session}
use field_service_management.Platform.Schedules.{
  days_off_between, get_for_technician, set_for_technician, make_windows,
}
use field_service_management.Platform.Schedules.DaysOff.{
  OffChange, change_all, expected_all, calendar, days_off_between-refines,
}
use field_service_management.Platform.Schedules.Stored.{
  read_back, get_for_technician-set_for_technician,
}
use field_service_management.Scheduling.CalendarIdentity.{build_ical_uid}
use field_service_management.GoogleCalendar.Connections.{CalendarConnectionRow, ConnectionStatus}
use field_service_management.Platform.Sync.{
  RawEvent, Outside, Listing, Synced, process_connection, poll_once,
}
use field_service_management.Platform.Sync.Commits.{Commits, process_connection-Commits}
use field_service_management.Platform.Sync.Invariant.{poll_once-IsConsistent}
use field_service_management.Platform.Appointments.Requests.{ApiRequest, serve}
use field_service_management.Platform.Appointments.Requests.Access.{IsPermitted, serve-IsPermitted}
use field_service_management.Platform.Appointments.Requests.Invariant.{
  serve_all, serve_all-IsConsistent,
}

abbrev user : ℕ → Role → User
user id role = record {
  id = id;
  google_sub = codes "sub";
  email = codes "u@example.org";
  name = codes "U";
  role = role;
  role_status = RoleStatus.approved;
  role_decided_at = none;
  role_decided_by = none;
  display_name = none;
  address = some (codes "1 Road");
  phone = some (codes "5551234567");
  assist_disclaimer_accepted_at = none;
}

abbrev settings : Settings
settings = record {
  booking_cancel_limit = 3;
  booking_cancel_window = hours 24;
  booking_cancel_cooloff = hours 24;
  timezone = utc;
}

abbrev backend : Backend
backend = record {
  store = store;
  users = user 7 Role.customer ∷ user 3 Role.technician ∷ [];
  time_off = [];
  working_hours = [];
  holidays = [];
  cues = [];
}

-- The customer books the open call for ten o'clock.
abbrev booking : ApiRequest
booking = ApiRequest.books (at 8) 0 3 (at 10) (at 11)

serve-IsPermitted_example :
    Authorizes
      (IsPermitted settings (Session.session_of 7) booking backend)
      backend
      (serve settings (Session.session_of 7) booking backend)
serve-IsPermitted_example = serve-IsPermitted settings (Session.session_of 7) backend booking

-- Then somebody else tries to cancel the first visit, and the technician takes the day off.
abbrev requests : List (Session × ApiRequest)
requests =
    (Session.session_of 7, booking)
    ∷ (Session.session_of 9, ApiRequest.cancels (at 8) 1)
    ∷ (Session.session_of 3, ApiRequest.adds_day_off 3 1)
    ∷ []

serve_all-IsConsistent_example : IsConsistent (serve_all settings requests backend).store
serve_all-IsConsistent_example = serve_all-IsConsistent settings requests backend store-IsConsistent

abbrev changes : List OffChange
changes = OffChange.adds 3 5 ∷ OffChange.adds 3 5 ∷ OffChange.adds 3 6 ∷ OffChange.removes 3 5 ∷ []

days_off_between-refines_example :
    any (λ date. date == 6) (days_off_between 3 0 9 (change_all changes []))
    ≡ ((leb 0 6 && leb 6 9) && expected_all changes (calendar []) 3 6)
days_off_between-refines_example = days_off_between-refines changes [] 3 0 9 6

mondays-accepted : Outcome.◌>>=◌ (make_windows (monday_hours ∷ [])) make_weekly ≡ ok mondays
unfolding make_windows make_daily make_weekly
mondays-accepted = refl

abbrev old : List WorkingHoursRow
old = record { technician_id = 4; weekday = 2; start_time = 1; end_time = 2 } ∷ []

get_for_technician-set_for_technician_example :
    (get_for_technician 3 (set_for_technician 3 mondays old) ≡ read_back mondays)
    × (get_for_technician 4 (set_for_technician 3 mondays old) ≡ get_for_technician 4 old)
get_for_technician-set_for_technician_example =
    get_for_technician-set_for_technician 3 4 (monday_hours ∷ []) mondays old mondays-accepted
      (λ e. omega arith)

-- The event of the first visit has moved to eleven o'clock; the last event is not the program's.
abbrev event : RawEvent
event = record {
  ical_uid = some (build_ical_uid 1);
  cancelled = false;
  start = some (at 11);
  end = some (at 12);
  declined = [];
  updated = at 8;
}

-- The cue of a change of the second visit is refused.
abbrev outside : Outside
outside = record {
  list_events = λ calendar_id token sync_token.
      Listing.listed (event ∷ record event { ical_uid = none } ∷ []) (codes "next");
  publish_raises = λ change. change.appointment_id == 2;
  token_raises = λ technician_id. false;
}

abbrev connection : CalendarConnectionRow
connection = record {
  technician_id = 3;
  fsm_calendar_id = codes "c";
  encrypted_refresh_token = codes "t";
  status = ConnectionStatus.connected;
  sync_token = none;
}

abbrev synced : Synced
synced = record { store = store; connections = connection ∷ []; published = [] }

process_connection-Commits_example :
    Commits inputs outside
      (λ n. at 8)
      connection
      synced
      (process_connection inputs outside (λ n. at 8) connection synced)
process_connection-Commits_example =
    process_connection-Commits inputs outside (λ n. at 8) connection synced

poll_once-IsConsistent_example :
    IsConsistent (poll_once inputs outside (λ technician n. at 8) synced).1.store
poll_once-IsConsistent_example =
    poll_once-IsConsistent inputs outside (λ technician n. at 8) synced store-IsConsistent
