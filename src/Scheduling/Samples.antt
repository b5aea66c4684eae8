-- ===== src/Scheduling/Samples.antt =====
-- Sample data for the tests of the scheduling context: one Monday, one technician, one customer.
use field_service_management.Base.{
  Option, true, refl, ℕ, ◌+◌, ◌*◌, ◌<◌, refl, Bool, false, none, some, [], ◌∷◌, arith,
}
use field_service_management.Scheduling.Outcome.{ok}
use field_service_management.Scheduling.TimeRange.{TimeRange}
use field_service_management.Scheduling.WorkingHours.{
  DailyHours, WeeklyWorkingHours, micros_per_day, micros_per_minute, oclock,
}
use field_service_management.Scheduling.WorkingHours.Lookup.{window_for-All}
use field_service_management.Scheduling.Slots.{Zone}
use field_service_management.Scheduling.Slots.Spans.{EndsWithinDay}
use field_service_management.Scheduling.Policy.{AvailabilityInputs}
use field_service_management.Scheduling.Policy.Offered.{IsWholeMinutes, HasWholeMinutes}
use field_service_management.Scheduling.Contact.{ContactInfo}
use field_service_management.Scheduling.Appointment.{AppointmentStatus}
use field_service_management.Scheduling.ServiceCall.{ServiceCall, ServiceCallStatus}
use field_service_management.Scheduling.Store.{
  AppointmentRow, Store, OutboxRow, OutboxOperation, OutboxStatus,
}
use field_service_management.Scheduling.Context.{empty_context}
use field_service_management.Scheduling.World.{CalendarPort, World}
use field_service_management.Scheduling.Dispatcher.{Dispatcher}
use field_service_management.Scheduling.Dispatcher.Drain.{InOrder}
use field_service_management.Scheduling.Repositories.Consistency.{IsConsistent}
use field_service_management.Scheduling.Booking.{AppointmentService}

abbrev pub utc : Zone
utc = record { localize = λ t. t; to_local = λ t. t }

abbrev pub no_holiday : ℕ → Bool
no_holiday day = false

abbrev pub monday_hours : DailyHours
monday_hours = record { weekday = 0; start = oclock 9; end = oclock 12 }

abbrev pub mondays : WeeklyWorkingHours
mondays = record { windows = monday_hours ∷ [] }

-- Day 1 is a Monday; `at hour` is an hour of it, `hours n` a length.
abbrev pub hours : ℕ → ℕ
hours n = n * 60 * micros_per_minute

abbrev pub at : ℕ → ℕ
at hour = micros_per_day + hours hour

abbrev pub between : ℕ → ℕ → TimeRange
between from to = record { start = at from; end = at to }

pub mondays-EndsWithinDay : EndsWithinDay mondays
mondays-EndsWithinDay weekday dh h =
    window_for-All (λ (d : DailyHours). d.end < micros_per_day) (monday_hours ∷ []) weekday dh
      (omega arith, tt) h

pub mondays-HasWholeMinutes : HasWholeMinutes mondays
mondays-HasWholeMinutes weekday dh h =
    window_for-All IsWholeMinutes (monday_hours ∷ []) weekday dh
      ((omega arith, omega arith, omega arith), tt) h

abbrev pub call : ServiceCall
call = record {
  id = 0;
  customer_id = 7;
  description = 65 ∷ [];
  status = ServiceCallStatus.open_call;
  created_at = 0;
  triage_summary = none;
  headline = none;
}

abbrev pub row_at : ℕ → ℕ → ℕ → AppointmentStatus → AppointmentRow
row_at id from to status = record {
  id = id;
  service_call_id = 9;
  technician_id = 3;
  customer_id = 7;
  start_at = at from;
  end_at = at to;
  status = status;
  details = none;
  external_event_id = some 40;
  created_at = 5;
  updated_at = 5;
}

-- A booked visit from nine to ten, and a cancelled one at the same time.
abbrev pub store : Store
store = record {
  service_calls = call ∷ [];
  attachments = [];
  appointments =
      row_at 1 9 10 AppointmentStatus.scheduled ∷ row_at 2 9 10 AppointmentStatus.cancelled ∷ [];
  audits = [];
  outbox = [];
  notices = [];
  next_uuid = 10;
}

pub store-IsConsistent : IsConsistent store
store-IsConsistent = record {
  valid = (omega arith, (omega arith, tt));
  separate = (((refl, refl), tt), (tt, tt));
  fresh = (omega arith, (omega arith, tt));
}

abbrev pub reachable : ℕ → ContactInfo
reachable user_id = record { address = some (65 ∷ []); phone = some (49 ∷ []) }

-- The calendar is busy from ten to eleven.
abbrev pub service : AppointmentService
service = record {
  get_busy = λ technician from to. ok (between 10 11 ∷ []);
  contact_resolver = some reachable;
  cancellation_limit = none;
}

abbrev pub inputs : ℕ → ℕ → AvailabilityInputs
inputs technician around = record { working_hours = mondays; tz = utc; excluded_dates = no_holiday }

-- A pending entry for a visit that has no event yet, and one that has failed four times.
abbrev pub queued : ℕ → OutboxOperation → ℕ → Option ℕ → ℕ → OutboxRow
queued id operation appointment_id external_event_id attempts = record {
  id = id;
  operation = operation;
  appointment_id = appointment_id;
  external_event_id = external_event_id;
  status = OutboxStatus.pending;
  attempts = attempts;
  last_error = none;
  processed_at = none;
}

abbrev pub world : World
world = record {
  store = record store {
    outbox =
        queued 6 OutboxOperation.update 1 none 4
        ∷ queued 7 OutboxOperation.delete 2 (some 40) 0
        ∷ [];
  };
  calls = [];
  alerts = [];
}

pub world-InOrder : InOrder world.store
world-InOrder = (
  record {
    valid = store-IsConsistent.valid;
    separate = store-IsConsistent.separate;
    fresh = store-IsConsistent.fresh;
  },
  record {
    distinct = ((refl, tt), (tt, tt));
    bounded = ((λ _. omega arith), ((λ _. omega arith), tt));
    drawn = (omega arith, (omega arith, tt));
  },
)

-- A calendar that answers, and technicians and customers without a profile.
abbrev pub calendar : CalendarPort
calendar = record {
  create_event = λ calls a context. some 50;
  update_event = λ calls event_id a context. some tt;
  delete_event = λ calls event_id. some tt;
}

abbrev pub dispatcher : Dispatcher
dispatcher = record {
  resolver = λ technician_id. some calendar;
  has_error_callback = true;
  customer_context_resolver = λ user_id. some empty_context;
  technician_context_resolver = λ user_id. some empty_context;
  photo_url = none;
}
