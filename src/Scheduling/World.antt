-- ===== src/Scheduling/World.antt =====
-- The calendar of backend/src/fsm/scheduling/ports/calendar.py beside the tables: the world records
-- the calls of the calendar and of the dispatcher's error callback, which no rollback takes back.
use field_service_management.Base.{ℕ, Option, none, some, List, [], ◌∷◌, ◌++◌}
use field_service_management.Scheduling.Outcome.{Result, ok, err, Error}
use field_service_management.Scheduling.Appointment.{Appointment}
use field_service_management.Scheduling.Context.{AppointmentContext}
use field_service_management.Scheduling.Store.{Store, Action}

-- A call of the calendar port.
pub data CalendarCall : Type 0 where
  created : Appointment → AppointmentContext → CalendarCall
  updated : ℕ → Appointment → AppointmentContext → CalendarCall
  deleted : ℕ → CalendarCall

-- The port of one technician: its answers may depend on the calls before, and `none` is a raise.
pub record CalendarPort : Type 0 where
  pub create_event : List CalendarCall → Appointment → AppointmentContext → Option ℕ
  pub update_event : List CalendarCall → ℕ → Appointment → AppointmentContext → Option (Unit {0})
  pub delete_event : List CalendarCall → ℕ → Option (Unit {0})

pub record World : Type 0 where
  pub store : Store
  pub calls : List CalendarCall
  pub alerts : List (ℕ × Error)

abbrev pub Step : Type 0 → Type 0
Step A = World → Result A × World

infixl 5 ◌>>=◌
abbrev pub ◌>>=◌ : {A B : Type 0} → Step A → (A → Step B) → Step B
◌>>=◌ step rest w = elim (step w).0 [ ok a ↦ rest a (step w).1 | err e ↦ (err e, (step w).1) ]

-- A call over the tables.
abbrev pub on_store : {A : Type 0} → Action A → Step A
on_store m w = ((m w.store).0, record w { store = (m w.store).1 })

-- A call of a parameter that may raise.
abbrev pub or_raise : {A : Type 0} → Option A → Result A
or_raise none = err Error.calendar_error
or_raise (some a) = ok a

abbrev pub resolve : {A : Type 0} → Option A → Step A
resolve answer w = (or_raise answer, w)

abbrev pub create_event : CalendarPort → Appointment → AppointmentContext → Step ℕ
create_event calendar appt context w = (
  or_raise (calendar.create_event w.calls appt context),
  record w { calls = w.calls ++ CalendarCall.created appt context ∷ [] },
)

abbrev pub update_event : CalendarPort → ℕ → Appointment → AppointmentContext → Step (Unit {0})
update_event calendar event_id appt context w = (
  or_raise (calendar.update_event w.calls event_id appt context),
  record w { calls = w.calls ++ CalendarCall.updated event_id appt context ∷ [] },
)

abbrev pub delete_event : CalendarPort → ℕ → Step (Unit {0})
delete_event calendar event_id w = (
  or_raise (calendar.delete_event w.calls event_id),
  record w { calls = w.calls ++ CalendarCall.deleted event_id ∷ [] },
)
