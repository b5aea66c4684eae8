-- ===== src/Platform/Backend.antt =====
-- What a request of backend/src/fsm/platform/api works on: the tables, and the cues of
-- backend/src/fsm/platform/events.py; with how a request ends. A request has one unit of work.
pub mod Post
use field_service_management.Base.{
  ℕ, Bool, true, false, Option, none, some, List, [], ◌∷◌, ◌++◌, if◌then◌else◌,
}
use field_service_management.Base.Text.{Text}
use field_service_management.Identity.User.{User}
use field_service_management.Scheduling.Outcome.{Result, ok, err, Error}
use field_service_management.Scheduling.Slots.{Zone}
use field_service_management.Scheduling.Store.{Store, Action}

-- One row of `time_off`.
pub record TimeOffRow : Type 0 where
  pub technician_id : ℕ
  pub off_date : ℕ

-- One row of `working_hours`.
pub record WorkingHoursRow : Type 0 where
  pub technician_id : ℕ
  pub weekday : ℕ
  pub start_time : ℕ
  pub end_time : ℕ

-- One row of `holiday`.
pub record HolidayRow : Type 0 where
  pub holiday_date : ℕ
  pub name : Text

pub data Channel : Type 0 where
  user_channel : ℕ → Channel
  admins_channel : Channel

-- A cue that an appointment changed, with the channels that it goes to.
pub record Cue : Type 0 where
  pub appointment_id : ℕ
  pub channels : List Channel

pub record Backend : Type 0 where
  pub store : Store
  pub users : List User
  pub time_off : List TimeOffRow
  pub working_hours : List WorkingHoursRow
  pub holidays : List HolidayRow
  pub cues : List Cue

-- The settings that the scheduling routes read; hours as microseconds.
pub record Settings : Type 0 where
  pub booking_cancel_limit : ℕ
  pub booking_cancel_window : ℕ
  pub booking_cancel_cooloff : ℕ
  pub timezone : Zone

-- An HTTPException or a mapped error has a status; what escapes is answered with 500.
pub data Response (A : Type 0) : Type 0 where
  answers : A → Response A
  refuses : ℕ → Response A
  crashes : Error → Response A

-- `_DOMAIN_ERROR_STATUS`.
abbrev pub domain_error_status : Error → Option ℕ
domain_error_status Error.slot_unavailable = some 409
domain_error_status Error.invalid_transition = some 409
domain_error_status Error.not_found = some 404
domain_error_status Error.invalid_time_range = some 400
domain_error_status (Error.incomplete_contact_info missing) = some 422
domain_error_status (Error.booking_rate_limited retry_at) = some 429
domain_error_status Error.scheduling_error = none
domain_error_status Error.value_error = none
domain_error_status Error.overflow_error = none
domain_error_status Error.integrity_error = none
domain_error_status Error.pending_rollback = none
domain_error_status Error.calendar_error = none
domain_error_status Error.create_not_processed = none
domain_error_status Error.out_of_fuel = none

unfoldable pub handle_scheduling_error : {A : Type 0} → Error → Response A
handle_scheduling_error e = elim (domain_error_status e) [
  | none ↦ crashes e
  | some status ↦ refuses status
]

abbrev pub Handler : Type 0 → Type 0
Handler A = Backend → Response A × Backend

abbrev pub pure : {A : Type 0} → A → Handler A
pure a b = (answers a, b)

abbrev pub respond : {A : Type 0} → Response A → Handler A
respond r b = (r, b)

infixl 5 ◌>>=◌ ◌>>◌
abbrev pub ◌>>=◌ : {A C : Type 0} → Handler A → (A → Handler C) → Handler C
◌>>=◌ h rest b = elim (h b).0 [
  | answers a ↦ rest a (h b).1
  | refuses status ↦ (refuses status, (h b).1)
  | crashes e ↦ (crashes e, (h b).1)
]

abbrev pub ◌>>◌ : {A C : Type 0} → Handler A → Handler C → Handler C
h >> k = h >>= λ _. k

abbrev pub of_result : {A : Type 0} → Result A → Response A
of_result (ok a) = answers a
of_result (err e) = handle_scheduling_error e

-- A use case of the scheduling context.
abbrev pub call : {A : Type 0} → Action A → Handler A
call m b = (of_result (m b.store).0, record b { store = (m b.store).1 })

abbrev pub attempt : {A : Type 0} → Result A → Handler A
attempt r b = (of_result r, b)

-- `raise HTTPException(status_code=status)` unless the condition holds.
abbrev pub require : Bool → ℕ → Handler (Unit {0})
require condition status = respond (if condition then answers tt else refuses status)

-- `with _build_uow(request) as uow`: what raises is rolled back.
abbrev pub in_uow : {A : Type 0} → Handler A → Handler A
in_uow h b = elim (h b).0 [
  | answers a ↦ (answers a, (h b).1)
  | refuses status ↦ (refuses status, b)
  | crashes e ↦ (crashes e, b)
]

-- `_appointment_changed`.
abbrev pub appointment_changed : ℕ → ℕ → ℕ → Cue
appointment_changed appointment_id customer_id technician_id = record {
  appointment_id = appointment_id;
  channels = user_channel customer_id ∷ user_channel technician_id ∷ admins_channel ∷ [];
}

abbrev pub publish : Cue → Handler (Unit {0})
publish cue b = (answers tt, record b { cues = b.cues ++ cue ∷ [] })
