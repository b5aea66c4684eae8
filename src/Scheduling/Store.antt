-- ===== src/Scheduling/Store.antt =====
-- The tables that the scheduling context writes, backend/src/fsm/scheduling/adapters/orm.py, and a
-- call that may raise over them: the state comes back after a raise too, since what was flushed
-- stays in the session until the unit of work rolls back. `uuid4` counts up.
pub mod Post
use field_service_management.Base.{
  ℕ, zero, suc, ◌+◌, ◌≡◌, refl, Bool, Option, none, some, List, [], ◌∷◌, ◌++◌, map,
}
use field_service_management.Base.Text.{Text}
use field_service_management.Scheduling.Outcome.{Result, ok, err, Error}
use field_service_management.Scheduling.TimeRange.{TimeRange}
use field_service_management.Scheduling.Appointment.{Appointment, AppointmentStatus, AuditAction}
use field_service_management.Scheduling.ServiceCall.{ServiceCall, ServiceCallAttachment}

-- One row of `appointment`.
pub record AppointmentRow : Type 0 where
  pub id : ℕ
  pub service_call_id : ℕ
  pub technician_id : ℕ
  pub customer_id : ℕ
  pub start_at : ℕ
  pub end_at : ℕ
  pub status : AppointmentStatus
  pub details : Option Text
  pub external_event_id : Option ℕ
  pub created_at : ℕ
  pub updated_at : ℕ

-- One row of `appointment_audit`.
pub record AppointmentAuditRow : Type 0 where
  pub id : ℕ
  pub appointment_id : ℕ
  pub action : AuditAction
  pub occurred_at : ℕ

pub data OutboxOperation : Type 0 where
  create update delete : OutboxOperation

pub data OutboxStatus : Type 0 where
  pending processed failed : OutboxStatus

-- One row of `calendar_outbox`; rows stand in the order of `created_at`.
pub record OutboxRow : Type 0 where
  pub id : ℕ
  pub operation : OutboxOperation
  pub appointment_id : ℕ
  pub external_event_id : Option ℕ
  pub status : OutboxStatus
  pub attempts : ℕ
  pub last_error : Option Error
  pub processed_at : Option ℕ

-- A call of the notification port, with the appointment as it was then.
pub data Notice : Type 0 where
  appointment_booked appointment_rescheduled appointment_cancelled : Appointment → Notice
  appointment_updated appointment_reschedule_rejected : Appointment → Notice

pub record Store : Type 0 where
  pub service_calls : List ServiceCall
  pub attachments : List ServiceCallAttachment
  pub appointments : List AppointmentRow
  pub audits : List AppointmentAuditRow
  pub outbox : List OutboxRow
  pub notices : List Notice
  pub next_uuid : ℕ

abbrev pub Action : Type 0 → Type 0
Action A = Store → Result A × Store

module _ {A : Type 0} where
  abbrev pub pure : A → Action A
  pure a s = (ok a, s)

  abbrev pub raise : Error → Action A
  raise e s = (err e, s)

  -- A computation on values that may raise.
  abbrev pub attempt : Result A → Action A
  attempt r s = (r, s)

  abbrev pub gets : (Store → A) → Action A
  gets f s = (ok (f s), s)

  -- A read that may raise.
  abbrev pub reads : (Store → Result A) → Action A
  reads f s = (f s, s)

infixl 5 ◌>>=◌ ◌>>◌
abbrev pub ◌>>=◌ : {A B : Type 0} → Action A → (A → Action B) → Action B
◌>>=◌ m f s = let (r, s') = m s in elim r [ ok a ↦ f a s' | err e ↦ raise e s' ]

abbrev pub ◌>>◌ : {A B : Type 0} → Action A → Action B → Action B
m >> k = m >>= λ _. k

abbrev pub modify : (Store → Store) → Action (Unit {0})
modify f s = (ok tt, f s)

abbrev pub uuid4 : Action ℕ
uuid4 s = (ok s.next_uuid, record s { next_uuid = suc s.next_uuid })

abbrev pub notify : Notice → Action (Unit {0})
notify n = modify (λ s. record s { notices = s.notices ++ n ∷ [] })
