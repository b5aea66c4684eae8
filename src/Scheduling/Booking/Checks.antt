-- ===== src/Scheduling/Booking/Checks.antt =====
-- What a booking has passed once the guards of
-- backend/src/fsm/scheduling/application/appointment_service.py let it through.
use mathlib.Core.Path.{subst}
use field_service_management.Base.{
  ℕ, ◌+◌, ◌-◌, ◌<◌, ◌≤◌, ◌≡◌, refl, sym, ap, ◌∙◌, true, not, Option, none, some, List, [], ◌∷◌, ◌⊎◌,
  inl, inr, arith, leb, ◌==◌, length, filter, All, if◌then◌else◌, Option-cases,
}
use field_service_management.Base.Rows.{find}
use field_service_management.Base.Text.{Text, strip, truthy}
use field_service_management.Base.Text.Blank.{has_ink, truthy-strip}
use field_service_management.Scheduling.Outcome.{Result, ok, err, Error, raise_if, >>=-eq-ok}
use field_service_management.Scheduling.Outcome
use field_service_management.Scheduling.TimeRange.{TimeRange}
use field_service_management.Scheduling.RateLimit.{CancellationRateLimit, minus, blocked_until}
use field_service_management.Scheduling.RateLimit.Window.{counted, blocked_until-passes}
use field_service_management.Scheduling.Contact.{
  ContactInfo, or_empty, has_address, has_phone, no_contact,
}
use field_service_management.Scheduling.Appointment.{AuditAction}
use field_service_management.Scheduling.ServiceCall.{ServiceCall, is_open}
use field_service_management.Scheduling.Store.{AppointmentRow, AppointmentAuditRow, Store}
use field_service_management.Scheduling.Repositories.{row_id}
use field_service_management.Scheduling.Repositories.Appointments.{
  list_customer_cancellations_since,
}
use field_service_management.Scheduling.Booking.{
  AppointmentService, missing_contact, reject_missing, guard_contact_complete, reject_blocked,
  guard_not_rate_limited, guard_no_overlap, check_booking,
}

-- A field that is there and not only spaces.
abbrev pub IsFilled : Option Text → Type 0
IsFilled none = ⊥
IsFilled (some value) = has_ink value ≡ true

-- The customer has an address and a phone, and the technician a phone.
abbrev pub HasContacts : Option (ℕ → ContactInfo) → ℕ → ℕ → Type 0
HasContacts none customer technician = ⊥
HasContacts (some contact_of) customer technician =
    IsFilled (contact_of customer).address
    × IsFilled (contact_of customer).phone
    × IsFilled (contact_of technician).phone

-- When the customer's appointments were cancelled, from a moment on.
abbrev pub cancelled_since : ℕ → ℕ → List AppointmentRow → List AppointmentAuditRow → List ℕ
cancelled_since customer since rows [] = []
cancelled_since customer since rows (audit ∷ audits) =
    let rest : List ℕ = cancelled_since customer since rows audits in
    elim audit.action [
      | AuditAction.cancelled ↦ elim (find row_id audit.appointment_id rows) [
        | none ↦ rest
        | some row ↦
            if row.customer_id == customer
            then (if leb since audit.occurred_at then audit.occurred_at ∷ rest else rest)
            else rest
      ]
      | AuditAction.booked ↦ rest
      | AuditAction.rescheduled ↦ rest
      | AuditAction.details_added ↦ rest
    ]

-- Fewer cancellations in the window than the limit, or a pause since the last of them.
abbrev pub IsUnderLimit : Option CancellationRateLimit → ℕ → ℕ → Store → Type 0
IsUnderLimit none customer now s = Unit
IsUnderLimit (some limit) customer now s =
    (length (cancelled_since customer (now - limit.window) s.appointments s.audits)
      < limit.max_cancellations)
    ⊎ All (λ at. at + limit.cooloff ≤ now)
        (cancelled_since customer (now - limit.window) s.appointments s.audits)

-- What the guards of a booking ask; the last one is the overlap guard's own answer.
abbrev pub MayBook : AppointmentService → ℕ → ℕ → ℕ → TimeRange → Store → Type 0
MayBook service now technician customer r s =
    IsUnderLimit service.cancellation_limit customer now s
    × HasContacts service.contact_resolver customer technician
    × (guard_no_overlap technician r none s ≡ ok tt)

cancellations-eq :
    (customer since : ℕ) (s : Store)
    → list_customer_cancellations_since customer since s
      ≡ cancelled_since customer since s.appointments s.audits
unfolding list_customer_cancellations_since
cancellations-eq customer since s = each s.audits
  where
    each :
        (audits : List AppointmentAuditRow)
        → list_customer_cancellations_since customer since (record s { audits = audits })
          ≡ cancelled_since customer since s.appointments audits
    each [] = refl
    each (audit ∷ audits) = ground (arith, each audits)

counted-cancelled_since :
    (customer since : ℕ) (rows : List AppointmentRow) (audits : List AppointmentAuditRow)
    → filter (leb since) (cancelled_since customer since rows audits)
      ≡ cancelled_since customer since rows audits
counted-cancelled_since customer since rows [] = refl
counted-cancelled_since customer since rows (audit ∷ audits) =
    ground (arith, counted-cancelled_since customer since rows audits)

under_limit :
    (limit : CancellationRateLimit) (customer now : ℕ) (s : Store) (since : ℕ) (retry : Option ℕ)
    → minus now limit.window ≡ ok since
    → blocked_until limit (list_customer_cancellations_since customer since s) now ≡ ok retry
    → reject_blocked retry ≡ ok tt
    → IsUnderLimit (some limit) customer now s
unfolding minus reject_blocked
under_limit limit customer now s since (some at) e h passed = absurd (ground (arith, passed))
under_limit limit customer now s since none e h passed =
    let bound : limit.window ≤ now = ground (arith, e) in
    let times : List ℕ = cancelled_since customer (now - limit.window) s.appointments s.audits in
    let same : since ≡ now - limit.window = ground (arith, e) in
    let listed : list_customer_cancellations_since customer since s ≡ times =
      ap (λ k. list_customer_cancellations_since customer k s) same
      ∙ cancellations-eq customer (now - limit.window) s in
    let kept : counted now limit.window (list_customer_cancellations_since customer since s)
        ≡ times =
      ap (counted now limit.window) listed
      ∙ counted-cancelled_since customer (now - limit.window) s.appointments s.audits in
    subst (λ l. (length l < limit.max_cancellations) ⊎ All (λ at. at + limit.cooloff ≤ now) l) kept
      (blocked_until-passes limit (list_customer_cancellations_since customer since s) now bound h)

guard-IsUnderLimit :
    (service : AppointmentService) (customer now : ℕ) (s : Store)
    → guard_not_rate_limited service customer now s ≡ ok tt
    → IsUnderLimit service.cancellation_limit customer now s
unfolding guard_not_rate_limited
guard-IsUnderLimit service customer now s h = elim (Option-cases service.cancellation_limit) [
  | inl none_set ↦ subst (λ l. IsUnderLimit l customer now s) (sym none_set) tt
  | inr (limit, e) ↦
      let listed : ℕ → List ℕ = λ since. list_customer_cancellations_since customer since s in
      let asked : Outcome.◌>>=◌ (minus now limit.window)
            (λ since. Outcome.◌>>=◌ (blocked_until limit (listed since) now) reject_blocked)
          ≡ ok tt =
        rw e at h in
      let (since, since_eq, rest) = >>=-eq-ok (minus now limit.window) _ asked in
      let (retry, retry_eq, passed) = >>=-eq-ok (blocked_until limit (listed since) now) _ rest in
      subst (λ l. IsUnderLimit l customer now s) (sym e)
        (under_limit limit customer now s since retry since_eq retry_eq passed)
]

filled : (field : Option Text) → truthy (strip (or_empty field)) ≡ true → IsFilled field
filled none h = absurd (ground (arith, truthy-strip [], h))
filled (some value) h = sym (truthy-strip value) ∙ h

-- No field is missing.
complete :
    (customer technician : ContactInfo)
    → reject_missing (missing_contact customer technician) ≡ ok tt
    → IsFilled customer.address × IsFilled customer.phone × IsFilled technician.phone
unfolding reject_missing missing_contact has_address has_phone
complete customer technician h = (
  filled customer.address (ground (arith, h)),
  filled customer.phone (ground (arith, h)),
  filled technician.phone (ground (arith, h)),
)

guard-HasContacts :
    (service : AppointmentService) (customer technician : ℕ)
    → guard_contact_complete service customer technician ≡ ok tt
    → HasContacts service.contact_resolver customer technician
unfolding guard_contact_complete no_contact
guard-HasContacts service customer technician h = elim (Option-cases service.contact_resolver) [
  | inl unset ↦
      let gone : reject_missing (missing_contact no_contact no_contact) ≡ ok tt = rw unset at h in
      absurd (complete no_contact no_contact gone).0
  | inr (contact_of, e) ↦
      subst (λ r. HasContacts r customer technician) (sym e)
        (complete (contact_of customer) (contact_of technician) (rw e at h))
]

pub check_booking-MayBook :
    (service : AppointmentService) (now : ℕ) (sc : ServiceCall) (technician customer : ℕ)
    (r : TimeRange) (s : Store)
    → check_booking service now sc technician customer r s ≡ ok tt
    → MayBook service now technician customer r s
unfolding check_booking
check_booking-MayBook service now sc technician customer r s h =
    let (_, _, h₁) = >>=-eq-ok (raise_if (not (is_open sc.status)) Error.invalid_transition) _ h in
    let (_, limited, h₂) = >>=-eq-ok (guard_not_rate_limited service customer now s) _ h₁ in
    let (_, known, h₃) = >>=-eq-ok (guard_contact_complete service customer technician) _ h₂ in
    (
      guard-IsUnderLimit service customer now s limited,
      guard-HasContacts service customer technician known,
      h₃,
    )
