-- ===== src/Scheduling/Booking/Booked.antt =====
-- What `book_appointment` of backend/src/fsm/scheduling/application/appointment_service.py does to
-- the tables.
use field_service_management.Base.{
  ℕ, suc, ◌+◌, ◌≡◌, refl, ap, true, false, none, some, [], ◌∷◌, ◌++◌, arith, ◌⊎◌, inl, inr,
  Option-cases,
}
use field_service_management.Base.Rows.{find, put, find-key}
use field_service_management.Scheduling.Outcome.{Result, ok, err, Error}
use field_service_management.Scheduling.TimeRange.{TimeRange}
use field_service_management.Scheduling.Appointment.{
  Appointment, AppointmentStatus, AuditAction, record_booked,
}
use field_service_management.Scheduling.ServiceCall.{
  ServiceCall, ServiceCallStatus, mark_scheduled, is_open,
}
use field_service_management.Scheduling.Store.{
  Store, Action, OutboxOperation, Notice, attempt, uuid4, ◌>>=◌,
}
use field_service_management.Scheduling.Store.Post.{returns_post, raises_post, reads_post}
use field_service_management.Scheduling.Repositories.{call_id, appointment_to_row, drain_into}
use field_service_management.Scheduling.Repositories.ServiceCalls
use field_service_management.Scheduling.Repositories.Appointments
use field_service_management.Scheduling.Repositories.Effects.{drained, inserted, add_post}
use field_service_management.Scheduling.Outbox.{enqueue}
use field_service_management.Scheduling.Booking.{
  AppointmentService, book_appointment, book_found, write_booking, finish_booking, check_booking,
  announce, new_appointment,
}
use field_service_management.Scheduling.Booking.Checks.{MayBook, check_booking-MayBook}
use field_service_management.Scheduling.Booking.Outcomes.{SameTables, entry, audit}

-- The appointment that a booking returns: SCHEDULED, with no details and no calendar event yet.
abbrev pub booked : ℕ → ℕ → ℕ → ℕ → TimeRange → ℕ → Appointment
booked id service_call_id technician_id customer_id r now = record {
  id = id;
  service_call_id = service_call_id;
  technician_id = technician_id;
  customer_id = customer_id;
  time_range = r;
  status = AppointmentStatus.scheduled;
  details = none;
  created_at = now;
  updated_at = now;
  external_event_id = none;
  pending_audits = [];
}

mark_scheduled_cases :
    (sc : ServiceCall)
    → ((is_open sc.status ≡ false) × (mark_scheduled sc ≡ err Error.invalid_transition))
      ⊎ ((is_open sc.status ≡ true)
          × (mark_scheduled sc ≡ ok (record sc { status = ServiceCallStatus.scheduled })))
unfolding mark_scheduled
mark_scheduled_cases sc = ground arith

open_status :
    (status : ServiceCallStatus) → is_open status ≡ true → status ≡ ServiceCallStatus.open_call
open_status status h = ground arith

save_call-eq :
    (row sc : ServiceCall) (s : Store)
    → find call_id sc.id s.service_calls ≡ some row
    → ServiceCalls.save sc s ≡ (
      ok tt,
      record s {
        service_calls =
            put call_id
              (record row {
                customer_id = sc.customer_id;
                description = sc.description;
                status = sc.status;
                created_at = sc.created_at;
              })
              s.service_calls;
      },
    )
unfolding ServiceCalls.save
save_call-eq row sc s e = rw (e, ServiceCalls.save)

get_call_post {ℓ} :
    {B : Type 0} (Q : Result B × Store → Type ℓ) (id : ℕ) (f : ServiceCall → Action B) (s : Store)
    → ((sc : ServiceCall) → find call_id id s.service_calls ≡ some sc → Q (f sc s))
    → Q (err Error.not_found, s)
    → Q ((ServiceCalls.get id >>= f) s)
unfolding ServiceCalls.get
get_call_post Q id f s good bad = elim (Option-cases (find call_id id s.service_calls)) [
  | inl absent ↦ raises_post Q (ServiceCalls.get id) f s (rw (absent, ServiceCalls.get)) bad
  | inr (sc, e) ↦ returns_post Q (ServiceCalls.get id) f s (rw (e, ServiceCalls.get)) (good sc e)
]

module _ (service : AppointmentService) (now call technician customer : ℕ) (r : TimeRange)
    (s : Store) where
  abbrev pub Books : Result Appointment × Store → Type 0
  Books (ok a, t) =
      (sc : ServiceCall) × (find call_id call s.service_calls ≡ some sc)
      × (sc.status ≡ ServiceCallStatus.open_call)
      × MayBook service now technician customer r s
      × (a ≡ booked s.next_uuid call technician customer r now)
      × (t.service_calls
          ≡ put call_id (record sc { status = ServiceCallStatus.scheduled }) s.service_calls)
      × (t.appointments ≡ s.appointments ++ appointment_to_row a ∷ [])
      × (t.audits ≡ s.audits ++ audit (suc s.next_uuid) a.id AuditAction.booked now ∷ [])
      × (t.outbox ≡ s.outbox ++ entry (suc s.next_uuid + 1) OutboxOperation.create a.id none ∷ [])
      × (t.notices ≡ s.notices ++ Notice.appointment_booked a ∷ [])
      × (t.next_uuid ≡ s.next_uuid + 3)
  Books (err e, t) = SameTables s t

  same : SameTables s s
  same = (refl, refl, refl, refl, refl, omega arith)

  same_drawn : SameTables s (record s { next_uuid = suc s.next_uuid })
  same_drawn = (refl, refl, refl, refl, refl, omega arith)

  finish_booking-Books :
      (sc : ServiceCall)
      → find call_id call s.service_calls ≡ some sc
      → is_open sc.status ≡ true
      → check_booking service now sc technician customer r s ≡ ok tt
      → Books (
          finish_booking
            (record sc { status = ServiceCallStatus.scheduled })
            (drained (new_appointment s.next_uuid call technician customer r now))
            (inserted
              (new_appointment s.next_uuid call technician customer r now)
              (record s { next_uuid = suc s.next_uuid })))
  unfolding finish_booking announce enqueue drain_into new_appointment record_booked
  finish_booking-Books sc found opened checked =
      returns_post Books (ServiceCalls.save marked)
        (λ _. announce OutboxOperation.create none Notice.appointment_booked (drained a)) t
        (save_call-eq sc marked t (rw (← find-key call_id call s.service_calls sc found) at found))
        (
          sc,
          found,
          open_status sc.status opened,
          check_booking-MayBook service now sc technician customer r s checked,
          refl,
          refl,
          refl,
          refl,
          refl,
          refl,
          omega arith,
        )
    where
      a : Appointment
      a = new_appointment s.next_uuid call technician customer r now

      marked : ServiceCall
      marked = record sc { status = ServiceCallStatus.scheduled }

      t : Store
      t = inserted a (record s { next_uuid = suc s.next_uuid })

  write_booking-Books :
      (sc : ServiceCall)
      → find call_id call s.service_calls ≡ some sc
      → check_booking service now sc technician customer r s ≡ ok tt
      → Books (
          write_booking now sc call technician customer r s.next_uuid
            (record s { next_uuid = suc s.next_uuid }))
  unfolding write_booking
  write_booking-Books sc found checked =
      let s' : Store = record s { next_uuid = suc s.next_uuid } in
      let a : Appointment = new_appointment s.next_uuid call technician customer r now in
      let f : ServiceCall → Action Appointment =
        λ marked. Appointments.add a >>= finish_booking marked in
      elim (mark_scheduled_cases sc) [
        | inl (closed, e) ↦
            raises_post Books (attempt (mark_scheduled sc)) f s' (ap (λ x. (x, s')) e) same_drawn
        | inr (opened, e) ↦
            returns_post Books (attempt (mark_scheduled sc)) f s' (ap (λ x. (x, s')) e) (
              add_post Books a (finish_booking (record sc { status = ServiceCallStatus.scheduled }))
                s' (λ absent allowed. finish_booking-Books sc found opened checked)
                (λ x h. same_drawn))
      ]

  -- A booking that returns found the service call OPEN; the customer has an address and a phone and
  -- the technician a phone, none of them blank; with a cancellation limit, the customer's
  -- cancellations in its window are fewer than the limit or all at least the pause ago; and the
  -- overlap guard passed. It marks the call
  -- SCHEDULED, appends one SCHEDULED appointment under a new id, and writes one BOOKED audit, one
  -- pending CREATE entry and one notice. One that raises changes nothing.
  pub book_appointment-Books : Books (book_appointment service now call technician customer r s)
  unfolding book_appointment book_found
  book_appointment-Books =
      get_call_post Books call (book_found service now call technician customer r) s
        (λ sc found.
          reads_post Books (check_booking service now sc technician customer r)
            (λ _. uuid4 >>= write_booking now sc call technician customer r) s
            (λ _ checked. write_booking-Books sc found checked) (λ e h. same))
        same
