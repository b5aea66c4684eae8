-- ===== src/Platform/Appointments/Requests/Invariant.antt =====
-- The requests of backend/src/fsm/platform/api/scheduling_routes.py over time, from any sessions.
use mathlib.Core.Path.{subst}
use field_service_management.Base.{sym, List, [], ◌∷◌}
use field_service_management.Base.Text.{strip}
use field_service_management.Scheduling.TimeRange.{make_range-IsValidRange}
use field_service_management.Scheduling.Appointment.{Appointment}
use field_service_management.Scheduling.Store.{Action}
use field_service_management.Scheduling.Repositories.Consistency.{IsConsistent, same-IsConsistent}
use field_service_management.Scheduling.Booking.Invariant.{
  book_appointment-IsConsistent, reschedule_appointment-IsConsistent,
  cancel_appointment-IsConsistent, add_details-IsConsistent,
}
use field_service_management.Scheduling.History.Entries.{opens-Keeps}
use field_service_management.Scheduling.Booking
use field_service_management.Base.{none}
use field_service_management.Platform.Backend.{
  Backend, Response, answers, refuses, crashes, Settings,
}
use field_service_management.Platform.Backend.Post.{Authorizes}
use field_service_management.Platform.Session.{Session, SessionUser}
use field_service_management.Platform.Appointments.{service_with}
use field_service_management.Platform.Appointments.Requests.{
  ApiRequest, opens, books, reschedules, cancels, adds_details, adds_day_off, removes_day_off,
  puts_hours, serve, Performs, Permits,
}
use field_service_management.Platform.Appointments.Requests.Access.{IsPermitted, serve-IsPermitted}

abbrev pub serve_all : Settings → List (Session × ApiRequest) → Backend → Backend
serve_all settings [] b = b
serve_all settings ((session, request) ∷ rest) b =
    serve_all settings rest (serve settings session request b).1

performs-IsConsistent :
    (m : Action Appointment) (b b' : Backend)
    → Performs m b b'
    → IsConsistent (m b.store).1
    → IsConsistent b'.store
performs-IsConsistent m b b' (a, e, left) c =
    subst (λ (x : Backend). IsConsistent x.store) (sym left) c

permits-IsConsistent :
    (settings : Settings) (request : ApiRequest) (user : SessionUser) (b b' : Backend)
    → IsConsistent b.store
    → Permits settings request user b b'
    → IsConsistent b'.store
permits-IsConsistent settings (opens now description) user b b' c (role, left) =
    let kept = opens-Keeps now user.id (strip description) none none b.store in
    subst (λ (x : Backend). IsConsistent x.store) (sym left)
      (same-IsConsistent b.store _ kept.0 kept.2 c)
permits-IsConsistent settings (books now id technician start end) user b b' c
      (r, valid, (sc, found, owned, role, bookable, limit, e, done)) =
    performs-IsConsistent
      (Booking.book_appointment (service_with b.users limit) now id technician user.id r) b b' done
      (book_appointment-IsConsistent (service_with b.users limit) now id technician user.id r
        b.store (make_range-IsValidRange start end r valid) c)
permits-IsConsistent settings (reschedules now id start end) user b b' c
      (r, valid, (appt, found, own, done)) =
    performs-IsConsistent (Booking.reschedule_appointment now id r) b b' done (
      reschedule_appointment-IsConsistent now id r b.store
        (make_range-IsValidRange start end r valid) c)
permits-IsConsistent settings (cancels now id) user b b' c (appt, found, own, done) =
    performs-IsConsistent (Booking.cancel_appointment now id) b b' done
      (cancel_appointment-IsConsistent now id b.store c)
permits-IsConsistent settings (adds_details now id text) user b b' c (appt, found, own, done) =
    performs-IsConsistent (Booking.add_details now id text) b b' done
      (add_details-IsConsistent now id text b.store c)
permits-IsConsistent settings (adds_day_off technician date) user b b' c (own, left) =
    subst (λ (x : Backend). IsConsistent x.store) (sym left) c
permits-IsConsistent settings (removes_day_off technician date) user b b' c (own, left) =
    subst (λ (x : Backend). IsConsistent x.store) (sym left) c
permits-IsConsistent settings (puts_hours technician body) user b b' c (own, made, valid, left) =
    subst (λ (x : Backend). IsConsistent x.store) (sym left) c

out-IsConsistent :
    (settings : Settings) (session : Session) (request : ApiRequest) (b : Backend)
    → (out : Response (Unit {0}) × Backend) → IsConsistent b.store
    → Authorizes (IsPermitted settings session request b) b out
    → IsConsistent out.1.store
out-IsConsistent settings session request b (answers a, b') c (user, caller, permits) =
    permits-IsConsistent settings request user b b' c permits
out-IsConsistent settings session request b (refuses status, b') c same =
    subst (λ (x : Backend). IsConsistent x.store) (sym same) c
out-IsConsistent settings session request b (crashes e, b') c same =
    subst (λ (x : Backend). IsConsistent x.store) (sym same) c

-- From consistent tables, no sequence of scheduling requests, from whatever sessions, with whatever
-- bodies and whichever of them fail, leaves a technician booked twice or a stored range invalid.
pub serve_all-IsConsistent :
    (settings : Settings) (requests : List (Session × ApiRequest)) (b : Backend)
    → IsConsistent b.store
    → IsConsistent (serve_all settings requests b).store
serve_all-IsConsistent settings [] b c = c
serve_all-IsConsistent settings ((session, request) ∷ rest) b c =
    serve_all-IsConsistent settings rest (serve settings session request b).1 (
      out-IsConsistent settings session request b (serve settings session request b) c
        (serve-IsPermitted settings session b request))
