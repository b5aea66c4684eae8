-- ===== src/Platform/Appointments/Requests/Access.antt =====
-- Who changes what through backend/src/fsm/platform/api/scheduling_routes.py.
use field_service_management.Base.{ℕ, ◌≡◌, refl, sym, ap, ◌∙◌, List, none, ◌==◌, arith}
use field_service_management.Base.Text.{Text, strip, truthy}
use field_service_management.Identity.User.{Role}
use field_service_management.Scheduling.Outcome.{Result, ok, err, Error, >>=-eq-ok}
use field_service_management.Scheduling.Outcome
use field_service_management.Scheduling.TimeRange.{TimeRange, make_range}
use field_service_management.Scheduling.Appointment.{Appointment}
use field_service_management.Scheduling.ServiceCall.{ServiceCall}
use field_service_management.Scheduling.WorkingHours.{DailyHours, WeeklyWorkingHours, make_weekly}
use field_service_management.Scheduling.Store.{Action}
use field_service_management.Scheduling.Opening.{open_service_call}
use field_service_management.Scheduling.Booking.{AppointmentService}
use field_service_management.Scheduling.Booking
use field_service_management.Platform.Backend.{
  Backend, Response, answers, Handler, Settings, require, ◌>>=◌, ◌>>◌, call, attempt, in_uow,
  respond,
}
use field_service_management.Platform.Backend.Post.{
  Authorizes, in_uow-Authorizes, reads-Authorizes, require-Authorizes, call-Yields,
  attempt-Authorizes, Authorizes-mono,
}
use field_service_management.Platform.Session.{
  Session, SessionUser, require_user, require_role, assert_self,
}
use field_service_management.Platform.Schedules.{
  add_day_off, remove_day_off, put_working_hours, make_windows, or_bad_request, add_time_off,
  remove_time_off, set_for_technician,
}
use field_service_management.Platform.Schedules.Stored.{make_windows-eq, make_weekly-eq}
use field_service_management.Platform.Appointments.{
  open_call, book_in_uow, book_appointment, as_participant, reschedule_appointment,
  cancel_appointment, add_details, publish_changed,
}
use field_service_management.Platform.Appointments.Requests.{
  ApiRequest, opens, books, reschedules, cancels, adds_details, adds_day_off, removes_day_off,
  puts_hours, done, serve, PerformsOwn, PerformsBooking, IsOwnTechnician, Permits,
}
use field_service_management.Platform.Appointments.Requests.Callers.{
  user-Authorizes, role-Authorizes, done-Authorizes,
}
use field_service_management.Platform.Appointments.Requests.UseCases.{
  as_participant-Authorizes, book_in_uow-Authorizes,
}

-- An answered request has a caller that it permits.
abbrev pub IsPermitted : Settings → Session → ApiRequest → Backend → Backend → Type 0
IsPermitted settings session request b b' =
    (user : SessionUser) × ((require_user session b).0 ≡ answers user)
    × Permits settings request user b b'

module _ (settings : Settings) (session : Session) (b : Backend) where
  own_technician :
      {C : Type 0} (P : Backend → Type 0) (technician : ℕ) (k : Handler C)
      → ((user : SessionUser)
          → (require_user session b).0 ≡ answers user
          → IsOwnTechnician technician user
          → Authorizes P b (k b))
      → Authorizes P b
          ((require_role Role.technician session >>= λ user. assert_self technician user >> k) b)
  own_technician P technician k y =
      role-Authorizes P session b Role.technician (λ user. assert_self technician user >> k)
        (λ user caller.
          require-Authorizes P (technician == user.id) 403 k b
            (λ self. y user caller.0 (caller.1, self)))

  open_call-Permits :
      (now : ℕ) (description : Text)
      → Authorizes
          (IsPermitted settings session (opens now description) b)
          b
          (open_call session now description b)
  unfolding open_call
  open_call-Permits now description =
      let P : Backend → Type 0 = IsPermitted settings session (opens now description) b in
      let m : SessionUser → Action ServiceCall =
        λ user. open_service_call now user.id (strip description) none none in
      role-Authorizes P session b Role.customer
        (λ user. require (truthy (strip description)) 422 >> in_uow (call (m user)))
        (λ user caller.
          require-Authorizes P (truthy (strip description)) 422 (in_uow (call (m user))) b (λ shown.
            in_uow-Authorizes P (call (m user)) b
              (call-Yields (λ a b'. P b') (m user) b (λ a e. (user, caller.0, (caller.1, refl))))))

  -- A route of a participant, with the change that its use case makes.
  participant-Permits :
      (request : ApiRequest) (id : ℕ) (m : Action Appointment) (user : SessionUser)
      → (require_user session b).0 ≡ answers user
      → ((b' : Backend) → PerformsOwn id m user b b' → Permits settings request user b b')
      → Authorizes
          (IsPermitted settings session request b)
          b
          (as_participant settings user id (λ service. call m) b)
  participant-Permits request id m user caller permits =
      Authorizes-mono (PerformsOwn id m user b) (IsPermitted settings session request b) b
        (as_participant settings user id (λ service. call m) b)
        (λ b' own. (user, caller, permits b' own)) (as_participant-Authorizes settings b user id m)

  book-Permits :
      (now id technician start end : ℕ)
      → Authorizes
          (IsPermitted settings session (books now id technician start end) b)
          b
          (book_appointment settings session now id technician start end b)
  unfolding book_appointment
  book-Permits now id technician start end =
      let P : Backend → Type 0 =
        IsPermitted settings session (books now id technician start end) b in
      let booked : SessionUser → TimeRange → Handler Appointment =
        λ user r. in_uow (book_in_uow settings now user id technician r) >>= publish_changed in
      role-Authorizes P session b Role.customer
        (λ user. attempt (make_range start end) >>= booked user)
        (λ user caller. attempt-Authorizes P (make_range start end) (booked user) b (λ r valid.
          Authorizes-mono (PerformsBooking settings now id technician r user b) P b
            (booked user r b) (λ b' performed. (user, caller.0, (r, valid, performed)))
            (book_in_uow-Authorizes settings b user now id technician r caller.1)))

  reschedule-Permits :
      (now id start end : ℕ)
      → Authorizes
          (IsPermitted settings session (reschedules now id start end) b)
          b
          (reschedule_appointment settings session now id start end b)
  unfolding reschedule_appointment
  reschedule-Permits now id start end =
      let request : ApiRequest = reschedules now id start end in
      let P : Backend → Type 0 = IsPermitted settings session request b in
      let moved : SessionUser → TimeRange → Handler Appointment = λ user r.
        as_participant settings user id
          (λ service. call (Booking.reschedule_appointment now id r)) in
      user-Authorizes P session b (λ user. attempt (make_range start end) >>= moved user)
        (λ user caller. attempt-Authorizes P (make_range start end) (moved user) b (λ r valid.
          participant-Permits request id (Booking.reschedule_appointment now id r) user caller
            (λ b' own. (r, valid, own))))

  -- An accepted body is stored window by window.
  body_windows :
      (body : List DailyHours) (hours : WeeklyWorkingHours)
      → or_bad_request (Outcome.◌>>=◌ (make_windows body) make_weekly) ≡ answers hours
      → (make_windows body ≡ ok body)
        × (make_weekly body ≡ ok (record { windows = body }))
        × (hours ≡ record { windows = body })
  body_windows body hours valid =
      accepted (Outcome.◌>>=◌ (make_windows body) make_weekly) refl valid
    where
      accepted :
          (checked : Result WeeklyWorkingHours)
          → Outcome.◌>>=◌ (make_windows body) make_weekly ≡ checked
          → or_bad_request checked ≡ answers hours
          → (make_windows body ≡ ok body)
            × (make_weekly body ≡ ok (record { windows = body }))
            × (hours ≡ record { windows = body })
      accepted (err e) same h = absurd (ground arith)
      accepted (ok made) same h =
          let first = >>=-eq-ok (make_windows body) make_weekly same in
          let windows : first.0 ≡ body = make_windows-eq body first.0 first.1 in
          let whole : made ≡ record { windows = body } =
            ap (λ ws. record { windows = ws }) (make_weekly-eq first.0 made first.2 ∙ windows) in
          let own : made ≡ hours = ground arith in
          (
            first.1 ∙ ap (λ ws. ok ws) windows,
            ap make_weekly (sym windows) ∙ first.2 ∙ ap (λ w. ok w) whole,
            sym own ∙ whole,
          )

  put_hours-Permits :
      (technician : ℕ) (body : List DailyHours)
      → Authorizes
          (IsPermitted settings session (puts_hours technician body) b)
          b
          (put_working_hours session technician body b)
  unfolding put_working_hours
  put_hours-Permits technician body =
      let P : Backend → Type 0 = IsPermitted settings session (puts_hours technician body) b in
      let checked : Result WeeklyWorkingHours = Outcome.◌>>=◌ (make_windows body) make_weekly in
      let write : WeeklyWorkingHours → Handler (List DailyHours) = λ hours. in_uow (λ b'. (
        answers hours.windows,
        record b' { working_hours = set_for_technician technician hours b'.working_hours },
      )) in
      own_technician P technician (respond (or_bad_request checked) >>= write) (λ user caller own.
        reads-Authorizes P (λ b'. or_bad_request checked) write b
          (λ hours valid.
            let kept = body_windows body hours valid in
            (
              user,
              caller,
              (
                own,
                kept.0,
                kept.1,
                ap
                    (λ w. record b {
                      working_hours = set_for_technician technician w b.working_hours;
                    })
                    kept.2,
              ),
            )))

  participant_route-Permits :
      (request : ApiRequest) (id : ℕ) (m : Action Appointment)
      → ((user : SessionUser) (b' : Backend)
          → PerformsOwn id m user b b'
          → Permits settings request user b b')
      → Authorizes
          (IsPermitted settings session request b)
          b
          ((require_user session >>= λ user. as_participant settings user id (λ service. call m)) b)
  participant_route-Permits request id m permits =
      user-Authorizes (IsPermitted settings session request b) session b
        (λ user. as_participant settings user id (λ service. call m))
        (λ user caller. participant-Permits request id m user caller (permits user))

  settled :
      {A : Type 0} (request : ApiRequest) (out : Response A × Backend)
      → Authorizes (IsPermitted settings session request b) b out
      → Authorizes (IsPermitted settings session request b) b (done out)
  settled request out = done-Authorizes (IsPermitted settings session request b) b out

  -- A request of the scheduling routes that does not answer leaves everything as it was. One that
  -- answers has a signed-in user whom the tables have, and who may make it: an approved customer
  -- opens calls, and books only for an own call and with an approved technician; a participant
  -- reschedules, cancels and annotates; an approved technician keeps only own days off and hours,
  -- and the hours that the body names, which are valid, are stored. What it leaves is what its use case leaves, with one cue to both parties and the back office after a
  -- change of an appointment.
  pub serve-IsPermitted :
      (request : ApiRequest)
      → Authorizes (IsPermitted settings session request b) b (serve settings session request b)
  unfolding serve cancel_appointment add_details add_day_off remove_day_off
  serve-IsPermitted (opens now description) =
      settled (opens now description) (open_call session now description b)
        (open_call-Permits now description)
  serve-IsPermitted (books now id technician start end) =
      settled (books now id technician start end)
        (book_appointment settings session now id technician start end b)
        (book-Permits now id technician start end)
  serve-IsPermitted (reschedules now id start end) =
      settled (reschedules now id start end)
        (reschedule_appointment settings session now id start end b)
        (reschedule-Permits now id start end)
  serve-IsPermitted (cancels now id) =
      settled (cancels now id) (cancel_appointment settings session now id b) (
        participant_route-Permits (cancels now id) id (Booking.cancel_appointment now id)
          (λ user b' own. own))
  serve-IsPermitted (adds_details now id text) =
      settled (adds_details now id text) (add_details settings session now id text b) (
        participant_route-Permits (adds_details now id text) id (Booking.add_details now id text)
          (λ user b' own. own))
  serve-IsPermitted (adds_day_off technician date) =
      own_technician (IsPermitted settings session (adds_day_off technician date) b) technician
        (in_uow
          (λ b'. (answers tt, record b' { time_off = add_time_off technician date b'.time_off })))
        (λ user caller own. (user, caller, (own, refl)))
  serve-IsPermitted (removes_day_off technician date) =
      own_technician (IsPermitted settings session (removes_day_off technician date) b) technician
        (in_uow (λ b'.
          (answers tt, record b' { time_off = remove_time_off technician date b'.time_off })))
        (λ user caller own. (user, caller, (own, refl)))
  serve-IsPermitted (puts_hours technician body) =
      settled (puts_hours technician body) (put_working_hours session technician body b)
        (put_hours-Permits technician body)
