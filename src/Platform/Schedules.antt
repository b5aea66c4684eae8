-- ===== src/Platform/Schedules.antt =====
-- The days off and the working hours: time_off_repository.py, working_hours_repository.py and
-- holiday_repository.py of backend/src/fsm/scheduling/adapters, with their routes in
-- backend/src/fsm/platform/api/scheduling_routes.py. A date is a number.
pub mod Stored
pub mod DaysOff
use field_service_management.Base.{
  ℕ, Bool, true, false, not, ◌&&◌, Option, none, some, List, [], ◌∷◌, ◌++◌, map, filter, any, leb,
  ◌==◌, is_some, if◌then◌else◌,
}
use field_service_management.Base.Rows.{find, put}
use field_service_management.Base.Sort.{sort_by}
use field_service_management.Identity.User.{Role}
use field_service_management.Scheduling.Outcome.{Result, ok, err, Error}
use field_service_management.Scheduling.Outcome
use field_service_management.Scheduling.WorkingHours.{
  DailyHours, WeeklyWorkingHours, make_daily, make_weekly, default_hours,
}
use field_service_management.Platform.Backend.{
  TimeOffRow, WorkingHoursRow, HolidayRow, Backend, Response, answers, refuses, Handler, pure,
  respond, ◌>>=◌, ◌>>◌, of_result, attempt, in_uow,
}
use field_service_management.Platform.Session.{Session, SessionUser, require_role, assert_self}

abbrev pub is_off : ℕ → ℕ → TimeOffRow → Bool
is_off technician_id off_date row = row.technician_id == technician_id && row.off_date == off_date

-- `ON CONFLICT DO NOTHING`.
unfoldable pub add_time_off : ℕ → ℕ → List TimeOffRow → List TimeOffRow
add_time_off technician_id off_date rows =
    if any (is_off technician_id off_date) rows
    then rows
    else rows ++ record { technician_id = technician_id; off_date = off_date } ∷ []

unfoldable pub remove_time_off : ℕ → ℕ → List TimeOffRow → List TimeOffRow
remove_time_off technician_id off_date = filter (λ row. not (is_off technician_id off_date row))

abbrev pub is_off_between : ℕ → ℕ → ℕ → TimeOffRow → Bool
is_off_between technician_id start end row =
    row.technician_id == technician_id && (leb start row.off_date && leb row.off_date end)

abbrev pub off_date_of : TimeOffRow → ℕ
off_date_of row = row.off_date

unfoldable pub days_off_between : ℕ → ℕ → ℕ → List TimeOffRow → List ℕ
days_off_between technician_id start end rows =
    map off_date_of (filter (is_off_between technician_id start end) rows)

abbrev pub holiday_date_of : HolidayRow → ℕ
holiday_date_of row = row.holiday_date

unfoldable pub holidays_between : ℕ → ℕ → List HolidayRow → List ℕ
holidays_between start end rows =
    map holiday_date_of
      (filter (λ row. leb start row.holiday_date && leb row.holiday_date end) rows)

-- `ON CONFLICT DO UPDATE`, one row after the other.
unfoldable pub upsert_many : List HolidayRow → List HolidayRow → List HolidayRow
upsert_many [] rows = rows
upsert_many (h ∷ rest) rows = upsert_many rest (
    if is_some (find holiday_date_of h.holiday_date rows)
    then put holiday_date_of h rows
    else rows ++ h ∷ [])

abbrev pub is_hours_of : ℕ → WorkingHoursRow → Bool
is_hours_of technician_id row = row.technician_id == technician_id

-- `DailyHours(...) for row in rows`: the first that is refused raises.
unfoldable pub to_windows : List WorkingHoursRow → Result (List DailyHours)
to_windows [] = ok []
to_windows (row ∷ rows) =
    Outcome.◌>>=◌ (make_daily row.weekday row.start_time row.end_time)
      λ dh. Outcome.◌>>=◌ (to_windows rows) λ windows. ok (dh ∷ windows)

unfoldable pub hours_of_rows : List WorkingHoursRow → Result WeeklyWorkingHours
unfolding to_windows
hours_of_rows [] = default_hours
hours_of_rows (row ∷ rows) = Outcome.◌>>=◌ (to_windows (row ∷ rows)) make_weekly

unfoldable pub get_for_technician : ℕ → List WorkingHoursRow → Result WeeklyWorkingHours
unfolding hours_of_rows
get_for_technician technician_id rows = hours_of_rows (filter (is_hours_of technician_id) rows)

abbrev pub to_row : ℕ → DailyHours → WorkingHoursRow
to_row technician_id dh = record {
  technician_id = technician_id;
  weekday = dh.weekday;
  start_time = dh.start;
  end_time = dh.end;
}

-- `WeeklyWorkingHours` has one window for a weekday, so the primary key refuses no row.
unfoldable pub set_for_technician :
    ℕ → WeeklyWorkingHours → List WorkingHoursRow → List WorkingHoursRow
set_for_technician technician_id hours rows =
    filter (λ row. not (is_hours_of technician_id row)) rows
    ++ map (to_row technician_id) hours.windows

unfoldable pub add_day_off : Session → ℕ → ℕ → Handler (Unit {0})
add_day_off session technician_id date = require_role Role.technician session >>= λ user.
    assert_self technician_id user
    >> in_uow
        (λ b. (answers tt, record b { time_off = add_time_off technician_id date b.time_off }))

unfoldable pub remove_day_off : Session → ℕ → ℕ → Handler (Unit {0})
remove_day_off session technician_id off_date = require_role Role.technician session >>= λ user.
    assert_self technician_id user
    >> in_uow (λ b.
      (answers tt, record b { time_off = remove_time_off technician_id off_date b.time_off }))

unfoldable pub list_days_off : Session → ℕ → ℕ → ℕ → Handler (List ℕ)
list_days_off session technician_id date_from date_to =
    require_role Role.technician session >>= λ user. assert_self technician_id user >> (λ b.
      (answers (sort_by leb (days_off_between technician_id date_from date_to b.time_off)), b))

-- The windows of the body, each constructed with its check.
unfoldable pub make_windows : List DailyHours → Result (List DailyHours)
make_windows [] = ok []
make_windows (w ∷ ws) =
    Outcome.◌>>=◌ (make_daily w.weekday w.start w.end)
      λ dh. Outcome.◌>>=◌ (make_windows ws) λ windows. ok (dh ∷ windows)

-- Every SchedulingError of the construction is a bad request.
abbrev pub or_bad_request : {A : Type 0} → Result A → Response A
or_bad_request (ok a) = answers a
or_bad_request (err e) = refuses 400

unfoldable pub put_working_hours : Session → ℕ → List DailyHours → Handler (List DailyHours)
unfolding make_windows
put_working_hours session technician_id body = require_role Role.technician session >>= λ user.
    assert_self technician_id user
    >> (respond (or_bad_request (Outcome.◌>>=◌ (make_windows body) make_weekly)) >>= λ hours.
        in_uow (λ b. (
          answers hours.windows,
          record b { working_hours = set_for_technician technician_id hours b.working_hours },
        )))

unfoldable pub get_working_hours : Session → ℕ → Handler (List DailyHours)
get_working_hours session technician_id = require_role Role.technician session >>= λ user.
    assert_self technician_id user >> (λ b. (
      of_result (
          Outcome.◌>>=◌ (get_for_technician technician_id b.working_hours)
            λ hours. ok hours.windows),
      b,
    ))
