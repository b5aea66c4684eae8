-- ===== src/Platform/Schedules/Stored.antt =====
-- Working hours through backend/src/fsm/scheduling/adapters/working_hours_repository.py.
use mathlib.Core.List.{append-nil}
use field_service_management.Base.{
  ℕ, not, List, [], ◌∷◌, map, filter, filter-append, ◌≡◌, ◌≢◌, refl, sym, ap, ◌∙◌, arith,
}
use field_service_management.Scheduling.Outcome.{Result, ok, err, Error, >>=-eq-ok}
use field_service_management.Scheduling.Outcome
use field_service_management.Scheduling.WorkingHours.{
  DailyHours, WeeklyWorkingHours, make_daily, make_weekly, default_hours,
}
use field_service_management.Platform.Backend.{WorkingHoursRow}
use field_service_management.Platform.Schedules.{
  is_hours_of, to_windows, hours_of_rows, get_for_technician, to_row, set_for_technician,
  make_windows,
}

-- What reading gives after a schedule of these windows was stored: the default if there are none.
abbrev pub read_back : WeeklyWorkingHours → Result WeeklyWorkingHours
read_back hours = elim hours.windows [ [] ↦ default_hours | w ∷ ws ↦ ok hours ]

pub make_windows-eq : (body ws : List DailyHours) → make_windows body ≡ ok ws → ws ≡ body
unfolding make_windows make_daily
make_windows-eq [] ws h = ground (arith, h)
make_windows-eq (w ∷ body) ws h =
    let first = >>=-eq-ok (make_daily w.weekday w.start w.end) _ h in
    let rest = >>=-eq-ok (make_windows body) _ first.2 in
    ground (arith, first.1, rest.2, make_windows-eq body rest.0 rest.1)

pub make_weekly-eq :
    (ws : List DailyHours) (hours : WeeklyWorkingHours)
    → make_weekly ws ≡ ok hours
    → hours.windows ≡ ws
unfolding make_weekly
make_weekly-eq ws hours h = ground (arith, h)

to_windows-to_row :
    (technician_id : ℕ) (ws : List DailyHours)
    → to_windows (map (to_row technician_id) ws) ≡ make_windows ws
unfolding to_windows make_windows
to_windows-to_row technician_id [] = refl
to_windows-to_row technician_id (w ∷ ws) = rw (to_windows-to_row technician_id ws) refl

module _ (technician_id : ℕ) where
  filter-own :
      (ws : List DailyHours)
      → filter (is_hours_of technician_id) (map (to_row technician_id) ws)
        ≡ map (to_row technician_id) ws
  filter-own [] = refl
  filter-own (w ∷ ws) = ground (arith, filter-own ws)

  filter-rest :
      (rows : List WorkingHoursRow)
      → filter
          (is_hours_of technician_id)
          (filter (λ row. not (is_hours_of technician_id row)) rows)
        ≡ []
  filter-rest [] = refl
  filter-rest (row ∷ rows) = ground (arith, filter-rest rows)

  module _ (other : ℕ) (differs : other ≢ technician_id) where
    filter-other :
        (ws : List DailyHours) → filter (is_hours_of other) (map (to_row technician_id) ws) ≡ []
    filter-other [] = refl
    filter-other (w ∷ ws) = ground (arith, differs, filter-other ws)

    filter-other_rest :
        (rows : List WorkingHoursRow)
        → filter (is_hours_of other) (filter (λ row. not (is_hours_of technician_id row)) rows)
          ≡ filter (is_hours_of other) rows
    filter-other_rest [] = refl
    filter-other_rest (row ∷ rows) = ground (arith, differs, filter-other_rest rows)

hours_of_rows-to_row :
    (technician_id : ℕ) (ws : List DailyHours)
    → make_windows ws ≡ ok ws
    → make_weekly ws ≡ ok (record { windows = ws })
    → hours_of_rows (map (to_row technician_id) ws) ≡ read_back (record { windows = ws })
unfolding hours_of_rows
hours_of_rows-to_row technician_id [] accepted valid = refl
hours_of_rows-to_row technician_id (w ∷ ws) accepted valid =
    rw (to_windows-to_row technician_id (w ∷ ws), accepted) valid

-- After a schedule that `make_windows` and `WeeklyWorkingHours` accept is stored, reading it gives
-- that schedule, or the default week if it has no window; another technician's reading is unchanged.
pub get_for_technician-set_for_technician :
    (technician_id other : ℕ) (body : List DailyHours) (hours : WeeklyWorkingHours)
    (rows : List WorkingHoursRow)
    → Outcome.◌>>=◌ (make_windows body) make_weekly ≡ ok hours
    → other ≢ technician_id
    → (get_for_technician technician_id (set_for_technician technician_id hours rows)
        ≡ read_back hours)
      × (get_for_technician other (set_for_technician technician_id hours rows)
          ≡ get_for_technician other rows)
unfolding get_for_technician set_for_technician
get_for_technician-set_for_technician technician_id other body hours rows valid differs =
    let first = >>=-eq-ok (make_windows body) make_weekly valid in
    let same : hours.windows ≡ first.0 = make_weekly-eq first.0 hours first.2 in
    let accepted : make_windows hours.windows ≡ ok hours.windows =
      ap make_windows (same ∙ make_windows-eq body first.0 first.1)
      ∙ first.1
      ∙ ap (λ ws. ok ws) (sym same) in
    let rest : List WorkingHoursRow = filter (λ row. not (is_hours_of technician_id row)) rows in
    let new : List WorkingHoursRow = map (to_row technician_id) hours.windows in
    (
      rw
          (
            filter-append (is_hours_of technician_id) rest new,
            filter-rest technician_id rows,
            filter-own technician_id hours.windows,
          )
          (hours_of_rows-to_row technician_id hours.windows accepted
            (ap make_weekly same ∙ first.2)),
      rw
          (
            filter-append (is_hours_of other) rest new,
            filter-other_rest technician_id other differs rows,
            filter-other technician_id other differs hours.windows,
            append-nil (filter (is_hours_of other) rows),
          )
          refl,
    )
