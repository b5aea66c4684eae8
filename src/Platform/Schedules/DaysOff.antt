-- ===== src/Platform/Schedules/DaysOff.antt =====
-- The days off of backend/src/fsm/scheduling/adapters/time_off_repository.py as a set of dates for
-- each technician.
use mathlib.Core.Path.{subst}
use field_service_management.Base.{
  ℕ, Bool, true, not, ◌&&◌, ◌||◌, List, [], ◌∷◌, any, any-append, ◌≡◌, refl, ap, ◌∙◌, Bool-cases,
  inl, inr, ◌==◌, leb, arith,
}
use field_service_management.Platform.Backend.{TimeOffRow}
use field_service_management.Platform.Schedules.{
  is_off, add_time_off, remove_time_off, days_off_between,
}

pub data OffChange : Type 0 where
  adds removes : ℕ → ℕ → OffChange

abbrev pub change : OffChange → List TimeOffRow → List TimeOffRow
change (adds technician_id date) rows = add_time_off technician_id date rows
change (removes technician_id date) rows = remove_time_off technician_id date rows

abbrev pub change_all : List OffChange → List TimeOffRow → List TimeOffRow
change_all [] rows = rows
change_all (c ∷ cs) rows = change_all cs (change c rows)

-- Whether a technician is off on a date.
abbrev pub Calendar : Type 0
Calendar = ℕ → ℕ → Bool

abbrev pub expected : OffChange → Calendar → Calendar
expected (adds technician_id date) off t d = (technician_id == t && date == d) || off t d
expected (removes technician_id date) off t d = not (technician_id == t && date == d) && off t d

abbrev pub expected_all : List OffChange → Calendar → Calendar
expected_all [] off = off
expected_all (c ∷ cs) off = expected_all cs (expected c off)

abbrev pub calendar : List TimeOffRow → Calendar
calendar rows t d = any (is_off t d) rows

any-add :
    (technician_id date t d : ℕ) (rows : List TimeOffRow)
    → any (is_off t d) (add_time_off technician_id date rows)
      ≡ ((technician_id == t && date == d) || any (is_off t d) rows)
unfolding add_time_off
any-add technician_id date t d rows = elim (Bool-cases (any (is_off technician_id date) rows)) [
  | inl taken ↦ elim (Bool-cases (technician_id == t && date == d)) [
    | inl same ↦
        let own : technician_id ≡ t = ground (arith, same) in
        let day : date ≡ d = ground (arith, same) in
        let there : any (is_off t d) rows ≡ true =
          subst (λ x. any (is_off x d) rows ≡ true) own
            (subst (λ x. any (is_off technician_id x) rows ≡ true) day taken) in
        ground (arith, taken, there, same)
    | inr other ↦ ground (arith, taken, other)
  ]
  | inr free ↦ ground (
    arith,
    free,
    any-append (is_off t d) rows (record { technician_id = technician_id; off_date = date } ∷ []),
  )
]

any-remove :
    (technician_id date t d : ℕ) (rows : List TimeOffRow)
    → any (is_off t d) (remove_time_off technician_id date rows)
      ≡ (not (technician_id == t && date == d) && any (is_off t d) rows)
unfolding remove_time_off
any-remove technician_id date t d [] = ground arith
any-remove technician_id date t d (row ∷ rows) =
    ground (arith, any-remove technician_id date t d rows)

calendar-change :
    (c : OffChange) (rows : List TimeOffRow) (t d : ℕ)
    → calendar (change c rows) t d ≡ expected c (calendar rows) t d
calendar-change (adds technician_id date) rows t d = any-add technician_id date t d rows
calendar-change (removes technician_id date) rows t d = any-remove technician_id date t d rows

expected_all-eq :
    (cs : List OffChange) (off off' : Calendar)
    → ((t d : ℕ) → off t d ≡ off' t d)
    → (t d : ℕ) → expected_all cs off t d ≡ expected_all cs off' t d
expected_all-eq [] off off' same t d = same t d
expected_all-eq (adds technician_id date ∷ cs) off off' same t d =
    expected_all-eq cs (expected (adds technician_id date) off)
      (expected (adds technician_id date) off')
      (λ u e. ap (λ b. (technician_id == u && date == e) || b) (same u e)) t d
expected_all-eq (removes technician_id date ∷ cs) off off' same t d =
    expected_all-eq cs (expected (removes technician_id date) off)
      (expected (removes technician_id date) off')
      (λ u e. ap (λ b. not (technician_id == u && date == e) && b) (same u e)) t d

calendar-change_all :
    (cs : List OffChange) (rows : List TimeOffRow) (t d : ℕ)
    → calendar (change_all cs rows) t d ≡ expected_all cs (calendar rows) t d
calendar-change_all [] rows t d = refl
calendar-change_all (c ∷ cs) rows t d =
    calendar-change_all cs (change c rows) t d
    ∙ expected_all-eq cs (calendar (change c rows)) (expected c (calendar rows))
        (calendar-change c rows) t d

days_off_between-eq :
    (t start end d : ℕ) (rows : List TimeOffRow)
    → any (λ date. date == d) (days_off_between t start end rows)
      ≡ ((leb start d && leb d end) && calendar rows t d)
unfolding days_off_between
days_off_between-eq t start end d [] = ground arith
days_off_between-eq t start end d (row ∷ rows) =
    ground (arith, days_off_between-eq t start end d rows)

-- After any days off added and removed, in any order and repeatedly, a listing of a technician has
-- a date exactly when it lies in the window and the technician is off then: off before and not
-- removed since, or added and not removed since.
pub days_off_between-refines :
    (cs : List OffChange) (rows : List TimeOffRow) (t start end d : ℕ)
    → any (λ date. date == d) (days_off_between t start end (change_all cs rows))
      ≡ ((leb start d && leb d end) && expected_all cs (calendar rows) t d)
days_off_between-refines cs rows t start end d =
    days_off_between-eq t start end d (change_all cs rows)
    ∙ ap (λ b. (leb start d && leb d end) && b) (calendar-change_all cs rows t d)
