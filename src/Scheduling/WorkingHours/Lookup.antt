-- ===== src/Scheduling/WorkingHours/Lookup.antt =====
-- The lookup of backend/src/fsm/scheduling/domain/working_hours.py over hours that the constructor
-- accepted.
use field_service_management.Base.{
  ℕ, ◌≡◌, false, some, List, [], ◌∷◌, map, any, All, arith, ◌==◌, Bool-cases, inl, inr,
}
use field_service_management.Scheduling.Outcome.{ok}
use field_service_management.Scheduling.WorkingHours.{
  DailyHours, WeeklyWorkingHours, has_duplicates, make_weekly, first_window, window_for,
}

abbrev weekdays : List DailyHours → List ℕ
weekdays = map λ (dh : DailyHours). dh.weekday

-- A weekday that stands nowhere else in the list is not found earlier.
skip :
    (dh : DailyHours) (ws : List DailyHours)
    → any (λ y. dh.weekday == y) (weekdays ws) ≡ false
    → All (λ w. (dh.weekday == w.weekday) ≡ false) ws
skip dh [] h = tt
skip dh (w ∷ ws) h = (ground arith, skip dh ws (ground arith))

first_window-All :
    (ws : List DailyHours)
    → has_duplicates (weekdays ws) ≡ false
    → All (λ dh. first_window dh.weekday ws ≡ some dh) ws
unfolding has_duplicates first_window
first_window-All [] h = tt
first_window-All (w ∷ ws) h =
    (ground arith, both ws (skip w ws (ground arith)) (first_window-All ws (ground arith)))
  where
    both :
        (vs : List DailyHours)
        → All (λ v. (w.weekday == v.weekday) ≡ false) vs
        → All (λ v. first_window v.weekday ws ≡ some v) vs
        → All (λ v. first_window v.weekday (w ∷ ws) ≡ some v) vs
    both [] apart found = tt
    both (v ∷ vs) apart found = (ground arith, both vs apart.1 found.1)

-- In hours that the constructor accepts, the lookup of a window's own weekday gives that window:
-- no window is hidden behind another.
pub window_for-make_weekly :
    (ws : List DailyHours) (hours : WeeklyWorkingHours)
    → make_weekly ws ≡ ok hours
    → All (λ dh. window_for hours dh.weekday ≡ some dh) ws
unfolding make_weekly window_for
window_for-make_weekly ws hours h = elim (Bool-cases (has_duplicates (weekdays ws))) [
  | inl twice ↦ absurd (ground arith)
  | inr once ↦
      let same : hours ≡ record { windows = ws } = ground arith in
      rw same (first_window-All ws once)
]

-- What holds of every window holds of the one that a lookup finds.
pub window_for-All {ℓ} :
    (P : DailyHours → Type ℓ) (ws : List DailyHours) (weekday : ℕ) (dh : DailyHours)
    → All P ws
    → window_for (record { windows = ws }) weekday ≡ some dh
    → P dh
unfolding window_for first_window
window_for-All P [] weekday dh all h = absurd (ground arith)
window_for-All P (w ∷ ws) weekday dh all h =
    ground
      (arith, λ (e : first_window weekday ws ≡ some dh). window_for-All P ws weekday dh all.1 e)
