-- ===== src/Scheduling/Booking/Proposals.antt =====
-- Every slot that `propose_slots` of
-- backend/src/fsm/scheduling/application/appointment_service.py offers can be booked.
use field_service_management.Base.{
  ℕ, ◌+◌, ◌-◌, ◌*◌, ◌≤◌, ◌<◌, ◌≡◌, refl, ap, ◌∙◌, Bool, true, false, not, ◌||◌, ◌&&◌, none, List,
  [], ◌∷◌, ◌++◌, arith, All, All-filter, any, any-append, filter, map, leb, leb→le, Bool-cases, inl,
  inr, if◌then◌else◌,
}
use field_service_management.Scheduling.Outcome.{ok}
use field_service_management.Scheduling.TimeRange.{TimeRange, overlaps, IsValidRange}
use field_service_management.Scheduling.WorkingHours.{WeeklyWorkingHours, micros_per_day}
use field_service_management.Scheduling.Slots.{Zone}
use field_service_management.Scheduling.Slots.Reference.{conflicts, all_slots, IsChronological}
use field_service_management.Scheduling.Slots.Equivalence.{generate_slots-eq-filter}
use field_service_management.Scheduling.Slots.Spans.{
  EndsWithinDay, KeepsOrder, Spans, all_slots-Placed,
}
use field_service_management.Scheduling.Store.{Store, AppointmentRow}
use field_service_management.Scheduling.Repositories.Mapping.{
  IsValidRow, entity, rows_to_appointments-eq,
}
use field_service_management.Scheduling.Repositories.Appointments.{
  in_window, list_for_technician_between,
}
use field_service_management.Scheduling.Repositories.Consistency.{IsConsistent}
use field_service_management.Scheduling.Booking.{
  AppointmentService, propose_slots, ranges_of, guard_no_overlap,
}
use field_service_management.Scheduling.Booking.Guards.{blocks, guard_no_overlap-eq}

-- For a valid slot inside the query window, the appointments in the window answer for all of the
-- technician's.
conflicts-eq-blocks :
    (technician from to : ℕ) (t : TimeRange) (rows : List AppointmentRow)
    → IsValidRange t
    → from ≤ t.start
    → t.end ≤ to
    → All IsValidRow rows
    → conflicts (ranges_of (map entity (filter (in_window technician from to) rows))) t
      ≡ any (blocks technician t none) rows
unfolding conflicts ranges_of in_window
conflicts-eq-blocks technician from to t [] valid lo hi all = refl
conflicts-eq-blocks technician from to t (row ∷ rows) valid lo hi all =
    elim (Bool-cases (in_window technician from to row)) [
      | inl seen ↦ ground (arith, conflicts-eq-blocks technician from to t rows valid lo hi all.1)
      | inr unseen ↦ ground (arith, conflicts-eq-blocks technician from to t rows valid lo hi all.1)
    ]

-- What a proposed slot is filtered by, from the tables.
abbrev pub offers : ℕ → ℕ → List TimeRange → Store → TimeRange → Bool
offers now technician busy s t =
    leb now t.start
    && (not (conflicts busy t) && not (any (blocks technician t none) s.appointments))

filter_twice :
    (now technician from to : ℕ) (busy : List TimeRange) (s : Store) (ts : List TimeRange)
    → All IsValidRow s.appointments
    → All (λ t. (from ≤ t.start) × (t.start < t.end) × (t.end ≤ to)) ts
    → filter
        (λ t. leb now t.start)
        (filter
          (λ t. not (
            conflicts
              (busy
                ++ ranges_of (map entity (filter (in_window technician from to) s.appointments)))
              t))
          ts)
      ≡ filter (offers now technician busy s) ts
unfolding conflicts
filter_twice now technician from to busy s [] valid spans = refl
filter_twice now technician from to busy s (t ∷ ts) valid spans =
    let both : any (overlaps t)
          (busy ++ ranges_of (map entity (filter (in_window technician from to) s.appointments)))
        ≡ (any (overlaps t) busy || any (blocks technician t none) s.appointments) =
      any-append (overlaps t) busy _
      ∙ ap (λ b. any (overlaps t) busy || b)
          (conflicts-eq-blocks technician from to t s.appointments spans.0.1 spans.0.0 spans.0.2
            valid) in
    rw both (
      keep (any (overlaps t) busy) (any (blocks technician t none) s.appointments) _ _
        (filter_twice now technician from to busy s ts valid spans.1))
  where
    keep :
        (a b : Bool) (xs ys : List TimeRange)
        → filter (λ t. leb now t.start) xs ≡ ys
        → filter (λ t. leb now t.start) (if not (a || b) then t ∷ xs else xs)
          ≡ (if leb now t.start && (not a && not b) then t ∷ ys else ys)
    keep true b xs ys h = ground (arith, h)
    keep false true xs ys h = ground (arith, h)
    keep false false xs ys h = ground (arith, h)

module _ (service : AppointmentService) (now technician : ℕ) (hours : WeeklyWorkingHours)
    (tz : Zone) (holidays : ℕ → Bool) (d start_date end_date : ℕ) (s : Store)
    (busy : List TimeRange) (pos : 0 < d) (ordered : start_date ≤ end_date)
    (ends : EndsWithinDay hours)
    (keeps : KeepsOrder tz (start_date * micros_per_day) ((end_date + 1) * micros_per_day))
    (answered : service.get_busy technician
        (tz.localize (start_date * micros_per_day))
        (tz.localize ((end_date + 1) * micros_per_day))
      ≡ ok busy)
    (consistent : IsConsistent s) where
  abbrev offered : List TimeRange
  offered = all_slots (end_date + 1 - start_date) hours tz holidays d start_date

  placed :
      IsChronological (tz.localize (start_date * micros_per_day)) offered
      × All (Spans tz (start_date * micros_per_day) ((end_date + 1) * micros_per_day)) offered
  placed =
      let span : start_date + (end_date + 1 - start_date) ≡ end_date + 1 = omega arith in
      rw span at (
        all_slots-Placed hours tz holidays d (start_date * micros_per_day)
          ((end_date + 1) * micros_per_day) pos keeps ends (end_date + 1 - start_date) start_date
          (omega arith) (omega arith))

  -- For a positive slot length, working windows that end within their day, dates in order with no
  -- forward clock change between them, a calendar that answers, and a consistent appointment table,
  -- `propose_slots` returns: each slot of each working day that is no holiday, in order, that does
  -- not start before `now`, overlaps no busy interval of the calendar and overlaps no active
  -- appointment of the technician.
  pub propose_slots-eq-filter :
      propose_slots service now technician hours tz start_date end_date d holidays s
      ≡ ok (
          filter
            (offers now technician busy s)
            (all_slots (end_date + 1 - start_date) hours tz holidays d start_date))
  unfolding propose_slots list_for_technician_between
  propose_slots-eq-filter =
      rw
        (
          answered,
          rows_to_appointments-eq
              (filter
                (in_window technician (tz.localize (start_date * micros_per_day))
                  (tz.localize ((end_date + 1) * micros_per_day)))
                s.appointments)
              (All-filter IsValidRow
                (in_window technician (tz.localize (start_date * micros_per_day))
                  (tz.localize ((end_date + 1) * micros_per_day)))
                s.appointments consistent.valid),
          generate_slots-eq-filter hours start_date end_date
              (busy
                ++ ranges_of (
                    map entity (
                      filter
                        (in_window technician (tz.localize (start_date * micros_per_day))
                          (tz.localize ((end_date + 1) * micros_per_day)))
                        s.appointments)))
              holidays d tz pos (weaken _ offered placed.0),
        )
        (ap ok (filter_twice now technician _ _ busy s offered consistent.valid placed.1))
    where
      weaken : (bound : ℕ) (ts : List TimeRange) → IsChronological bound ts → IsChronological 0 ts
      weaken bound [] c = tt
      weaken bound (t ∷ ts) c = (omega arith, c.1)

  -- A slot passes the overlap guard of a booking as it stands.
  abbrev Bookable : TimeRange → Type 0
  Bookable t =
      (now ≤ t.start) × (conflicts busy t ≡ false) × (guard_no_overlap technician t none s ≡ ok tt)

  offers-Bookable :
      (ts : List TimeRange)
      → All (Spans tz (start_date * micros_per_day) ((end_date + 1) * micros_per_day)) ts
      → All Bookable (filter (offers now technician busy s) ts)
  offers-Bookable [] spans = tt
  offers-Bookable (t ∷ ts) spans = elim (Bool-cases (offers now technician busy s t)) [
    | inr dropped ↦ rw dropped (offers-Bookable ts spans.1)
    | inl kept ↦
        let (later, free, open') =
          and_parts (leb now t.start) (conflicts busy t)
            (any (blocks technician t none) s.appointments) kept in
        rw kept (
          (
            leb→le now t.start later,
            free,
            rw (guard_no_overlap-eq technician t none s spans.0.1 consistent.valid, open') refl,
          ),
          offers-Bookable ts spans.1,
        )
  ]
    where
      and_parts :
          (a b c : Bool) → (a && (not b && not c)) ≡ true → (a ≡ true) × (b ≡ false) × (c ≡ false)
      and_parts a b c h = ground arith

  -- For a positive slot length, working windows that end within their day, dates in order with no
  -- forward clock change between them, a calendar that answers, and a consistent appointment table,
  -- `propose_slots` returns, and every slot that it returns starts at `now` or later, overlaps no
  -- busy interval of the calendar, and passes the overlap guard of a booking.
  pub propose_slots-Bookable :
      (slots : List TimeRange) × (propose_slots service now technician hours tz start_date end_date
          d holidays s
        ≡ ok slots)
      × All
          (λ t.
            (now ≤ t.start)
            × (conflicts busy t ≡ false)
            × (guard_no_overlap technician t none s ≡ ok tt))
          slots
  propose_slots-Bookable = (
    filter (offers now technician busy s) offered,
    propose_slots-eq-filter,
    offers-Bookable offered placed.1,
  )
