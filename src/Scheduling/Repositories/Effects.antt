-- ===== src/Scheduling/Repositories/Effects.antt =====
-- The methods of backend/src/fsm/scheduling/adapters/repositories.py by how they end, as
-- postcondition rules.
use field_service_management.Base.{
  ℕ, ◌≡◌, refl, sym, false, ◌⊎◌, inl, inr, none, some, [], ◌∷◌, ◌++◌, arith, Bool-cases,
  Option-cases,
}
use mathlib.Core.Path.{subst}
use native.Mathlib.Decide.{dec_lt}
use field_service_management.Base.Rows.{find, put}
use field_service_management.Scheduling.Outcome.{Result, ok, err, Error}
use field_service_management.Scheduling.TimeRange.{make_range}
use field_service_management.Scheduling.Appointment.{Appointment, is_cancelled}
use field_service_management.Scheduling.Appointment.Lifecycle.{Guarded}
use field_service_management.Scheduling.Store.{AppointmentRow, Store, Action, attempt, ◌>>=◌}
use field_service_management.Scheduling.Store.Post.{next, returns_post, raises_post}
use field_service_management.Scheduling.Repositories.{
  row_id, row_to_appointment, appointment_to_row, excluded, drain_into,
}
use field_service_management.Scheduling.Repositories.Appointments
use field_service_management.Scheduling.Repositories.Mapping.{
  IsValidRow, entity, row_to_appointment-eq,
}

-- The entity once its audits are written.
abbrev pub drained : Appointment → Appointment
drained a = record a { pending_audits = [] }

-- The state once the row of an entity is written, and its audits with it.
abbrev pub after_drain : Appointment → Store → Store
after_drain a s = (drain_into a s).1

abbrev pub updated : Appointment → Store → Store
updated a s =
    after_drain a (record s { appointments = put row_id (appointment_to_row a) s.appointments })

abbrev pub inserted : Appointment → Store → Store
inserted a s =
    after_drain a (record s { appointments = s.appointments ++ appointment_to_row a ∷ [] })

pub drain_into-eq :
    (a : Appointment) (s : Store) → drain_into a s ≡ (ok (drained a), after_drain a s)
unfolding drain_into
drain_into-eq a s = refl

pub get-eq :
    (id : ℕ) (s : Store) (row : AppointmentRow)
    → find row_id id s.appointments ≡ some row
    → Appointments.get id s ≡ (row_to_appointment row, s)
unfolding Appointments.get
get-eq id s row e = rw (e, Appointments.get)

pub get_valid :
    (id : ℕ) (s : Store) (row : AppointmentRow)
    → find row_id id s.appointments ≡ some row
    → IsValidRow row
    → Appointments.get id s ≡ (ok (entity row), s)
get_valid id s row e valid = rw (get-eq id s row e, row_to_appointment-eq row valid)

get_backwards :
    (id : ℕ) (s : Store) (row : AppointmentRow)
    → find row_id id s.appointments ≡ some row
    → ¬ IsValidRow row
    → Appointments.get id s ≡ (err Error.invalid_time_range, s)
unfolding row_to_appointment make_range
get_backwards id s row e backwards = rw (get-eq id s row e) (ground arith)

pub get_missing :
    (id : ℕ) (s : Store)
    → find row_id id s.appointments ≡ none
    → Appointments.get id s ≡ (err Error.not_found, s)
unfolding Appointments.get
get_missing id s e = rw (e, Appointments.get)

update_row_cases :
    (r : AppointmentRow) (s : Store)
    → ((e : Error) × (Appointments.update_row r s ≡ (err e, s)))
      ⊎ ((excluded r s.appointments ≡ false)
          × (Appointments.update_row r s
              ≡ (ok tt, record s { appointments = put row_id r s.appointments })))
unfolding Appointments.update_row
update_row_cases r s = elim (Option-cases (find row_id r.id s.appointments)) [
  | inl absent ↦ inl (Error.not_found, rw (absent, Appointments.update_row))
  | inr (row, e) ↦ elim (Bool-cases (excluded r s.appointments)) [
    | inl refused ↦ inl (Error.integrity_error, rw (e, refused, Appointments.update_row))
    | inr allowed ↦ inr (allowed, rw (e, allowed, Appointments.update_row))
  ]
]

insert_row_cases :
    (r : AppointmentRow) (s : Store)
    → ((e : Error) × (Appointments.insert_row r s ≡ (err e, s)))
      ⊎ ((find row_id r.id s.appointments ≡ none)
          × (excluded r s.appointments ≡ false)
          × (Appointments.insert_row r s
              ≡ (ok tt, record s { appointments = s.appointments ++ r ∷ [] })))
unfolding Appointments.insert_row
insert_row_cases r s = elim (Option-cases (find row_id r.id s.appointments)) [
  | inr (row, e) ↦ inl (Error.integrity_error, rw (e, Appointments.insert_row))
  | inl absent ↦ elim (Bool-cases (excluded r s.appointments)) [
    | inl refused ↦ inl (Error.slot_unavailable, rw (absent, refused, Appointments.insert_row))
    | inr allowed ↦ inr (absent, allowed, rw (absent, allowed, Appointments.insert_row))
  ]
]

-- What the two writes return, on every branch.
pub save_cases :
    (a : Appointment) (s : Store)
    → ((e : Error) × (Appointments.save a s ≡ (err e, s)))
      ⊎ ((excluded (appointment_to_row a) s.appointments ≡ false)
          × (Appointments.save a s ≡ (ok (drained a), updated a s)))
unfolding Appointments.save
save_cases a s =
    let r : AppointmentRow = appointment_to_row a in
    elim (update_row_cases r s) [
      | inl (e, h) ↦ inl (
        e,
        raises_post (λ out. out ≡ (err e, s)) (Appointments.update_row r) (λ _. drain_into a) s h
            refl,
      )
      | inr (allowed, h) ↦ inr (
        allowed,
        returns_post (λ out. out ≡ (ok (drained a), updated a s)) (Appointments.update_row r)
            (λ _. drain_into a) s h (drain_into-eq a _),
      )
    ]

pub save_allowed :
    (a : Appointment) (s : Store) (row : AppointmentRow)
    → find row_id a.id s.appointments ≡ some row
    → excluded (appointment_to_row a) s.appointments ≡ false
    → Appointments.save a s ≡ (ok (drained a), updated a s)
unfolding Appointments.save Appointments.update_row
save_allowed a s row found allowed =
    returns_post (λ out. out ≡ (ok (drained a), updated a s))
      (Appointments.update_row (appointment_to_row a)) (λ _. drain_into a) s
      (rw (found, allowed, Appointments.update_row)) (drain_into-eq a _)

pub add_cases :
    (a : Appointment) (s : Store)
    → ((e : Error) × (Appointments.add a s ≡ (err e, s)))
      ⊎ ((find row_id a.id s.appointments ≡ none)
          × (excluded (appointment_to_row a) s.appointments ≡ false)
          × (Appointments.add a s ≡ (ok (drained a), inserted a s)))
unfolding Appointments.add
add_cases a s =
    let r : AppointmentRow = appointment_to_row a in
    elim (insert_row_cases r s) [
      | inl (e, h) ↦ inl (
        e,
        raises_post (λ out. out ≡ (err e, s)) (Appointments.insert_row r) (λ _. drain_into a) s h
            refl,
      )
      | inr (absent, allowed, h) ↦ inr (
        absent,
        allowed,
        returns_post (λ out. out ≡ (ok (drained a), inserted a s)) (Appointments.insert_row r)
            (λ _. drain_into a) s h (drain_into-eq a _),
      )
    ]

module _ {ℓ} {B : Type 0} (Q : Result B × Store → Type ℓ) where
  pub get_post :
      (id : ℕ) (f : Appointment → Action B) (s : Store)
      → ((row : AppointmentRow)
          → find row_id id s.appointments ≡ some row
          → IsValidRow row
          → Q (f (entity row) s))
      → ((e : Error) → Appointments.get id s ≡ (err e, s) → Q (err e, s))
      → Q ((Appointments.get id >>= f) s)
  get_post id f s good bad = elim (Option-cases (find row_id id s.appointments)) [
    | inl absent ↦
        raises_post Q (Appointments.get id) f s (get_missing id s absent)
          (bad Error.not_found (get_missing id s absent))
    | inr (row, e) ↦ elim (dec_lt row.start_at row.end_at) [
      | yes valid ↦
          returns_post Q (Appointments.get id) f s (get_valid id s row e valid) (good row e valid)
      | no backwards ↦
          raises_post Q (Appointments.get id) f s (get_backwards id s row e backwards)
            (bad Error.invalid_time_range (get_backwards id s row e backwards))
    ]
  ]

  pub save_post :
      (a : Appointment) (f : Appointment → Action B) (s : Store)
      → (excluded (appointment_to_row a) s.appointments ≡ false → Q (f (drained a) (updated a s)))
      → ((e : Error) → Appointments.save a s ≡ (err e, s) → Q (err e, s))
      → Q ((Appointments.save a >>= f) s)
  save_post a f s good bad = elim (save_cases a s) [
    | inl (e, h) ↦ raises_post Q (Appointments.save a) f s h (bad e h)
    | inr (allowed, h) ↦ returns_post Q (Appointments.save a) f s h (good allowed)
  ]

  pub add_post :
      (a : Appointment) (f : Appointment → Action B) (s : Store)
      → (find row_id a.id s.appointments ≡ none
          → excluded (appointment_to_row a) s.appointments ≡ false
          → Q (f (drained a) (inserted a s)))
      → ((e : Error) → Appointments.add a s ≡ (err e, s) → Q (err e, s))
      → Q ((Appointments.add a >>= f) s)
  add_post a f s good bad = elim (add_cases a s) [
    | inl (e, h) ↦ raises_post Q (Appointments.add a) f s h (bad e h)
    | inr (absent, allowed, h) ↦ returns_post Q (Appointments.add a) f s h (good absent allowed)
  ]

  -- A mutation of an appointment that is refused once it is cancelled.
  pub guarded_post :
      (r : Result Appointment) (a b : Appointment) (f : Appointment → Action B) (s : Store)
      → Guarded a b r
      → (is_cancelled a.status ≡ false → Q (f b s))
      → Q (err Error.invalid_transition, s)
      → Q ((attempt r >>= f) s)
  guarded_post r a b f s (inl (gone, e)) good bad = subst (λ x. Q (next Q f (x, s))) (sym e) bad
  guarded_post r a b f s (inr (active, e)) good bad =
      subst (λ x. Q (next Q f (x, s))) (sym e) (good active)

  pub save_allowed_post :
      (a : Appointment) (f : Appointment → Action B) (s : Store) {row : AppointmentRow}
      → find row_id a.id s.appointments ≡ some row
      → excluded (appointment_to_row a) s.appointments ≡ false
      → Q (f (drained a) (updated a s))
      → Q ((Appointments.save a >>= f) s)
  save_allowed_post a f s {row} found allowed good =
      returns_post Q (Appointments.save a) f s (save_allowed a s row found allowed) good
