-- ===== src/Identity/Service/Decisions.antt =====
-- The back-office decisions of backend/src/fsm/identity/application/identity_service.py.
use mathlib.Core.Path.{subst}
use field_service_management.Base.{
  ℕ, ◌≡◌, refl, sym, ◌∙◌, true, false, Option, none, some, List, ◌⊎◌, inl, inr, Bool-cases,
  Option-cases,
}
use field_service_management.Base.Rows.{find, put, find-key}
use field_service_management.Identity.User.{
  User, RoleStatus, IdentityError, Answer, returned, raised,
}
use field_service_management.Identity.Users.{user_id, get}
use field_service_management.Identity.Service.{
  is_pending_technician, decide, approve_technician, reject_technician,
}

-- The user that a decision leaves: the status, who decided and when, and all else as it was.
abbrev pub decided_as : RoleStatus → ℕ → ℕ → User → User
decided_as status decided_by now before = record {
  id = before.id;
  google_sub = before.google_sub;
  email = before.email;
  name = before.name;
  role = before.role;
  role_status = status;
  role_decided_at = some now;
  role_decided_by = some decided_by;
  display_name = before.display_name;
  address = before.address;
  phone = before.phone;
  assist_disclaimer_accepted_at = before.assist_disclaimer_accepted_at;
}

-- A decision that returns was about a pending technician; one that raises changes nothing, and says
-- whether the user is missing or not pending.
abbrev pub Decides : (User → User) → ℕ → List User → Answer User × List User → Type 0
Decides decision id rows (returned user, t) =
    (before : User) × (find user_id id rows ≡ some before)
    × (is_pending_technician before.role before.role_status ≡ true)
    × (user ≡ decision before)
    × (t ≡ put user_id (decision before) rows)
Decides decision id rows (raised e, t) =
    (t ≡ rows)
    × (((find user_id id rows ≡ none) × (e ≡ IdentityError.not_found))
        ⊎ ((before : User) × (find user_id id rows ≡ some before)
            × (is_pending_technician before.role before.role_status ≡ false)
            × (e ≡ IdentityError.invalid_role_decision)))

decide-Decides :
    (decision : User → User) (id : ℕ) (rows : List User)
    → ((user : User) → (decision user).id ≡ user.id)
    → Decides decision id rows (decide decision (get id rows) rows)
unfolding decide
decide-Decides decision id rows keeps = elim (Option-cases (find user_id id rows)) [
  | inl absent ↦
      subst (λ found. Decides decision id rows (decide decision (answer found) rows)) (sym absent)
        (refl, inl (absent, refl))
  | inr (before, e) ↦
      subst (λ found. Decides decision id rows (decide decision (answer found) rows)) (sym e)
        (pending before e (Bool-cases (is_pending_technician before.role before.role_status)))
]
  where
    answer : Option User → Answer User
    answer found = elim found [ none ↦ raised IdentityError.not_found | some row ↦ returned row ]

    pending :
        (before : User)
        → find user_id id rows ≡ some before
        → (is_pending_technician before.role before.role_status ≡ true)
          ⊎ (is_pending_technician before.role before.role_status ≡ false)
        → Decides decision id rows (decide decision (returned before) rows)
    pending before e (inl waits) =
        let own : find user_id (decision before).id rows ≡ some before =
          subst (λ k. find user_id k rows ≡ some before)
            (sym (keeps before ∙ find-key user_id id rows before e)) e in
        rw (waits, own) (before, e, waits, refl, refl)
    pending before e (inr over) = rw over (refl, inr (before, e, over, refl))

-- Approving and rejecting: each returns exactly for a stored technician whose status is PENDING,
-- writes APPROVED or REJECTED with the decider and the time and leaves its other fields, and
-- otherwise raises and changes nothing.
pub approve_technician-Decides :
    (id decided_by now : ℕ) (rows : List User)
    → Decides
        (decided_as RoleStatus.approved decided_by now)
        id
        rows
        (approve_technician id decided_by now rows)
      × Decides
          (decided_as RoleStatus.rejected decided_by now)
          id
          rows
          (reject_technician id decided_by now rows)
unfolding approve_technician reject_technician
approve_technician-Decides id decided_by now rows = (
  decide-Decides (decided_as RoleStatus.approved decided_by now) id rows (λ user. refl),
  decide-Decides (decided_as RoleStatus.rejected decided_by now) id rows (λ user. refl),
)
