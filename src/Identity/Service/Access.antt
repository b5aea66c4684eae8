-- ===== src/Identity/Service/Access.antt =====
-- What access a sign-in of backend/src/fsm/identity/application/identity_service.py can give, and
-- what it writes.
use field_service_management.Base.{
  ℕ, ◌≡◌, refl, ap, true, not, ◌||◌, Option, none, some, List, [], ◌∷◌, ◌++◌, ◌⊎◌, inl, inr, arith,
  Bool-cases, Option-cases, is_some, ◌∙◌, ◌≢◌,
}
use field_service_management.Base.Rows.{find, put}
use field_service_management.Base.Text.{Text, truthy}
use field_service_management.Identity.User.{
  Role, RoleStatus, User, IdentityError, Answer, returned, raised, check_user, is_technician,
  is_approved_technician,
}
use field_service_management.Identity.Users.{get_by_google_sub, add, user_id}
use field_service_management.Identity.Users.Subjects.{get_by_google_sub-subject, same_text-eq}
use field_service_management.Identity.Service.{
  SignInHost, VerifiedIdentity, SignInOutcome, is_allowlisted, apply_host, sync_claims,
  save_changed, reconcile_existing, new_user, insert_new, assign_new, check_new, resolve_user,
  sign_in, is_unchanged, same_role, same_status,
}

-- The columns that a sign-in compares.
abbrev pub SameAccess : User → User → Type 0
SameAccess before after =
    (after.email ≡ before.email)
    × (after.name ≡ before.name)
    × (after.role ≡ before.role)
    × (after.role_status ≡ before.role_status)

same_role-eq : (a b : Role) → same_role a b ≡ true → b ≡ a
same_role-eq a b h = ground arith

same_status-eq : (a b : RoleStatus) → same_status a b ≡ true → b ≡ a
same_status-eq a b h = ground arith

pub is_unchanged-SameAccess :
    (before after : User) → is_unchanged before after ≡ true → SameAccess before after
is_unchanged-SameAccess before after h = (
  cc (same_text-eq before.email after.email (ground arith)),
  cc (same_text-eq before.name after.name (ground arith)),
  same_role-eq before.role after.role (ground arith),
  same_status-eq before.role_status after.role_status (ground arith),
)

module _ (lower : Text → Text) (admin_emails : List Text) where
  -- What a host may make of a user.
  abbrev Assigns : SignInHost → User → Answer User → Type 0
  Assigns host before (raised e) = Unit
  Assigns host before (returned after) =
      (after.google_sub ≡ before.google_sub)
      × (after.id ≡ before.id)
      × (after.role ≡ Role.admin
          → (host ≡ SignInHost.backoffice) × (is_allowlisted lower admin_emails after.email ≡ true))
      × (is_approved_technician after ≡ true
          → (host ≡ SignInHost.technician) × (is_approved_technician before ≡ true))

  apply_host-Assigns :
      (host : SignInHost) (user : User)
      → Assigns host user (apply_host lower admin_emails host user)
  unfolding apply_host
  apply_host-Assigns SignInHost.customer user =
      (refl, refl, (λ h. absurd (ground arith)), λ h. absurd (ground arith))
  apply_host-Assigns SignInHost.technician user = elim (Bool-cases (is_technician user.role)) [
    | inl claimed ↦
        rw claimed (refl, refl, (λ h. absurd (not_admin user.role h claimed)), λ h. (refl, h))
    | inr other ↦ rw other (refl, refl, (λ h. absurd (ground arith)), λ h. absurd (ground arith))
  ]
    where
      not_admin : (role : Role) → role ≡ Role.admin → is_technician role ≡ true → ⊥
      not_admin role e h = ground arith
  apply_host-Assigns SignInHost.backoffice user =
      elim (Bool-cases (is_allowlisted lower admin_emails user.email)) [
        | inl listed ↦ rw listed (refl, refl, (λ h. (refl, listed)), λ h. absurd (ground arith))
        | inr refused ↦ rw refused tt
      ]

  module _ (identity : VerifiedIdentity) (host : SignInHost) (others : List User → List User)
      (rows : List User) (new_id : ℕ) where
    -- The access of a user that a sign-in returns.
    abbrev pub HasAccess : User → Type 0
    HasAccess user =
        (user.google_sub ≡ identity.google_sub)
        × (user.role ≡ Role.admin
            → (host ≡ SignInHost.backoffice)
              × (is_allowlisted lower admin_emails user.email ≡ true))
        × (is_approved_technician user ≡ true
            → (host ≡ SignInHost.technician)
              × (before : User) × (get_by_google_sub identity.google_sub rows ≡ some before)
              × (is_approved_technician before ≡ true))

    -- What the sign-in of a known user leaves: the table as it was, or the user's row overwritten.
    abbrev pub IsKept : User → List User → Type 0
    IsKept user t =
        (before : User) × (get_by_google_sub identity.google_sub rows ≡ some before)
        × (user.id ≡ before.id)
        × ((SameAccess before user × (t ≡ rows)) ⊎ (t ≡ put user_id user rows))

    -- What a first sign-in leaves: one row more, where nobody else has taken the subject.
    abbrev pub IsAdded : User → List User → Type 0
    IsAdded user t =
        (get_by_google_sub identity.google_sub rows ≡ none)
        × (get_by_google_sub identity.google_sub (others rows) ≡ none)
        × (user.id ≡ new_id)
        × (t ≡ others rows ++ user ∷ [])

    -- A first sign-in that another one has overtaken.
    abbrev pub IsOvertaken : IdentityError → List User → Type 0
    IsOvertaken e t =
        (e ≡ IdentityError.pending_rollback)
        × (get_by_google_sub identity.google_sub rows ≡ none)
        × (get_by_google_sub identity.google_sub (others rows) ≢ none)
        × (t ≡ others rows)

    abbrev pub Admits : Answer SignInOutcome × List User → Type 0
    Admits (raised e, t) = (t ≡ rows) ⊎ IsOvertaken e t
    Admits (returned outcome, t) =
        HasAccess outcome.user × (IsKept outcome.user t ⊎ IsAdded outcome.user t)

    saved-Admits :
        (user : User) (answer : Answer User)
        → get_by_google_sub identity.google_sub rows ≡ some user
        → Assigns host (sync_claims identity user) answer
        → Admits (save_changed user answer rows)
    unfolding save_changed
    saved-Admits user (raised e) known h = inl refl
    saved-Admits user (returned after) known (same, own, admin, technician) =
        elim (Bool-cases (is_unchanged user after)) [
          | inl unchanged ↦ rw unchanged (
            access,
            inl (user, known, own, inl (is_unchanged-SameAccess user after unchanged, refl)),
          )
          | inr changed ↦ elim (Bool-cases (is_some (find user_id after.id rows))) [
            | inl there ↦ rw (changed, there) (access, inl (user, known, own, inr refl))
            | inr absent ↦ rw (changed, absent) (inl refl)
          ]
        ]
      where
        access : HasAccess after
        access = (
          same ∙ get_by_google_sub-subject identity.google_sub rows user known,
          admin,
          λ h. (let (host', before) = technician h in (host', user, known, before)),
        )

    inserted-Admits :
        (user : User)
        → get_by_google_sub identity.google_sub rows ≡ none
        → Assigns host (new_user new_id identity) (returned user)
        → Admits (insert_new user (add user (others rows)))
    unfolding insert_new
    inserted-Admits user absent (same, own, admin, technician) =
        elim (Option-cases (get_by_google_sub identity.google_sub (others rows))) [
          | inl free ↦ rw (ap (λ s. get_by_google_sub s (others rows)) same ∙ free) (
            (same, admin, λ h. absurd (ground (arith, technician h))),
            inr (absent, free, own, refl),
          )
          | inr (winner, taken) ↦ rw (ap (λ s. get_by_google_sub s (others rows)) same ∙ taken) (
              inr (
                refl,
                absent,
                (λ (h : get_by_google_sub identity.google_sub (others rows) ≡ none). cc),
                refl,
              ))
        ]

    resolved-Admits :
        (found : Option User)
        → get_by_google_sub identity.google_sub rows ≡ found
        → Admits (resolve_user lower admin_emails new_id identity host others found rows)
    unfolding resolve_user check_new assign_new check_user reconcile_existing
    resolved-Admits none e =
        elim (Bool-cases (not (truthy identity.google_sub) || not (truthy identity.email))) [
          | inl blank ↦ rw blank (inl refl)
          | inr filled ↦ rw filled (
              assigned (apply_host lower admin_emails host (new_user new_id identity))
                (apply_host-Assigns host (new_user new_id identity)))
        ]
      where
        assigned :
            (answer : Answer User)
            → Assigns host (new_user new_id identity) answer
            → Admits (assign_new others answer rows)
        assigned (raised failure) h = inl refl
        assigned (returned user) h = inserted-Admits user e h
    resolved-Admits (some user) e =
        saved-Admits user (apply_host lower admin_emails host (sync_claims identity user)) e
          (apply_host-Assigns host (sync_claims identity user))

    -- Whatever other transactions commit meanwhile: a sign-in that returns gives a user with the
    -- verified subject; the user is ADMIN only on the back-office host and with an email of the
    -- allowlist, and an approved technician only on the technician host and where the user was one
    -- before. Of a known user it overwrites at most the user's row, with the user that it returns, and
    -- nothing if email, name, role and status stay; of a new one it adds the row. One that raises
    -- changes nothing; so does a first sign-in that another one has overtaken, which raises.
    pub sign_in-Admits : Admits (sign_in lower admin_emails new_id (some identity) host others rows)
    unfolding sign_in
    sign_in-Admits = resolved-Admits (get_by_google_sub identity.google_sub rows) refl
