-- ===== src/Identity/Service/Sticky.antt =====
-- The sign-in of a technician who has claimed the role:
-- backend/src/fsm/identity/application/identity_service.py.
use field_service_management.Base.{
  ℕ, ◌≡◌, refl, ap, sym, Bool, true, false, not, ◌&&◌, some, List, [], ◌∷◌, map, inl, inr, arith,
  Bool-cases, ◌∙◌, ◌==◌,
}
use field_service_management.Base.Rows.{find, put}
use field_service_management.Base.Text.{Text}
use field_service_management.Identity.User.{User, returned, is_technician}
use field_service_management.Identity.Users.{get_by_google_sub, user_id, list_pending_technicians}
use field_service_management.Identity.Service.{
  SignInHost, VerifiedIdentity, SignInOutcome, is_pending_technician, sync_claims, outcome_of,
  apply_host, save_changed, reconcile_existing, resolve_user, sign_in, is_unchanged,
}
use field_service_management.Identity.Service.Access.{SameAccess, is_unchanged-SameAccess}

-- The user with the verified email and name, and all else as it was.
abbrev pub with_claims : VerifiedIdentity → User → User
with_claims identity user = record user { email = identity.email; name = identity.name }

-- Writing a row that is there already.
put-found :
    (user : User) (rows : List User)
    → find user_id user.id rows ≡ some user
    → put user_id user rows ≡ rows
put-found user [] h = ground arith
put-found user (row ∷ rows) h = elim (Bool-cases (row.id == user.id)) [
  | inl own ↦
      let same : some row ≡ some user = rw own at h in
      let e : row ≡ user = cc in rw own (ap (λ (u : User). u ∷ rows) (sym e))
  | inr other ↦ rw other (ap (◌∷◌ row) (put-found user rows (rw other at h)))
]

-- A new email and name leave the approval queue as it was.
queue-with_claims :
    (identity : VerifiedIdentity) (user : User) (rows : List User)
    → find user_id user.id rows ≡ some user
    → map user_id (list_pending_technicians (put user_id (with_claims identity user) rows))
      ≡ map user_id (list_pending_technicians rows)
unfolding list_pending_technicians
queue-with_claims identity user [] h = refl
queue-with_claims identity user (row ∷ rows) h = elim (Bool-cases (row.id == user.id)) [
  | inl own ↦
      let same : some row ≡ some user = rw own at h in
      let e : row ≡ user = cc in
      rw (own, ap (λ (u : User). u.role) e, ap (λ (u : User). u.role_status) e)
        (ground (arith, own))
  | inr other ↦
      let ih = queue-with_claims identity user rows (rw other at h) in rw other (ground (arith, ih))
]

module _ (lower : Text → Text) (admin_emails : List Text) where
  -- On the technician host, a stored user who has claimed the role keeps its status, a rejected one
  -- too: the sign-in returns the user with the verified email and name and all else as it was, writes
  -- just that to the user's row, and the approval queue neither gains nor loses an entry.
  pub sign_in-Sticky :
      (identity : VerifiedIdentity) (others : List User → List User) (rows : List User) (new_id : ℕ)
      (user : User)
      → get_by_google_sub identity.google_sub rows ≡ some user
      → is_technician user.role ≡ true
      → find user_id user.id rows ≡ some user
      → (sign_in lower admin_emails new_id (some identity) SignInHost.technician others rows ≡ (
        returned (record {
          user = with_claims identity user;
          requested_pending = false;
          withdrew_pending = false;
        }),
        put user_id (with_claims identity user) rows,
      ))
        × (map user_id (list_pending_technicians (put user_id (with_claims identity user) rows))
            ≡ map user_id (list_pending_technicians rows))
  unfolding sign_in resolve_user reconcile_existing save_changed apply_host
  sign_in-Sticky identity others rows new_id user found claimed stored = (
    elim (Bool-cases (is_unchanged user (sync_claims identity user))) [
      | inl unchanged ↦
          rw (found, claimed, unchanged)
            (ap (λ o. (returned o, rows)) quiet ∙ ap (λ t. (returned o', t)) (sym (kept unchanged)))
      | inr changed ↦
          rw (found, claimed, changed, stored)
            (ap (λ o. (returned o, put user_id (sync_claims identity user) rows)) quiet)
    ],
    queue-with_claims identity user rows stored,
  )
    where
      never : (p : Bool) → (p && not p) ≡ false
      never true = refl
      never false = refl

      o' : SignInOutcome
      o' = record {
        user = with_claims identity user;
        requested_pending = false;
        withdrew_pending = false;
      }

      quiet : outcome_of user (sync_claims identity user) ≡ o'
      quiet = rw (never (is_pending_technician user.role user.role_status)) refl

      kept :
          is_unchanged user (sync_claims identity user) ≡ true
          → put user_id (with_claims identity user) rows ≡ rows
      kept h =
          let same : SameAccess user (sync_claims identity user) =
            is_unchanged-SameAccess user (sync_claims identity user) h in
          let e : with_claims identity user ≡ user =
            λ i. record user { email = same.0 i; name = same.1 i } in
          ap (λ (u : User). put user_id u rows) e ∙ put-found user rows stored
