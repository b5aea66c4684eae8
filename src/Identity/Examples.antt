-- ===== src/Identity/Examples.antt =====
-- Each theorem of the identity context at a concrete input.
use field_service_management.Base.{map, ◌≡◌, refl, false, none, some, List, [], ◌∷◌}
use field_service_management.Base.Text.{Text}
use field_service_management.Identity.User.{Role, RoleStatus, User, returned}
use field_service_management.Identity.Service.{
  SignInHost, VerifiedIdentity, sign_in, approve_technician, reject_technician,
}
use field_service_management.Identity.Service.Access.{Admits, sign_in-Admits}
use field_service_management.Identity.Service.Sticky.{with_claims, sign_in-Sticky}
use field_service_management.Identity.Users.{user_id, list_pending_technicians}
use field_service_management.Base.Rows.{put}
use field_service_management.Identity.Service.Decisions.{
  Decides, decided_as, approve_technician-Decides,
}

abbrev declined : User
declined = record {
  id = 1;
  google_sub = 49 ∷ [];
  email = 97 ∷ [];
  name = 65 ∷ [];
  role = Role.technician;
  role_status = RoleStatus.rejected;
  role_decided_at = some 3;
  role_decided_by = some 9;
  display_name = none;
  address = none;
  phone = none;
  assist_disclaimer_accepted_at = none;
}

abbrev applicant : User
applicant = record declined {
  id = 2;
  google_sub = 50 ∷ [];
  role_status = RoleStatus.pending;
  role_decided_at = none;
  role_decided_by = none;
}

abbrev users : List User
users = declined ∷ applicant ∷ []

abbrev lower : Text → Text
lower s = s

abbrev claims : VerifiedIdentity
claims = record { google_sub = 49 ∷ []; email = 98 ∷ []; name = 66 ∷ [] }

sign_in-Admits_example :
    Admits lower
      ((98 ∷ []) ∷ [])
      claims
      SignInHost.backoffice
      (λ rows. rows)
      users
      5
      (sign_in lower ((98 ∷ []) ∷ []) 5 (some claims) SignInHost.backoffice (λ rows. rows) users)
sign_in-Admits_example =
    sign_in-Admits lower ((98 ∷ []) ∷ []) claims SignInHost.backoffice (λ rows. rows) users 5

sign_in-Sticky_example :
    (sign_in lower [] 5 (some claims) SignInHost.technician (λ rows. rows) users ≡ (
      returned (record {
        user = with_claims claims declined;
        requested_pending = false;
        withdrew_pending = false;
      }),
      put user_id (with_claims claims declined) users,
    ))
    × (map user_id (list_pending_technicians (put user_id (with_claims claims declined) users))
        ≡ map user_id (list_pending_technicians users))
sign_in-Sticky_example =
    sign_in-Sticky lower [] claims (λ rows. rows) users 5 declined refl refl refl

approve_technician-Decides_example :
    Decides (decided_as RoleStatus.approved 9 4) 2 users (approve_technician 2 9 4 users)
    × Decides (decided_as RoleStatus.rejected 9 4) 2 users (reject_technician 2 9 4 users)
approve_technician-Decides_example = approve_technician-Decides 2 9 4 users
