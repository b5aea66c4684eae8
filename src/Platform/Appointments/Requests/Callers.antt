-- ===== src/Platform/Appointments/Requests/Callers.antt =====
-- The guards of backend/src/fsm/platform/api/auth_deps.py, and the reads of a route.
use field_service_management.Base.{ℕ, true, ◌≡◌, refl, Bool-cases, inl, inr, arith}
use field_service_management.Identity.User.{Role}
use field_service_management.Scheduling.Store.{Store}
use field_service_management.Scheduling.Repositories.ServiceCalls
use field_service_management.Scheduling.Repositories.Appointments
use field_service_management.Platform.Backend.{
  Backend, Response, answers, refuses, crashes, Handler, pure, require, ◌>>=◌, ◌>>◌,
}
use field_service_management.Platform.Backend.Post.{Authorizes, keeps-Authorizes}
use field_service_management.Platform.Session.{
  Session, signed_out, malformed, session_of, SessionUser, require_user, require_role,
  resolve_current_user, has_role,
}
use field_service_management.Platform.Appointments.Requests.{done}

require_user-keeps : (session : Session) (b : Backend) → (require_user session b).1 ≡ b
unfolding require_user resolve_current_user
require_user-keeps signed_out b = refl
require_user-keeps malformed b = refl
require_user-keeps (session_of user_id) b = ground arith

-- What the dependency of a route has checked.
abbrev pub IsCaller : Session → Role → SessionUser → Backend → Type 0
IsCaller session role user b =
    ((require_user session b).0 ≡ answers user) × (has_role role user ≡ true)

role_out :
    (role : Role) (out : Response SessionUser × Backend) (b : Backend)
    → out.1 ≡ b
    → let r =
        ((λ (_ : Backend). out) >>= λ user. require (has_role role user) 403 >> pure user) b in
      (r.1 ≡ b)
      × ((user : SessionUser)
          → r.0 ≡ answers user
          → (out.0 ≡ answers user) × (has_role role user ≡ true))
role_out role (refuses status, b') b e = (e, λ user h. ground (arith, h))
role_out role (crashes error, b') b e = (e, λ user h. ground (arith, h))
role_out role (answers user, b') b e = elim (Bool-cases (has_role role user)) [
  | inl has ↦ (ground (arith, has, e), λ user' h. ground (arith, has, h))
  | inr lacks ↦ (ground (arith, lacks, e), λ user' h. ground (arith, lacks, h))
]

module _ {C : Type 0} (P : Backend → Type 0) (session : Session) (b : Backend) where
  pub user-Authorizes :
      (k : SessionUser → Handler C)
      → ((user : SessionUser)
          → (require_user session b).0 ≡ answers user
          → Authorizes P b (k user b))
      → Authorizes P b ((require_user session >>= k) b)
  user-Authorizes k y =
      keeps-Authorizes P (require_user session) k b (require_user-keeps session b) y

  pub role-Authorizes :
      (role : Role) (k : SessionUser → Handler C)
      → ((user : SessionUser) → IsCaller session role user b → Authorizes P b (k user b))
      → Authorizes P b ((require_role role session >>= k) b)
  unfolding require_role
  role-Authorizes role k y =
      let out = role_out role (require_user session b) b (require_user-keeps session b) in
      keeps-Authorizes P (require_role role session) k b out.0 (λ user h. y user (out.1 user h))

pub done-Authorizes :
    {A : Type 0} (P : Backend → Type 0) (b : Backend) (out : Response A × Backend)
    → Authorizes P b out
    → Authorizes P b (done out)
done-Authorizes P b (answers a, b') h = h
done-Authorizes P b (refuses status, b') h = h
done-Authorizes P b (crashes e, b') h = h

pub get-keeps : (id : ℕ) (s : Store) → (Appointments.get id s).1 ≡ s
unfolding Appointments.get
get-keeps id s = ground arith

pub get_call-keeps : (id : ℕ) (s : Store) → (ServiceCalls.get id s).1 ≡ s
unfolding ServiceCalls.get
get_call-keeps id s = ground arith
