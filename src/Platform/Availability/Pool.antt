-- ===== src/Platform/Availability/Pool.antt =====
-- The pooled availability of backend/src/fsm/platform/api/scheduling_routes.py.
use mathlib.Core.List.{Perm}
use mathlib.Core.List.Perm
use field_service_management.Base.{
  ℕ, true, Option, none, some, List, [], ◌∷◌, ◌++◌, All, is_some, length, ◌≡◌, ◌⊎◌, map, ◌<◌, ◌≤◌,
}
use field_service_management.Base.Rows.{find}
use field_service_management.Identity.User.{User, Role, RoleStatus, preferred_name}
use field_service_management.Identity.Users.{user_id}
use field_service_management.Scheduling.Outcome.{Result, ok, err}
use field_service_management.Scheduling.TimeRange.{TimeRange}
use field_service_management.Platform.Availability.{PooledSlot}

-- One slot stands before another in the pool: by start, then by technician.
abbrev pub Precedes : PooledSlot → PooledSlot → Type 0
Precedes p q = (p.start < q.start) ⊎ ((p.start ≡ q.start) × (p.technician_id ≤ q.technician_id))

-- Each slot precedes all that follow it.
abbrev pub InOrder : List PooledSlot → Type 0
InOrder [] = Unit
InOrder (p ∷ rest) = All (Precedes p) rest × InOrder rest

-- The slots of a technician whose slots can be computed, under the name that is shown.
abbrev pub shown_of : User → Result (List TimeRange) → List PooledSlot
shown_of user (ok slots) =
    map
      (λ slot. record {
        technician_id = user.id;
        technician_name = preferred_name user;
        start = slot.start;
        end = slot.end;
      })
      slots
shown_of user (err e) = []

-- What the pool shows of the candidates: some of them in order, each preceding each left out, and
-- any is left out only by the limit.
abbrev pub Pools : Option ℕ → List PooledSlot → List PooledSlot → Type 0
Pools limit all slots =
    (rest : List PooledSlot) × Perm all (slots ++ rest)
    × InOrder slots
    × All (λ p. All (Precedes p) rest) slots
    × ((rest ≡ []) ⊎ (limit ≡ some (length slots)))

module _ (slots_of : ℕ → Result (List TimeRange)) (users : List User) where
  -- A user offers slots who has the technician role, approved.
  abbrev pub offer_of : ℕ → List PooledSlot
  offer_of technician_id = elim (find user_id technician_id users) [
    | none ↦ []
    | some user ↦ elim user.role [
      | Role.technician ↦ elim user.role_status [
        | RoleStatus.approved ↦ shown_of user (slots_of user.id)
        | RoleStatus.pending ↦ []
        | RoleStatus.rejected ↦ []
      ]
      | Role.customer ↦ []
      | Role.admin ↦ []
    ]
  ]

  -- What the approved of the connected technicians offer, where their slots can be computed.
  abbrev pub candidates : List ℕ → List PooledSlot
  candidates [] = []
  candidates (technician_id ∷ rest) = offer_of technician_id ++ candidates rest

  abbrev pub AreUsers : List ℕ → Type 0
  AreUsers connected =
      All (λ technician_id. is_some (find user_id technician_id users) ≡ true) connected
