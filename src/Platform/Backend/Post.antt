-- ===== src/Platform/Backend/Post.antt =====
-- Postconditions of a request of backend/src/fsm/platform/api: to show `Q` of how a chain of steps
-- ends, show it of the rest of the chain for each way the first step can end.
use mathlib.Core.Path.{subst}
use field_service_management.Base.{ℕ, Option, none, some, Bool, true, false, ◌≡◌, refl, sym}
use field_service_management.Scheduling.Outcome.{Result, ok, err, Error}
use field_service_management.Scheduling.Store.{Action}
use field_service_management.Platform.Backend.{
  Backend, Response, answers, refuses, crashes, Handler, ◌>>=◌, of_result, domain_error_status,
  handle_scheduling_error, call, attempt, require, in_uow,
}

module _ {A : Type 0} where
  -- A request that answers has `P` of what it leaves; one that does not leaves everything.
  abbrev pub Authorizes : (Backend → Type 0) → Backend → Response A × Backend → Type 0
  Authorizes P b (answers a, b') = P b'
  Authorizes P b (refuses status, b') = b' ≡ b
  Authorizes P b (crashes e, b') = b' ≡ b

  -- What holds of the answer and of what is left, if there is an answer.
  abbrev pub Yields : (A → Backend → Type 0) → Response A × Backend → Type 0
  Yields R (answers a, b') = R a b'
  Yields R (refuses status, b') = Unit
  Yields R (crashes e, b') = Unit

  in_uow_out :
      (P : Backend → Type 0) (b : Backend) (out : Response A × Backend)
      → Yields (λ a b'. P b') out
      → Authorizes P b (in_uow (λ _. out) b)
  in_uow_out P b (answers a, b') y = y
  in_uow_out P b (refuses status, b') y = refl
  in_uow_out P b (crashes e, b') y = refl

  pub in_uow-Authorizes :
      (P : Backend → Type 0) (h : Handler A) (b : Backend)
      → Yields (λ a b'. P b') (h b)
      → Authorizes P b (in_uow h b)
  in_uow-Authorizes P h b y = in_uow_out P b (h b) y

module _ {A C : Type 0} where
  bind-Yields_out :
      (R : C → Backend → Type 0) (out : Response A × Backend) (k : A → Handler C) (b : Backend)
      → Yields (λ a b'. Yields R (k a b')) out
      → Yields R (((λ (_ : Backend). out) >>= k) b)
  bind-Yields_out R (answers a, b') k b y = y
  bind-Yields_out R (refuses status, b') k b y = tt
  bind-Yields_out R (crashes e, b') k b y = tt

  pub bind-Yields :
      (R : C → Backend → Type 0) (h : Handler A) (k : A → Handler C) (b : Backend)
      → Yields (λ a b'. Yields R (k a b')) (h b)
      → Yields R ((h >>= k) b)
  bind-Yields R h k b y = bind-Yields_out R (h b) k b y

  -- A step that reads.
  reads_out :
      (P : Backend → Type 0) (r : Response A) (k : A → Handler C) (b : Backend)
      → ((a : A) → r ≡ answers a → Authorizes P b (k a b))
      → Authorizes P b (((λ (b' : Backend). (r, b')) >>= k) b)
  reads_out P (answers a) k b y = y a refl
  reads_out P (refuses status) k b y = refl
  reads_out P (crashes e) k b y = refl

  pub reads-Authorizes :
      (P : Backend → Type 0) (r : Backend → Response A) (k : A → Handler C) (b : Backend)
      → ((a : A) → r b ≡ answers a → Authorizes P b (k a b))
      → Authorizes P b (((λ b'. (r b', b')) >>= k) b)
  reads-Authorizes P r k b y = reads_out P (r b) k b y

  -- A unit of work and what follows its commit.
  uow_out :
      (P : Backend → Type 0) (out : Response A × Backend) (k : A → Handler C) (b : Backend)
      → Yields (λ a b'. Authorizes P b (k a b')) out
      → Authorizes P b ((in_uow (λ _. out) >>= k) b)
  uow_out P (answers a, b') k b y = y
  uow_out P (refuses status, b') k b y = refl
  uow_out P (crashes e, b') k b y = refl

  pub uow-Authorizes :
      (P : Backend → Type 0) (h : Handler A) (k : A → Handler C) (b : Backend)
      → Yields (λ a b'. Authorizes P b (k a b')) (h b)
      → Authorizes P b ((in_uow h >>= k) b)
  uow-Authorizes P h k b y = uow_out P (h b) k b y

module _ {C : Type 0} where
  pub require-Authorizes :
      (P : Backend → Type 0) (condition : Bool) (status : ℕ) (k : Handler C) (b : Backend)
      → (condition ≡ true → Authorizes P b (k b))
      → Authorizes P b ((require condition status >>= λ _. k) b)
  require-Authorizes P true status k b y = y refl
  require-Authorizes P false status k b y = refl

  pub require-Yields :
      (R : C → Backend → Type 0) (condition : Bool) (status : ℕ) (k : Handler C) (b : Backend)
      → (condition ≡ true → Yields R (k b))
      → Yields R ((require condition status >>= λ _. k) b)
  require-Yields R true status k b y = y refl
  require-Yields R false status k b y = tt

module _ {A : Type 0} where
  status-Yields :
      (R : A → Backend → Type 0) (status : Option ℕ) (e : Error) (b : Backend)
      → Yields R (elim status as (λ x. Response A) [ none ↦ crashes e | some n ↦ refuses n ], b)
  status-Yields R none e b = tt
  status-Yields R (some n) e b = tt

  pub result-Yields :
      (R : A → Backend → Type 0) (r : Result A) (b : Backend)
      → ((a : A) → r ≡ ok a → R a b)
      → Yields R (of_result r, b)
  unfolding handle_scheduling_error
  result-Yields R (ok a) b y = y a refl
  result-Yields R (err e) b y = status-Yields R (domain_error_status e) e b

  pub call-Yields :
      (R : A → Backend → Type 0) (m : Action A) (b : Backend)
      → ((a : A) → (m b.store).0 ≡ ok a → R a (record b { store = (m b.store).1 }))
      → Yields R (call m b)
  call-Yields R m b y = result-Yields R (m b.store).0 (record b { store = (m b.store).1 }) y

module _ {A C : Type 0} where
  keeps_out :
      (P : Backend → Type 0) (out : Response A × Backend) (k : A → Handler C) (b : Backend)
      → out.1 ≡ b
      → ((a : A) → out.0 ≡ answers a → Authorizes P b (k a b))
      → Authorizes P b (((λ (_ : Backend). out) >>= k) b)
  keeps_out P (answers a, b') k b e y =
      subst (λ (x : Backend). Authorizes P b (k a x)) (sym e) (y a refl)
  keeps_out P (refuses status, b') k b e y = e
  keeps_out P (crashes error, b') k b e y = e

  -- A step that leaves everything.
  pub keeps-Authorizes :
      (P : Backend → Type 0) (h : Handler A) (k : A → Handler C) (b : Backend)
      → (h b).1 ≡ b
      → ((a : A) → (h b).0 ≡ answers a → Authorizes P b (k a b))
      → Authorizes P b ((h >>= k) b)
  keeps-Authorizes P h k b e y = keeps_out P (h b) k b e y

module _ {A : Type 0} where
  pub Yields-mono :
      (R S : A → Backend → Type 0) (out : Response A × Backend)
      → ((a : A) (b' : Backend) → R a b' → S a b')
      → Yields R out
      → Yields S out
  Yields-mono R S (answers a, b') f y = f a b' y
  Yields-mono R S (refuses status, b') f y = tt
  Yields-mono R S (crashes e, b') f y = tt

  -- A use case that only reads.
  pub read_call-Yields :
      (R : A → Backend → Type 0) (m : Action A) (b : Backend)
      → (m b.store).1 ≡ b.store
      → ((a : A) → (m b.store).0 ≡ ok a → R a b)
      → Yields R (call m b)
  read_call-Yields R m b keeps y =
      call-Yields R m b (λ a e. subst (λ s. R a (record b { store = s })) (sym keeps) (y a e))

module _ {A C : Type 0} where
  status_out :
      (P : Backend → Type 0) (status : Option ℕ) (e : Error) (k : A → Handler C) (b : Backend)
      → Authorizes P b (
          ((λ (b' : Backend).
                (elim status as (λ x. Response A) [ none ↦ crashes e | some n ↦ refuses n ], b'))
              >>= k)
            b)
  status_out P none e k b = refl
  status_out P (some n) e k b = refl

  -- A computation on values that may raise.
  pub attempt-Authorizes :
      (P : Backend → Type 0) (r : Result A) (k : A → Handler C) (b : Backend)
      → ((a : A) → r ≡ ok a → Authorizes P b (k a b))
      → Authorizes P b ((attempt r >>= k) b)
  unfolding handle_scheduling_error
  attempt-Authorizes P (ok a) k b y = y a refl
  attempt-Authorizes P (err e) k b y = status_out P (domain_error_status e) e k b

pub Authorizes-mono :
    {A : Type 0} (P Q : Backend → Type 0) (b : Backend) (out : Response A × Backend)
    → ((b' : Backend) → P b' → Q b')
    → Authorizes P b out
    → Authorizes Q b out
Authorizes-mono P Q b (answers a, b') f y = f b' y
Authorizes-mono P Q b (refuses status, b') f y = y
Authorizes-mono P Q b (crashes e, b') f y = y
