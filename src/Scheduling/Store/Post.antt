-- ===== src/Scheduling/Store/Post.antt =====
-- Postconditions of a call over the tables of backend/src/fsm/scheduling: to show `Q` of what a
-- chain of steps returns, show it of the rest of the chain for each way the first step can end.
use mathlib.Core.Path.{subst}
use field_service_management.Base.{◌≡◌, refl, sym, Bool, true, false, if◌then◌else◌}
use field_service_management.Scheduling.Outcome.{Result, ok, err, Error}
use field_service_management.Scheduling.Store.{Store, Action, attempt, reads, ◌>>=◌}

module _ {ℓ} {B : Type 0} (Q : Result B × Store → Type ℓ) where
  -- A branch of the chain.
  pub if_post :
      (b : Bool) (x y : Action B) (s : Store)
      → (b ≡ true → Q (x s))
      → (b ≡ false → Q (y s))
      → Q ((if b then x else y) s)
  if_post true x y s yea nay = yea refl
  if_post false x y s yea nay = nay refl

module _ {ℓ} {A B : Type 0} (Q : Result B × Store → Type ℓ) where
  result_post :
      (out : Result A × Store) (f : A → Action B)
      → ((a : A) (t : Store) → out ≡ (ok a, t) → Q (f a t))
      → ((e : Error) (t : Store) → out ≡ (err e, t) → Q (err e, t))
      → Q (((λ (s : Store). out) >>= f) out.1)
  result_post (ok a, t) f good bad = good a t refl
  result_post (err e, t) f good bad = bad e t refl

  pub bind_post :
      (m : Action A) (f : A → Action B) (s : Store)
      → ((a : A) (t : Store) → m s ≡ (ok a, t) → Q (f a t))
      → ((e : Error) (t : Store) → m s ≡ (err e, t) → Q (err e, t))
      → Q ((m >>= f) s)
  bind_post m f s good bad = result_post (m s) f good bad

  pub attempt_post :
      (r : Result A) (f : A → Action B) (s : Store)
      → ((a : A) → r ≡ ok a → Q (f a s))
      → ((e : Error) → r ≡ err e → Q (err e, s))
      → Q ((attempt r >>= f) s)
  attempt_post (ok a) f s good bad = good a refl
  attempt_post (err e) f s good bad = bad e refl

  pub reads_post :
      (r : Store → Result A) (f : A → Action B) (s : Store)
      → ((a : A) → r s ≡ ok a → Q (f a s))
      → ((e : Error) → r s ≡ err e → Q (err e, s))
      → Q ((reads r >>= f) s)
  reads_post r f s good bad = attempt_post (r s) f s good bad

  -- The rest of a chain on what its first step gave.
  abbrev pub next : (A → Action B) → Result A × Store → Result B × Store
  next f out = elim out.0 [ ok a ↦ f a out.1 | err e ↦ (err e, out.1) ]

  -- A step that returns, with its value and the state it leaves.
  pub returns_post :
      (m : Action A) (f : A → Action B) (s : Store) {a : A} {t : Store}
      → m s ≡ (ok a, t)
      → Q (f a t)
      → Q ((m >>= f) s)
  returns_post m f s e q = subst (λ out. Q (next f out)) (sym e) q

  -- A step that raises.
  pub raises_post :
      (m : Action A) (f : A → Action B) (s : Store) {e : Error} {t : Store}
      → m s ≡ (err e, t)
      → Q (err e, t)
      → Q ((m >>= f) s)
  raises_post m f s e q = subst (λ out. Q (next f out)) (sym e) q

  -- A computation that returns.
  pub given_post :
      (r : Result A) (f : A → Action B) (s : Store) {a : A}
      → r ≡ ok a
      → Q (f a s)
      → Q ((attempt r >>= f) s)
  given_post r f s e q = subst (λ x. Q (next f (x, s))) (sym e) q
