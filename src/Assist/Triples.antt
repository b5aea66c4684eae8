-- ===== src/Assist/Triples.antt =====
-- What a call over the assist tables leaves, after a return and after a raise.
use field_service_management.Base.{Bool, true, false, if◌then◌else◌}
use field_service_management.Assist.Store.{Desk, Attempt, did, failed, Action, ◌>>=◌}

module _ {A : Type 0} (Post : A → Desk → Type 0) (Err : Desk → Type 0) where
  abbrev pub Ends : Attempt A × Desk → Type 0
  Ends (did a, d) = Post a d
  Ends (failed e, d) = Err d

-- From a desk with `Pre`, the call leaves `Post` if it returns and `Err` if it raises.
abbrev pub Triple :
    {A : Type 0} → (Desk → Type 0) → (A → Desk → Type 0) → (Desk → Type 0) → Action A → Type 0
Triple Pre Post Err m = (d : Desk) → Pre d → Ends Post Err (m d)

module _ {A B : Type 0} (Post : B → Desk → Type 0) (Err : Desk → Type 0) where
  bind_out :
      (Mid : A → Desk → Type 0) (out : Attempt A × Desk) (f : A → Action B)
      → Ends Mid Err out
      → ((a : A) → Triple (Mid a) Post Err (f a))
      → Ends Post Err (elim out.0 [ did a ↦ f a out.1 | failed e ↦ (failed e, out.1) ])
  bind_out Mid (did a, d) f h k = k a d h
  bind_out Mid (failed e, d) f h k = h

  pub Triple-bind :
      (Pre : Desk → Type 0) (Mid : A → Desk → Type 0) (m : Action A) (f : A → Action B)
      → Triple Pre Mid Err m
      → ((a : A) → Triple (Mid a) Post Err (f a))
      → Triple Pre Post Err (m >>= f)
  Triple-bind Pre Mid m f hm hf d p = bind_out Mid (m d) f (hm d p) hf

-- A call that keeps a property, whether it returns or raises.
abbrev pub Keeps : {A : Type 0} → (Desk → Type 0) → Action A → Type 0
Keeps P m = (d : Desk) → P d → P (m d).1

module _ (P : Desk → Type 0) where
  pub kept_out :
      {A B : Type 0} (out : Attempt A × Desk) (f : A → Action B)
      → P out.1
      → ((a : A) → Keeps P (f a))
      → let next : Attempt B × Desk = elim out.0 [
        | did a ↦ f a out.1
        | failed e ↦ (failed e, out.1)
      ] in
        P next.1
  kept_out (did a, d) f h k = k a d h
  kept_out (failed e, d) f h k = h

  pub Keeps-bind :
      {A B : Type 0} (m : Action A) (f : A → Action B)
      → Keeps P m
      → ((a : A) → Keeps P (f a))
      → Keeps P (m >>= f)
  Keeps-bind m f hm hf d p = kept_out (m d) f (hm d p) hf

  pub Keeps-if :
      {A : Type 0} (b : Bool) (m n : Action A)
      → Keeps P m
      → Keeps P n
      → Keeps P (if b then m else n)
  Keeps-if true m n hm hn = hm
  Keeps-if false m n hm hn = hn

  pub Ends-out : {A : Type 0} (out : Attempt A × Desk) → Ends (λ (a : A). P) P out → P out.1
  Ends-out (did a, d) h = h
  Ends-out (failed e, d) h = h

  pub Ends-in : {A : Type 0} (out : Attempt A × Desk) → P out.1 → Ends (λ (a : A). P) P out
  Ends-in (did a, d) h = h
  Ends-in (failed e, d) h = h
