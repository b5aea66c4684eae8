-- ===== src/Scheduling/RateLimit/Window.antt =====
-- The pause of backend/src/fsm/scheduling/domain/booking_rate_limit.py ends when it says.
use field_service_management.Base.{
  ℕ, ◌+◌, ◌-◌, ◌≤◌, ◌<◌, ◌≡◌, refl, sym, ◌∙◌, Bool, true, false, Option, none, some, List, [], ◌∷◌,
  arith, leb, ltb, length, filter, All, All-mono, Bool-cases, ◌⊎◌, inl, inr, if◌then◌else◌,
}
use field_service_management.Scheduling.Outcome.{Result, ok, ◌>>=◌}
use field_service_management.Scheduling.RateLimit.{
  CancellationRateLimit, minus, recent, latest, max_of, blocked_until,
}

-- The cancellations that count at `now`.
abbrev pub counted : ℕ → ℕ → List ℕ → List ℕ
counted now window = filter (leb (now - window))

recent-eq :
    (cancellations : List ℕ) (now window : ℕ)
    → window ≤ now
    → recent cancellations now window ≡ ok (counted now window cancellations)
unfolding recent minus
recent-eq [] now window h = refl
recent-eq (t ∷ ts) now window h = rw (within now window h, recent-eq ts now window h)
  where
    within : (a b : ℕ) → b ≤ a → ltb a b ≡ false
    within a b le = ground arith

latest-le : (b m : ℕ) (xs : List ℕ) → m ≤ b → All (λ x. x ≤ b) xs → latest m xs ≤ b
unfolding latest
latest-le b m [] h all = h
latest-le b m (x ∷ xs) h all = latest-le b (if ltb m x then x else m) xs (ground arith) all.1

le-latest : (m : ℕ) (xs : List ℕ) → m ≤ latest m xs
unfolding latest
le-latest m [] = omega arith
le-latest m (x ∷ xs) = ground (arith, le-latest (if ltb m x then x else m) xs)

All-le-latest : (m : ℕ) (xs : List ℕ) → All (λ x. x ≤ latest m xs) xs
unfolding latest
All-le-latest m [] = tt
All-le-latest m (x ∷ xs) = (
  ground (arith, le-latest (if ltb m x then x else m) xs),
  All-le-latest (if ltb m x then x else m) xs,
)

-- A later moment counts fewer of the same cancellations.
counted-All {κ} :
    (P : ℕ → Type κ) (now later window : ℕ) (cs : List ℕ)
    → now ≤ later
    → All P (counted now window cs)
    → All P (counted later window cs)
counted-All P now later window [] le all = tt
counted-All P now later window (c ∷ cs) le all = elim (Bool-cases (leb (now - window) c)) [
  | inl old ↦
      let both : P c × All P (counted now window cs) = rw old at all in
      if_All (leb (later - window) c) c (counted later window cs) both.0
        (counted-All P now later window cs le both.1)
  | inr out ↦
      let rest : All P (counted now window cs) = rw out at all in
      let gone : leb (later - window) c ≡ false = ground arith in
      rw gone (counted-All P now later window cs le rest)
]
  where
    if_All : (b : Bool) (x : ℕ) (xs : List ℕ) → P x → All P xs → All P (if b then x ∷ xs else xs)
    if_All true x xs px all' = (px, all')
    if_All false x xs px all' = all'

-- What the rule makes of the cancellations that count.
abbrev verdict : CancellationRateLimit → List ℕ → ℕ → Result (Option ℕ)
verdict limit times now =
    if ltb (length times) limit.max_cancellations
    then ok none
    else (max_of times >>= λ last.
        ok (if ltb now (last + limit.cooloff) then some (last + limit.cooloff) else none))

blocked_until-eq :
    (limit : CancellationRateLimit) (cs : List ℕ) (now : ℕ)
    → limit.window ≤ now
    → blocked_until limit cs now ≡ verdict limit (counted now limit.window cs) now
unfolding blocked_until
blocked_until-eq limit cs now h = rw (recent-eq cs now limit.window h)

verdict-some :
    (limit : CancellationRateLimit) (times : List ℕ) (now t : ℕ)
    → verdict limit times now ≡ ok (some t)
    → (now < t) × All (λ x. x + limit.cooloff ≤ t) times
unfolding max_of
verdict-some limit [] now t h = ground arith
verdict-some limit (x ∷ xs) now t h =
    let m : ℕ = latest x xs in
    let bound : t ≡ m + limit.cooloff = ground arith in
    let future : now < t = ground arith in
    (
      future,
      All-mono {P = λ (y : ℕ). y ≤ m} {Q = λ (y : ℕ). y + limit.cooloff ≤ t} (x ∷ xs)
          (λ y le. omega arith) (le-latest x xs, All-le-latest x xs),
    )

verdict-none :
    (limit : CancellationRateLimit) (times : List ℕ) (now : ℕ)
    → 0 < limit.max_cancellations
    → All (λ x. x + limit.cooloff ≤ now) times
    → verdict limit times now ≡ ok none
unfolding max_of
verdict-none limit [] now pos all = ground arith
verdict-none limit (x ∷ xs) now pos all =
    let last : latest x xs + limit.cooloff ≤ now = omega (
      arith,
      latest-le (now - limit.cooloff) x xs (omega arith) (
          All-mono {P = λ (y : ℕ). y + limit.cooloff ≤ now} {Q = λ (y : ℕ). y ≤ now - limit.cooloff}
            xs (λ y le. omega arith) all.1),
    ) in
    ground arith

-- With a limit of at least one cancellation and a window that does not reach before the first
-- representable moment: when the rule pauses booking until `t`, that is later than `now`, and with
-- the same cancellations the rule lets the customer book at `t`.
pub blocked_until_reopens :
    (limit : CancellationRateLimit) (cs : List ℕ) (now t : ℕ)
    → 0 < limit.max_cancellations
    → limit.window ≤ now
    → blocked_until limit cs now ≡ ok (some t)
    → (now < t) × (blocked_until limit cs t ≡ ok none)
blocked_until_reopens limit cs now t pos h e =
    let (future, done) =
      verdict-some limit (counted now limit.window cs) now t
        (sym (blocked_until-eq limit cs now h) ∙ e) in
    (
      future,
      blocked_until-eq limit cs t (omega arith)
          ∙ verdict-none limit (counted t limit.window cs) t pos
              (counted-All (λ x. x + limit.cooloff ≤ t) now t limit.window cs (omega arith) done),
    )

verdict-passes :
    (limit : CancellationRateLimit) (times : List ℕ) (now : ℕ)
    → verdict limit times now ≡ ok none
    → (length times < limit.max_cancellations) ⊎ All (λ x. x + limit.cooloff ≤ now) times
unfolding max_of
verdict-passes limit [] now h = ground arith
verdict-passes limit (x ∷ xs) now h =
    elim (Bool-cases (ltb (length (x ∷ xs)) limit.max_cancellations)) [
      | inl few ↦ inl (ground arith)
      | inr many ↦
          let m : ℕ = latest x xs in
          let past : m + limit.cooloff ≤ now = ground arith in
          inr (
            All-mono {P = λ (y : ℕ). y ≤ m} {Q = λ (y : ℕ). y + limit.cooloff ≤ now} (x ∷ xs)
              (λ y le. omega arith) (le-latest x xs, All-le-latest x xs))
    ]

-- What the rule lets book at `now`.
pub blocked_until-passes :
    (limit : CancellationRateLimit) (cs : List ℕ) (now : ℕ)
    → limit.window ≤ now
    → blocked_until limit cs now ≡ ok none
    → (length (counted now limit.window cs) < limit.max_cancellations)
      ⊎ All (λ x. x + limit.cooloff ≤ now) (counted now limit.window cs)
blocked_until-passes limit cs now h e =
    verdict-passes limit (counted now limit.window cs) now
      (sym (blocked_until-eq limit cs now h) ∙ e)
