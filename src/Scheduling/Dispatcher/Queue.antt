-- ===== src/Scheduling/Dispatcher/Queue.antt =====
-- The outbox that backend/src/fsm/scheduling/application/calendar_projection_dispatcher.py works
-- off: ids that differ, and attempts left for every pending row.
use mathlib.Core.Path.{subst}
use field_service_management.Base.{
  All-append, sym, ◌++◌, ◌≤◌, ℕ, ◌+◌, ◌-◌, ◌<◌, ◌≡◌, refl, true, false, none, some, List, [], ◌∷◌,
  arith, All, Bool-cases, inl, inr, ◌==◌, if◌then◌else◌, ==_self,
}
use field_service_management.Base.Rows.{find, put, All-put}
use field_service_management.Scheduling.Outcome.{Error}
use field_service_management.Scheduling.Store.{Store, OutboxRow}
use field_service_management.Scheduling.Outbox.{
  max_attempts, entry_key, is_pending, first_pending, processed_row, failed_row,
}

abbrev pub IsDistinct : List OutboxRow → Type 0
IsDistinct [] = Unit
IsDistinct (r ∷ rs) = All (λ q. (r.id == q.id) ≡ false) rs × IsDistinct rs

-- A pending row has attempts left.
abbrev pub HasAttempts : OutboxRow → Type 0
HasAttempts r = is_pending r.status ≡ true → r.attempts < max_attempts

-- Ids that differ and were drawn.
pub record IsQueue (s : Store) : Type 0 where
  pub distinct : IsDistinct s.outbox
  pub bounded : All HasAttempts s.outbox
  pub drawn : All (λ r. r.id < s.next_uuid) s.outbox

pub first_pending-find :
    (rows : List OutboxRow) (r : OutboxRow)
    → IsDistinct rows
    → first_pending rows ≡ some r
    → find entry_key r.id rows ≡ some r
first_pending-find [] r distinct h = absurd (ground arith)
first_pending-find (q ∷ qs) r distinct h = elim (Bool-cases (is_pending q.status)) [
  | inl here ↦
      let same : some q ≡ some r = rw here at h in let e : q ≡ r = cc in rw (e, ==_self r.id) refl
  | inr passed ↦
      let there : first_pending qs ≡ some r = rw passed at h in
      rw (other qs distinct.0 there) (first_pending-find qs r distinct.1 there)
]
  where
    other :
        (xs : List OutboxRow)
        → All (λ x. (q.id == x.id) ≡ false) xs
        → first_pending xs ≡ some r
        → (q.id == r.id) ≡ false
    other [] apart g = absurd (ground arith)
    other (x ∷ xs) apart g = elim (Bool-cases (is_pending x.status)) [
      | inl hit ↦ let same : some x ≡ some r = rw hit at g in let e : x ≡ r = cc in rw (← e) apart.0
      | inr miss ↦ other xs apart.1 (rw miss at g)
    ]

pub first_pending-is_pending :
    (rows : List OutboxRow) (r : OutboxRow)
    → first_pending rows ≡ some r
    → is_pending r.status ≡ true
first_pending-is_pending [] r h = absurd (ground arith)
first_pending-is_pending (q ∷ qs) r h = elim (Bool-cases (is_pending q.status)) [
  | inl here ↦ let same : some q ≡ some r = rw here at h in let e : q ≡ r = cc in rw (← e) here
  | inr passed ↦ first_pending-is_pending qs r (rw passed at h)
]

put-apart :
    (k : ℕ) (a : OutboxRow) (rows : List OutboxRow)
    → All (λ q. (k == q.id) ≡ false) rows
    → All (λ q. (k == q.id) ≡ false) (put entry_key a rows)
put-apart k a [] h = tt
put-apart k a (q ∷ qs) h = ground (arith, put-apart k a qs h.1)

pub put-IsDistinct :
    (a : OutboxRow) (rows : List OutboxRow) → IsDistinct rows → IsDistinct (put entry_key a rows)
put-IsDistinct a [] h = tt
put-IsDistinct a (q ∷ qs) h = elim (Bool-cases (q.id == a.id)) [
  | inl hit ↦ (let e : q.id ≡ a.id = ground arith in rw hit (rw (← e) h.0, h.1))
  | inr miss ↦ rw miss (put-apart q.id a qs h.0, put-IsDistinct a qs h.1)
]

drawn_mono :
    (m n : ℕ) (rows : List OutboxRow) → m ≤ n → All (λ r. r.id < m) rows → All (λ r. r.id < n) rows
drawn_mono m n [] le h = tt
drawn_mono m n (r ∷ rs) le h = (omega arith, drawn_mono m n rs le h.1)

pub put-IsQueue :
    (a : OutboxRow) (s t : Store)
    → HasAttempts a
    → a.id < s.next_uuid
    → t.outbox ≡ put entry_key a s.outbox
    → s.next_uuid ≤ t.next_uuid
    → IsQueue s
    → IsQueue t
put-IsQueue a s t h old e le queue = record {
  distinct = subst IsDistinct (sym e) (put-IsDistinct a s.outbox queue.distinct);
  bounded =
      subst (All HasAttempts) (sym e) (All-put entry_key HasAttempts a s.outbox h queue.bounded);
  drawn = subst (All (λ r. r.id < t.next_uuid)) (sym e) (
      All-put entry_key (λ r. r.id < t.next_uuid) a s.outbox (omega arith)
        (drawn_mono s.next_uuid t.next_uuid s.outbox le queue.drawn));
}

append-IsDistinct :
    (a : OutboxRow) (n : ℕ) (rows : List OutboxRow)
    → n ≤ a.id
    → All (λ r. r.id < n) rows
    → IsDistinct rows
    → IsDistinct (rows ++ a ∷ [])
append-IsDistinct a n [] le drawn h = (tt, tt)
append-IsDistinct a n (r ∷ rs) le drawn h = (
  All-append (λ q. (r.id == q.id) ≡ false) rs (a ∷ []) h.0 (ground (arith, drawn.0), tt),
  append-IsDistinct a n rs le drawn.1 h.1,
)

-- An entry with a new id and all its attempts goes to the end.
pub append-IsQueue :
    (a : OutboxRow) (s t : Store)
    → HasAttempts a
    → s.next_uuid ≤ a.id
    → a.id < t.next_uuid
    → t.outbox ≡ s.outbox ++ a ∷ []
    → s.next_uuid ≤ t.next_uuid
    → IsQueue s
    → IsQueue t
append-IsQueue a s t h new drawn e le queue = record {
  distinct =
      subst IsDistinct (sym e)
        (append-IsDistinct a s.next_uuid s.outbox new queue.drawn queue.distinct);
  bounded =
      subst (All HasAttempts) (sym e)
        (All-append HasAttempts s.outbox (a ∷ []) queue.bounded (h, tt));
  drawn = subst (All (λ r. r.id < t.next_uuid)) (sym e) (
      All-append (λ r. r.id < t.next_uuid) s.outbox (a ∷ [])
        (drawn_mono s.next_uuid t.next_uuid s.outbox le queue.drawn) (drawn, tt));
}

-- Tables with the same outbox.
pub same-IsQueue :
    (s t : Store) → t.outbox ≡ s.outbox → s.next_uuid ≤ t.next_uuid → IsQueue s → IsQueue t
same-IsQueue s t e le queue = record {
  distinct = subst IsDistinct (sym e) queue.distinct;
  bounded = subst (All HasAttempts) (sym e) queue.bounded;
  drawn =
      subst (All (λ r. r.id < t.next_uuid)) (sym e)
        (drawn_mono s.next_uuid t.next_uuid s.outbox le queue.drawn);
}

-- The attempts that a row has left, and those of the queue.
abbrev pub attempts_left : OutboxRow → ℕ
attempts_left r = if is_pending r.status then max_attempts - r.attempts else 0

abbrev pub budget : List OutboxRow → ℕ
budget [] = 0
budget (r ∷ rs) = attempts_left r + budget rs

pub budget-put :
    (a r : OutboxRow) (rows : List OutboxRow)
    → find entry_key a.id rows ≡ some r
    → budget (put entry_key a rows) + attempts_left r ≡ budget rows + attempts_left a
budget-put a r [] h = absurd (ground arith)
budget-put a r (q ∷ qs) h = elim (Bool-cases (q.id == a.id)) [
  | inl hit ↦
      let same : some q ≡ some r = rw hit at h in let e : q ≡ r = cc in rw (hit, e) (omega arith)
  | inr miss ↦
      let rest : budget (put entry_key a qs) + attempts_left r ≡ budget qs + attempts_left a =
        budget-put a r qs (rw miss at h) in
      rw miss (omega (arith, rest))
]

pub first_pending_of_spent :
    (rows : List OutboxRow) → All HasAttempts rows → budget rows ≡ 0 → first_pending rows ≡ none
first_pending_of_spent [] h e = refl
first_pending_of_spent (r ∷ rs) h e = elim (Bool-cases (is_pending r.status)) [
  | inl waits ↦
      let left : r.attempts < max_attempts = h.0 waits in
      let none_left : max_attempts - r.attempts + budget rs ≡ 0 = rw waits at e in
      absurd (omega arith)
  | inr over ↦
      let rest : 0 + budget rs ≡ 0 = rw over at e in
      rw over (first_pending_of_spent rs h.1 (omega (arith, rest)))
]

pub processed_row-HasAttempts : (now : ℕ) (r : OutboxRow) → HasAttempts (processed_row now r)
processed_row-HasAttempts now r h = absurd (ground arith)

pub failed_row-HasAttempts : (e : Error) (r : OutboxRow) → HasAttempts (failed_row e r)
failed_row-HasAttempts e r h = ground arith

pub processed_row-spends :
    (now : ℕ) (r : OutboxRow)
    → is_pending r.status ≡ true
    → HasAttempts r
    → attempts_left (processed_row now r) < attempts_left r
processed_row-spends now r waits h =
    let left : r.attempts < max_attempts = h waits in rw waits (omega arith)

pub failed_row-spends :
    (e : Error) (r : OutboxRow)
    → is_pending r.status ≡ true
    → HasAttempts r
    → attempts_left (failed_row e r) < attempts_left r
failed_row-spends e r waits h = let left : r.attempts < max_attempts = h waits in ground arith
