-- ===== src/Scheduling/Repositories/Constraint.antt =====
-- What the primary key and the exclusion constraint of `appointment` keep true of the table, for
-- backend/src/fsm/scheduling/adapters/repositories.py.
use field_service_management.Base.{
  ◌≡◌, true, false, none, List, [], ◌∷◌, ◌++◌, arith, All, All-append, ◌==◌, inl, inr, Bool-cases,
}
use field_service_management.Base.Rows.{find, put, All-put}
use field_service_management.Scheduling.Store.{AppointmentRow}
use field_service_management.Scheduling.Repositories.{row_id, clash, excluded}

-- Two rows have different ids and are no double booking of a technician.
abbrev pub Apart : AppointmentRow → AppointmentRow → Type 0
Apart r q = ((r.id == q.id) ≡ false) × (clash r q ≡ false)

-- Every two rows of the table are apart: no technician is booked twice at one time.
abbrev pub IsSeparate : List AppointmentRow → Type 0
IsSeparate [] = Unit
IsSeparate (r ∷ rs) = All (Apart r) rs × IsSeparate rs

pub clash_comm : (r q : AppointmentRow) → clash r q ≡ clash q r
clash_comm r q = ground arith

Apart-comm : (r q : AppointmentRow) → Apart r q → Apart q r
Apart-comm r q h = (ground arith, ground (arith, clash_comm r q))

insert-Apart :
    (r : AppointmentRow) (rows : List AppointmentRow)
    → find row_id r.id rows ≡ none
    → excluded r rows ≡ false
    → All (λ q. Apart q r) rows
unfolding excluded
insert-Apart r [] absent allowed = tt
insert-Apart r (q ∷ qs) absent allowed =
    ((ground arith, ground arith), insert-Apart r qs (ground arith) (ground arith))

IsSeparate-append_last :
    (r : AppointmentRow) (rows : List AppointmentRow)
    → All (λ q. Apart q r) rows
    → IsSeparate rows
    → IsSeparate (rows ++ r ∷ [])
IsSeparate-append_last r [] apart s = (tt, tt)
IsSeparate-append_last r (q ∷ qs) apart s =
    (All-append (Apart q) qs (r ∷ []) s.0 (apart.0, tt), IsSeparate-append_last r qs apart.1 s.1)

-- An insert that both constraints allow keeps the rows apart.
pub append-IsSeparate :
    (r : AppointmentRow) (rows : List AppointmentRow)
    → find row_id r.id rows ≡ none
    → excluded r rows ≡ false
    → IsSeparate rows
    → IsSeparate (rows ++ r ∷ [])
append-IsSeparate r rows absent allowed s =
    IsSeparate-append_last r rows (insert-Apart r rows absent allowed) s

replace-Apart :
    (r x : AppointmentRow) (rows : List AppointmentRow)
    → (x.id == r.id) ≡ true
    → All (Apart x) rows
    → excluded r rows ≡ false
    → All (Apart r) rows
unfolding excluded
replace-Apart r x [] e apart allowed = tt
replace-Apart r x (q ∷ qs) e apart allowed =
    ((ground arith, ground (arith, clash_comm r q)), replace-Apart r x qs e apart.1 (ground arith))

-- An update that the exclusion constraint allows keeps the rows apart.
pub put-IsSeparate :
    (r : AppointmentRow) (rows : List AppointmentRow)
    → excluded r rows ≡ false
    → IsSeparate rows
    → IsSeparate (put row_id r rows)
unfolding excluded
put-IsSeparate r [] allowed s = tt
put-IsSeparate r (x ∷ xs) allowed s = elim (Bool-cases (x.id == r.id)) [
  | inl same ↦ rw same (replace-Apart r x xs same s.0 (ground arith), s.1)
  | inr other ↦ rw other (
    All-put row_id (Apart x) r xs (other, ground arith) s.0,
    put-IsSeparate r xs (ground arith) s.1,
  )
]
