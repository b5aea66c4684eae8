-- ===== src/Scheduling/Repositories/Consistency.antt =====
-- What backend/src/fsm/scheduling/adapters/repositories.py keeps true of the appointment table: no
-- technician is booked twice, and writes that the constraints allow keep it so.
use mathlib.Core.Path.{subst}
use field_service_management.Base.{
  ℕ, suc, ◌≤◌, ◌<◌, ◌≡◌, refl, sym, ◌∙◌, ◌==◌, true, false, none, some, List, [], ◌∷◌, ◌++◌, arith,
  All, All-append, Bool-cases, inl, inr,
}
use field_service_management.Base.Rows.{find, put, All-put, All-find}
use field_service_management.Scheduling.Appointment.{is_cancelled}
use field_service_management.Scheduling.Store.{Store, AppointmentRow}
use field_service_management.Scheduling.Repositories.{row_id, excluded, clash}
use field_service_management.Scheduling.Repositories.Mapping.{IsValidRow}
use field_service_management.Scheduling.Repositories.Constraint.{
  IsSeparate, Apart, clash_comm, append-IsSeparate, put-IsSeparate,
}

-- Every row holds a valid time range and an id that was drawn, and every two rows are apart.
pub record IsConsistent (s : Store) : Type 0 where
  pub valid : All IsValidRow s.appointments
  pub separate : IsSeparate s.appointments
  pub fresh : All (λ r. r.id < s.next_uuid) s.appointments

pub fresh_mono :
    {m n : ℕ} (rows : List AppointmentRow)
    → m ≤ n
    → All (λ r. r.id < m) rows
    → All (λ r. r.id < n) rows
fresh_mono [] h f = tt
fresh_mono (r ∷ rs) h f = (omega arith, fresh_mono rs h f.1)

pub find_fresh :
    (n : ℕ) (rows : List AppointmentRow) → All (λ r. r.id < n) rows → find row_id n rows ≡ none
find_fresh n [] f = refl
find_fresh n (r ∷ rs) f = ground (arith, find_fresh n rs f.1)

-- Writing a row over the one of its id, where nothing excludes it.
pub put-IsConsistent :
    (r : AppointmentRow) (s t : Store)
    → IsValidRow r
    → r.id < s.next_uuid
    → excluded r s.appointments ≡ false
    → t.appointments ≡ put row_id r s.appointments
    → s.next_uuid ≤ t.next_uuid
    → IsConsistent s
    → IsConsistent t
put-IsConsistent r s t valid drawn free e le c = record {
  valid = subst (All IsValidRow) (sym e) (All-put row_id IsValidRow r s.appointments valid c.valid);
  separate = subst IsSeparate (sym e) (put-IsSeparate r s.appointments free c.separate);
  fresh = subst (All (λ r. r.id < t.next_uuid)) (sym e) (
      All-put row_id (λ r. r.id < t.next_uuid) r s.appointments (omega arith)
        (fresh_mono s.appointments le c.fresh));
}

pub append-IsConsistent :
    (r : AppointmentRow) (s t : Store)
    → IsValidRow r
    → r.id ≡ s.next_uuid
    → excluded r s.appointments ≡ false
    → t.appointments ≡ s.appointments ++ r ∷ []
    → suc s.next_uuid ≤ t.next_uuid
    → IsConsistent s
    → IsConsistent t
append-IsConsistent r s t valid drawn free e le c = record {
  valid =
      subst (All IsValidRow) (sym e)
        (All-append IsValidRow s.appointments (r ∷ []) c.valid (valid, tt));
  separate = subst IsSeparate (sym e) (
      append-IsSeparate r s.appointments (rw drawn (find_fresh s.next_uuid s.appointments c.fresh))
        free c.separate);
  fresh = subst (All (λ r. r.id < t.next_uuid)) (sym e) (
      All-append (λ r. r.id < t.next_uuid) s.appointments (r ∷ [])
        (fresh_mono s.appointments (omega arith) c.fresh) (omega arith, tt));
}

pub excluded_cancelled :
    (r : AppointmentRow) (rows : List AppointmentRow)
    → is_cancelled r.status ≡ true
    → excluded r rows ≡ false
unfolding excluded
excluded_cancelled r [] h = refl
excluded_cancelled r (q ∷ qs) h = ground (arith, excluded_cancelled r qs h)

pub clash_free :
    (r row : AppointmentRow) (rows : List AppointmentRow)
    → ((q : AppointmentRow) → clash q r ≡ clash q row)
    → All (Apart row) rows
    → excluded r rows ≡ false
unfolding excluded
clash_free r row [] like apart = refl
clash_free r row (q ∷ qs) like apart =
    let free : clash q r ≡ false = like q ∙ (clash_comm q row ∙ apart.0.1) in
    rw (free, clash_free r row qs like apart.1) (ground arith)

-- A row that keeps the technician, the status and the time of the row it replaces.
pub excluded_same :
    (r row : AppointmentRow) (rows : List AppointmentRow)
    → find row_id r.id rows ≡ some row
    → ((q : AppointmentRow) → clash q r ≡ clash q row)
    → IsSeparate rows
    → excluded r rows ≡ false
unfolding excluded
excluded_same r row [] found like sep = ground arith
excluded_same r row (q ∷ qs) found like sep = elim (Bool-cases (q.id == r.id)) [
  | inl hit ↦
      let first : some q ≡ some row = rw hit at found in
      let here : q ≡ row = cc in
      rw hit (clash_free r row qs like (subst (λ x. All (Apart x) qs) here sep.0))
  | inr miss ↦
      let there : find row_id r.id qs ≡ some row = rw miss at found in
      let free : clash q r ≡ false =
        like q ∙ (All-find row_id (Apart q) r.id qs row there sep.0).1 in
      rw (miss, free) (excluded_same r row qs there like sep.1)
]

-- Tables with the same appointments.
pub same-IsConsistent :
    (s t : Store)
    → t.appointments ≡ s.appointments
    → s.next_uuid ≤ t.next_uuid
    → IsConsistent s
    → IsConsistent t
same-IsConsistent s t e le c = record {
  valid = subst (All IsValidRow) (sym e) c.valid;
  separate = subst IsSeparate (sym e) c.separate;
  fresh = subst (All (λ r. r.id < t.next_uuid)) (sym e) (fresh_mono s.appointments le c.fresh);
}
