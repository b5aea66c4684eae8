-- ===== src/Identity/Users/Subjects.antt =====
-- Lookups by subject in backend/src/fsm/identity/adapters/repositories.py.
use field_service_management.Base.{
  ◌≡◌, refl, sym, ◌∙◌, ap, true, some, List, [], ◌∷◌, arith, Bool-cases, inl, inr,
}
use field_service_management.Base.Text.{same_text, Text}
use field_service_management.Identity.User.{User}
use field_service_management.Identity.Users.{get_by_google_sub}

pub same_text-eq : (a b : Text) → same_text a b ≡ true → a ≡ b
same_text-eq [] [] h = refl
same_text-eq [] (d ∷ ds) h = absurd (ground arith)
same_text-eq (c ∷ cs) [] h = absurd (ground arith)
same_text-eq (c ∷ cs) (d ∷ ds) h =
    let head : c ≡ d = ground arith in
    let tail : same_text cs ds ≡ true = ground arith in rw (head, same_text-eq cs ds tail) refl

pub same_text_self : (a : Text) → same_text a a ≡ true
same_text_self [] = refl
same_text_self (c ∷ cs) = ground (arith, same_text_self cs)

-- The user that a lookup finds has the subject that was asked for.
pub get_by_google_sub-subject :
    (google_sub : Text) (rows : List User) (user : User)
    → get_by_google_sub google_sub rows ≡ some user
    → user.google_sub ≡ google_sub
get_by_google_sub-subject google_sub [] user h = absurd (ground arith)
get_by_google_sub-subject google_sub (row ∷ rows) user h =
    elim (Bool-cases (same_text row.google_sub google_sub)) [
      | inl hit ↦
          let same : some row ≡ some user = rw hit at h in
          let e : row ≡ user = cc in
          ap (λ (u : User). u.google_sub) (sym e) ∙ same_text-eq row.google_sub google_sub hit
      | inr miss ↦ get_by_google_sub-subject google_sub rows user (rw miss at h)
    ]
