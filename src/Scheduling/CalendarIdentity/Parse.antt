-- ===== src/Scheduling/CalendarIdentity/Parse.antt =====
-- What parse_ical_uid of backend/src/fsm/scheduling/domain/calendar_identity.py reads is what
-- build_ical_uid writes.
use field_service_management.Base.{
  ℕ, zero, suc, ◌+◌, ◌^◌, ◌<◌, ◌≡◌, refl, sym, ap, ◌∙◌, ◌⊎◌, inl, inr, Option, none, some, List, [],
  ◌∷◌, ◌++◌, map, arith, All, ==_self,
}
use mathlib.Core.Path.{subst}
use mathlib.Core.List.{append_assoc, append-nil}
use field_service_management.Base.Text.{Text}
use field_service_management.Base.Uuid.{
  fold_case, drop_digits, hex_run, read_hex, uuid_text, read_hex-hex_run, hex_run-read_hex,
}
use field_service_management.Scheduling.CalendarIdentity.{
  Piece, literal, digits, after, match, ical_uid_re, build_ical_uid, ended, parse_ical_uid, ◌>>=◌,
}

-- The digits that a pattern reads, and the text that it matches for a number.
abbrev width : List Piece → ℕ
width [] = 0
width (literal p ∷ ps) = width ps
width (digits len ∷ ps) = len + width ps

abbrev write : List Piece → ℕ → Text
write [] n = []
write (literal p ∷ ps) n = p ++ write ps n
write (digits len ∷ ps) n = hex_run len (width ps) n ++ write ps n

-- A literal stands in the pattern without case.
abbrev IsFolded : List Piece → Type 0
IsFolded [] = Unit
IsFolded (literal p ∷ ps) = All (λ c. fold_case c ≡ c) p × IsFolded ps
IsFolded (digits len ∷ ps) = IsFolded ps

after-append : (p s : Text) → All (λ c. fold_case c ≡ c) p → after p (p ++ s) ≡ some s
unfolding after
after-append [] s h = refl
after-append (c ∷ p) s h = rw (h.0, ==_self c) (after-append p s h.1)

append-after : (p s t : Text) → after p s ≡ some t → map fold_case s ≡ p ++ map fold_case t
unfolding after
append-after [] s t h = ground arith
append-after (c ∷ p) [] t h = ground arith
append-after (c ∷ p) (d ∷ s) t h = ground (arith, append-after p s t)

drop_digits-drop_digits :
    (k low n : ℕ) → drop_digits k (drop_digits low n) ≡ drop_digits (k + low) n
unfolding drop_digits
drop_digits-drop_digits zero low n = let e : 0 + low ≡ low = omega arith in rw e
drop_digits-drop_digits (suc k) low n =
    let e : suc k + low ≡ suc (k + low) = omega arith in rw (e, drop_digits-drop_digits k low n)

hex_run-drop_digits : (len low n : ℕ) → hex_run len 0 (drop_digits low n) ≡ hex_run len low n
unfolding hex_run
hex_run-drop_digits zero low n = refl
hex_run-drop_digits (suc len) low n =
    let e : len + 0 ≡ len = omega arith in
    rw (e, drop_digits-drop_digits len low n, hex_run-drop_digits len low n)

match-write :
    (ps : List Piece) (n : ℕ) (s : Text)
    → IsFolded ps
    → match ps (drop_digits (width ps) n) (write ps n ++ s) ≡ some (n, s)
unfolding match
match-write [] n s h = unfold drop_digits in refl
match-write (literal p ∷ ps) n s h =
    rw (append_assoc, after-append p (write ps n ++ s) h.0, ◌>>=◌) (match-write ps n s h.1)
match-write (digits len ∷ ps) n s h =
    rw (append_assoc, read_hex-hex_run len (width ps) n (write ps n ++ s), ◌>>=◌)
      (match-write ps n s h)

>>=-eq-some :
    {A B : Type 0} (m : Option A) (f : A → Option B) {b : B}
    → (m >>= f) ≡ some b
    → (a : A) × (m ≡ some a) × (f a ≡ some b)
>>=-eq-some none f h = cc
>>=-eq-some (some a) f h = (a, refl, h)

write-match :
    (ps : List Piece) (acc x : ℕ) (s t : Text)
    → match ps acc s ≡ some (x, t)
    → (drop_digits (width ps) x ≡ acc) × (map fold_case s ≡ write ps x ++ map fold_case t)
unfolding match drop_digits
write-match [] acc x s t h =
    let e : (acc, s) ≡ (x, t) = ground arith in
    (sym (ap (λ (r : ℕ × Text). r.0) e), ap (λ (r : ℕ × Text). map fold_case r.1) e)
write-match (literal p ∷ ps) acc x s t h =
    let (s', read, rest) = >>=-eq-some (after p s) (match ps acc) h in
    let (top, tail) = write-match ps acc x s' t rest in
    (top, rw (append-after p s s' read, tail, append_assoc))
write-match (digits len ∷ ps) acc x s t h =
    let ((y, s'), read, rest) = >>=-eq-some (read_hex len acc s) (λ r. match ps r.0 r.1) h in
    let (top, tail) = write-match ps y x s' t rest in
    let (above, run) = hex_run-read_hex len acc y s s' read in
    (
      sym (drop_digits-drop_digits len (width ps) x) ∙ ap (drop_digits len) top ∙ above,
      rw (run, tail, sym top, hex_run-drop_digits, append_assoc),
    )

ical_uid_re-IsFolded : IsFolded ical_uid_re
unfolding fold_case
ical_uid_re-IsFolded = omega arith

write-build_ical_uid : (id : ℕ) → write ical_uid_re id ≡ build_ical_uid id
unfolding build_ical_uid uuid_text
write-build_ical_uid id = refl

drop_digits-eq_zero : (n : ℕ) → n < 2 ^ 128 → drop_digits 32 n ≡ 0
unfolding drop_digits
drop_digits-eq_zero n h = omega arith

eq_zero-drop_digits : (n : ℕ) → drop_digits 32 n ≡ 0 → n < 2 ^ 128
unfolding drop_digits
eq_zero-drop_digits n h = omega arith

-- The identity of a calendar event is read back: for every UUID, `parse_ical_uid` of what
-- `build_ical_uid` returns is that UUID.
pub parse_ical_uid-build_ical_uid :
    (id : ℕ) → id < 2 ^ 128 → parse_ical_uid (build_ical_uid id) ≡ some id
unfolding parse_ical_uid
parse_ical_uid-build_ical_uid id h =
    let read : match ical_uid_re 0 (build_ical_uid id ++ []) ≡ some (id, []) =
      subst (λ v. match ical_uid_re 0 (v ++ []) ≡ some (id, [])) (write-build_ical_uid id)
        (subst (λ top. match ical_uid_re top (write ical_uid_re id ++ []) ≡ some (id, []))
          (drop_digits-eq_zero id h) (match-write ical_uid_re id [] ical_uid_re-IsFolded)) in
    ap (λ r. r >>= ended) (sym (ap (match ical_uid_re 0) (append-nil (build_ical_uid id))) ∙ read)
    ∙ (unfold ended in refl)

ended-cases :
    (id : ℕ) (x : ℕ) (t : Text) → ended (x, t) ≡ some id → (x ≡ id) × ((t ≡ []) ⊎ (t ≡ b'\n' ∷ []))
unfolding ended
ended-cases id x [] h = (ground arith, inl refl)
ended-cases id x (c ∷ []) h = ground (arith)
ended-cases id x (c ∷ d ∷ t) h = cc

-- No foreign event is taken for one of the program's: a text that `parse_ical_uid` accepts is, but
-- for case and one newline at its end, what `build_ical_uid` returns for the UUID that it gives.
pub build_ical_uid-parse_ical_uid :
    (id : ℕ) (value : Text)
    → parse_ical_uid value ≡ some id
    → (id < 2 ^ 128)
      × ((map fold_case value ≡ build_ical_uid id)
          ⊎ (map fold_case value ≡ build_ical_uid id ++ b'\n' ∷ []))
unfolding parse_ical_uid
build_ical_uid-parse_ical_uid id value h =
    let ((x, t), read, rest) = >>=-eq-some (match ical_uid_re 0 value) ended h in
    let (top, tail) = write-match ical_uid_re 0 x value t read in
    let (same, end) = ended-cases id x t rest in
    (
      eq_zero-drop_digits id (rw (sym same) top),
      elim end [
        | inl e ↦ inl (
            tail
            ∙ ap (λ (u : Text). write ical_uid_re x ++ map fold_case u) e
            ∙ append-nil (write ical_uid_re x)
            ∙ ap (write ical_uid_re) same
            ∙ write-build_ical_uid id)
        | inr e ↦ inr (
            tail
            ∙ ap (λ (u : Text). write ical_uid_re x ++ map fold_case u) e
            ∙ ap (λ (y : ℕ). write ical_uid_re y ++ (fold_case b'\n' ∷ [])) same
            ∙ (unfold fold_case in ap (λ (u : Text). u ++ b'\n' ∷ []) (write-build_ical_uid id)))
      ],
    )
