-- ===== src/Scheduling/Context/Titles.antt =====
-- The titles of backend/src/fsm/scheduling/domain/appointment_context.py stay within their limit.
use field_service_management.Base.{
  ℕ, zero, suc, ◌-◌, ◌≤◌, ◌≡◌, refl, false, [], ◌∷◌, arith, All, All-append, length, length-append,
  leb, Bool-cases, inl, inr,
}
use field_service_management.Base.Text.{Text, rstrip-length, All-rstrip, rstrip, strip, truthy}
use field_service_management.Scheduling.Context.{
  AppointmentContext, first_line, prefix, shorten, problem_summary, title_problem_limit, ellipsis,
  or_else, is_line_break,
}

length-prefix : (n : ℕ) (s : Text) → length (prefix n s) ≤ n
unfolding prefix
length-prefix zero s = omega arith
length-prefix (suc n) [] = omega arith
length-prefix (suc n) (c ∷ cs) = omega (arith, length-prefix n cs)

length-shorten : (line : Text) → length (shorten line) ≤ title_problem_limit
unfolding shorten
length-shorten line = elim (Bool-cases (leb (length line) title_problem_limit)) [
  | inl short ↦ rw short (ground arith)
  | inr long ↦ rw long (
      omega (
        arith,
        length-append (rstrip (prefix (title_problem_limit - 1) line)) (ellipsis ∷ []),
        rstrip-length (prefix (title_problem_limit - 1) line),
        length-prefix (title_problem_limit - 1) line,
      ))
]

-- What the summary is made from.
abbrev source : AppointmentContext → Text
source context = strip (or_else context.problem_headline (or_else context.problem_description []))

-- A character within a line.
abbrev pub IsInLine : ℕ → Type 0
IsInLine c = is_line_break c ≡ false

first_line-IsInLine : (s : Text) → All IsInLine (first_line s)
unfolding first_line
first_line-IsInLine [] = tt
first_line-IsInLine (c ∷ cs) = elim (Bool-cases (is_line_break c)) [
  | inl ends ↦ rw ends tt
  | inr goes ↦ rw goes (goes, first_line-IsInLine cs)
]

prefix-IsInLine : (n : ℕ) (s : Text) → All IsInLine s → All IsInLine (prefix n s)
unfolding prefix
prefix-IsInLine zero s h = tt
prefix-IsInLine (suc n) [] h = tt
prefix-IsInLine (suc n) (c ∷ cs) h = (h.0, prefix-IsInLine n cs h.1)

shorten-IsInLine : (line : Text) → All IsInLine line → All IsInLine (shorten line)
unfolding shorten
shorten-IsInLine line h = elim (Bool-cases (leb (length line) title_problem_limit)) [
  | inl short ↦ rw short h
  | inr long ↦ rw long (
      All-append IsInLine (rstrip (prefix (title_problem_limit - 1) line)) (ellipsis ∷ [])
        (All-rstrip IsInLine (prefix (title_problem_limit - 1) line)
          (prefix-IsInLine (title_problem_limit - 1) line h))
        (refl, tt))
]

-- The problem of a title is one line of at most sixty characters, the ellipsis of a cut one
-- included.
pub length-problem_summary :
    (context : AppointmentContext)
    → (length (problem_summary context) ≤ 60)
      × All (λ c. is_line_break c ≡ false) (problem_summary context)
unfolding problem_summary
length-problem_summary context = elim (Bool-cases (truthy (source context))) [
  | inl some_text ↦ rw some_text (
    length-shorten (first_line (source context)),
    shorten-IsInLine (first_line (source context)) (first_line-IsInLine (source context)),
  )
  | inr blank ↦ rw blank (omega arith, tt)
]
