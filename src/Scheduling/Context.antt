-- ===== src/Scheduling/Context.antt =====
-- backend/src/fsm/scheduling/domain/appointment_context.py.
pub mod Titles
use field_service_management.Base.{
  ℕ, zero, suc, ◌-◌, Bool, true, false, not, ◌&&◌, ◌||◌, Option, none, some, List, [], ◌∷◌, ◌++◌,
  length, leb, ◌==◌, if◌then◌else◌,
}
use field_service_management.Assist.Summary.{TriageSummary}
use field_service_management.Base.Text.{Text, strip, rstrip, truthy}

pub record AppointmentContext : Type 0 where
  pub customer_name : Option Text
  pub problem_description : Option Text
  pub problem_headline : Option Text
  pub triage_summary : Option TriageSummary
  pub service_address : Option Text
  pub customer_phone : Option Text
  pub technician_name : Option Text
  pub technician_phone : Option Text
  pub photo_links : List (Text × Text)

-- `AppointmentContext()`.
abbrev pub empty_context : AppointmentContext
empty_context = record {
  customer_name = none;
  problem_description = none;
  problem_headline = none;
  triage_summary = none;
  service_address = none;
  customer_phone = none;
  technician_name = none;
  technician_phone = none;
  photo_links = [];
}

abbrev pub title_problem_limit : ℕ
title_problem_limit = 60

-- "…".
abbrev pub ellipsis : ℕ
ellipsis = 0x2026

-- Where `str.splitlines` ends a line.
abbrev pub is_line_break : ℕ → Bool
is_line_break c =
    (leb 10 c && leb c 13)
    || (leb 28 c && leb c 30)
    || (c == 0x85)
    || (c == 0x2028)
    || (c == 0x2029)

-- `s.splitlines()[0]` of a text that is not empty.
pub first_line : Text → Text
first_line [] = []
first_line (c ∷ cs) = if is_line_break c then [] else c ∷ first_line cs

-- `s[:n]`.
pub prefix : ℕ → Text → Text
prefix zero s = []
prefix (suc n) [] = []
prefix (suc n) (c ∷ cs) = c ∷ prefix n cs

-- `self.problem_headline or self.problem_description`, then `or ""`.
abbrev pub or_else : Option Text → Text → Text
or_else none other = other
or_else (some []) other = other
or_else (some (c ∷ cs)) other = c ∷ cs

pub shorten : Text → Text
unfolding prefix
shorten line =
    if leb (length line) title_problem_limit
    then line
    else rstrip (prefix (title_problem_limit - 1) line) ++ ellipsis ∷ []

pub problem_summary : AppointmentContext → Text
unfolding first_line shorten
problem_summary context =
    let stripped : Text =
      strip (or_else context.problem_headline (or_else context.problem_description [])) in
    if not (truthy stripped) then [] else shorten (first_line stripped)

-- "Field Service Management", of backend/src/fsm/shared/constants.py.
abbrev pub brand : Text
brand =
    70 ∷ 105 ∷ 101 ∷ 108 ∷ 100 ∷ 32 ∷ 83 ∷ 101 ∷ 114 ∷ 118 ∷ 105 ∷ 99 ∷ 101 ∷ 32 ∷ 77 ∷ 97 ∷ 110
    ∷ 97 ∷ 103 ∷ 101 ∷ 109 ∷ 101 ∷ 110 ∷ 116 ∷ []

-- "Field service appointment".
abbrev pub generic_title : Text
generic_title =
    70 ∷ 105 ∷ 101 ∷ 108 ∷ 100 ∷ 32 ∷ 115 ∷ 101 ∷ 114 ∷ 118 ∷ 105 ∷ 99 ∷ 101 ∷ 32 ∷ 97 ∷ 112 ∷ 112
    ∷ 111 ∷ 105 ∷ 110 ∷ 116 ∷ 109 ∷ 101 ∷ 110 ∷ 116 ∷ []

-- `separator.join(parts)` of the parts that are not blank.
pub join_known : Text → List Text → Text
join_known separator [] = []
join_known separator ([] ∷ parts) = join_known separator parts
join_known separator ((c ∷ cs) ∷ parts) =
    let rest : Text = join_known separator parts in
    if truthy rest then (c ∷ cs) ++ (separator ++ rest) else c ∷ cs

pub summary_line : AppointmentContext → Text
unfolding join_known problem_summary
summary_line context =
    let parties : Text = join_known (32 ∷ 45 ∷ 45 ∷ 32 ∷ []) (
      strip (or_else context.technician_name []) ∷ strip (or_else context.customer_name []) ∷ []) in
    let segments : Text = join_known (32 ∷ 58 ∷ 32 ∷ []) (parties ∷ problem_summary context ∷ []) in
    if not (truthy segments) then generic_title else brand ++ (58 ∷ 32 ∷ segments)
