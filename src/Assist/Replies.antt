-- ===== src/Assist/Replies.antt =====
-- The control markers and parse_reply of backend/src/fsm/assist/application/prompts.py. The wording
-- of the prompts is not modelled: a prompt is what it is built from.
use field_service_management.Base.{
  ℕ, ◌+◌, ◌-◌, Bool, true, false, Option, none, some, List, [], ◌∷◌, ◌++◌, length, if◌then◌else◌,
}
use field_service_management.Base.Int.{ℤ, sub_ℕ}
use field_service_management.Base.Text.{
  Text, codes, lstrip, rstrip, strip, truthy, split_on, contains, remove,
}

pub data Marker : Type 0 where
  solved escalate closed skip resume : Marker
  question_open question_close equipment_open equipment_close : Marker

abbrev pub spell : Marker → Text
spell Marker.solved = codes "[[SOLVED]]"
spell Marker.escalate = codes "[[ESCALATE]]"
spell Marker.closed = codes "[[CLOSED]]"
spell Marker.skip = codes "[[SKIP]]"
spell Marker.resume = codes "[[RESUME]]"
spell Marker.question_open = codes "[[Q]]"
spell Marker.question_close = codes "[[/Q]]"
spell Marker.equipment_open = codes "[[EQUIP]]"
spell Marker.equipment_close = codes "[[/EQUIP]]"

abbrev pub ending_markers : List Marker
ending_markers = Marker.solved ∷ Marker.escalate ∷ Marker.closed ∷ []

abbrev pub markers : List Marker
markers =
    Marker.solved ∷ Marker.escalate ∷ Marker.closed ∷ Marker.skip ∷ Marker.resume
    ∷ Marker.question_open ∷ Marker.question_close ∷ Marker.equipment_open ∷ Marker.equipment_close
    ∷ []

pub record QuestionSpan : Type 0 where
  pub start : ℤ
  pub end : ℤ

pub record ParsedReply : Type 0 where
  pub text : Text
  pub marker : Option Marker
  pub question : Option QuestionSpan
  pub equipment : Option Text
  pub triage_declined : Option Bool

-- `_unwrap` after the opening delimiter: without a closing one nothing is reported.
unfoldable pub unwrap_after : Text → Text → Text → Text × Option (Text × ℕ)
unwrap_after before closer rest = elim (split_on closer rest) [
  | none ↦ (before ++ rest, none)
  | some (body, after) ↦ (before ++ (body ++ after), some (body, length before))
]

-- The text without one delimiter pair, with what the pair held and where that now starts.
unfoldable pub unwrap : Text → Marker → Marker → Text × Option (Text × ℕ)
unfolding unwrap_after
unwrap text opener closer = elim (split_on (spell opener) text) [
  | none ↦ (text, none)
  | some (before, rest) ↦ unwrap_after before (spell closer) rest
]

-- The span of a body that starts at `at`, without the whitespace at its ends.
abbrev pub span_of : Text → ℕ → ℕ × ℕ
span_of body at = (at + (length body - length (lstrip body)), at + length (rstrip body))

unfoldable pub located : Text × Option (Text × ℕ) → Text × Option (ℕ × ℕ)
located (text, none) = (text, none)
located (text, some (body, at)) = (text, some (span_of body at))

unfoldable pub unwrap_question : Text → Text × Option (ℕ × ℕ)
unfolding located
unwrap_question text = located (unwrap text Marker.question_open Marker.question_close)

unfoldable pub named : Text × Option (Text × ℕ) → Text × Option Text
named (text, none) = (text, none)
named (text, some (body, at)) = (text, if truthy (strip body) then some (strip body) else none)

unfoldable pub unwrap_equipment : Text → Text × Option Text
unfolding named
unwrap_equipment text = named (unwrap text Marker.equipment_open Marker.equipment_close)

-- `next((m for m in ENDING_MARKERS if m in text), None)`.
unfoldable pub first_ending : List Marker → Text → Option Marker
first_ending [] text = none
first_ending (m ∷ rest) text = if contains (spell m) text then some m else first_ending rest text

unfoldable pub without_ending : Option Marker → Text → Text
without_ending none text = text
without_ending (some m) text = remove (spell m) text

unfoldable pub standing_choice : Text → Option Bool
standing_choice text =
    if contains (spell Marker.skip) text
    then some true
    else if contains (spell Marker.resume) text
    then some false
    else none

-- The offsets, less the leading whitespace that the outer trim removes.
abbrev pub shift_span : ℕ → Option (ℕ × ℕ) → Option QuestionSpan
shift_span lead none = none
shift_span lead (some (start, end)) =
    some (record { start = sub_ℕ start lead; end = sub_ℕ end lead })

abbrev pub trimmed : Text × Option (ℕ × ℕ) → Option Marker → Option Text → Option Bool → ParsedReply
trimmed (text, span) marker equipment declined = record {
  text = strip text;
  marker = marker;
  question = shift_span (length text - length (lstrip text)) span;
  equipment = equipment;
  triage_declined = declined;
}

unfoldable pub parse_rest : Text → Option Text → ParsedReply
unfolding without_ending standing_choice unwrap_question
parse_rest text equipment =
    let marker : Option Marker = first_ending ending_markers text in
    let unended : Text = without_ending marker text in
    trimmed (unwrap_question (remove (spell Marker.resume) (remove (spell Marker.skip) unended)))
      marker equipment (standing_choice unended)

unfoldable pub parse_reply : Text → ParsedReply
unfolding parse_rest
parse_reply text = let (bare, equipment) = unwrap_equipment text in parse_rest bare equipment
