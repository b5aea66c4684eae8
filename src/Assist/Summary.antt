-- ===== src/Assist/Summary.antt =====
-- `SummaryBlock` and `TriageSummary` of backend/src/fsm/assist/ports/chat_model.py. The dictionary
-- that `as_dict` returns and `from_dict` reads is kept as the record.
use field_service_management.Base.{List, [], ◌∷◌, ◌++◌, map}
use field_service_management.Base.Text.{Text, codes, join}

pub record SummaryBlock : Type 0 where
  pub heading : Text
  pub bullets : List Text
  pub fields : List (Text × Text)

pub record TriageSummary : Type 0 where
  pub equipment : Text
  pub problem_category : Text
  pub symptoms : Text
  pub suspected_cause : Text
  pub action_items : List Text
  pub steps_ruled_out : List Text

unfoldable pub blocks : TriageSummary → List SummaryBlock
blocks summary =
    record {
      heading = codes "Problem";
      bullets = summary.problem_category ∷ summary.symptoms ∷ [];
      fields = [];
    }
    ∷ record { heading = codes "Action items"; bullets = summary.action_items; fields = [] }
    ∷ record {
      heading = codes "Triage summary";
      bullets = [];
      fields =
          (codes "Equipment", summary.equipment)
          ∷ (codes "Suspected cause", summary.suspected_cause)
          ∷ [];
    }
    ∷ record { heading = codes "Steps ruled out"; bullets = summary.steps_ruled_out; fields = [] }
    ∷ []

unfoldable pub headline : TriageSummary → Text
headline summary = summary.problem_category

bullet_line : Text → Text
bullet_line bullet = codes "- " ++ bullet

field_line : Text × Text → Text
field_line (label, value) = codes "- " ++ (label ++ (codes ": " ++ value))

-- The blank line that parts a block from what stands above it.
gap : List Text → List Text
gap [] = []
gap (line ∷ lines) = [] ∷ []

-- One round of the loop: a block with nothing in it is left out, heading included.
add_block : SummaryBlock → List Text → List (Text × Text) → List Text → List Text
unfolding bullet_line field_line gap
add_block block [] [] lines = lines
add_block block bullets fields lines =
    lines
    ++ (gap lines
        ++ ((block.heading ++ codes ":") ∷ map bullet_line bullets ++ map field_line fields))

add_blocks : List SummaryBlock → List Text → List Text
unfolding add_block
add_blocks [] lines = lines
add_blocks (block ∷ rest) lines = add_blocks rest (add_block block block.bullets block.fields lines)

unfoldable pub render : TriageSummary → Text
unfolding add_blocks blocks
render summary = join (b'\n' ∷ []) (add_blocks (blocks summary) [])
