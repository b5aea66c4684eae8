-- ===== src/Assist/Sources.antt =====
-- `cited_sources` of backend/src/fsm/assist/application/triage.py, with the search hit of
-- ports/document_index.py. A score is a multiple of 2 ^ -54, which every double from 0.25 to 1 is;
-- a lower score is below the bar however it is rounded.
use field_service_management.Base.{
  ℕ, Bool, Option, List, [], ◌∷◌, ◌++◌, length, leb, ltb, ◌==◌, if◌then◌else◌,
}
use field_service_management.Base.Sort.{sort_by}
use field_service_management.Base.Text.{Text}

pub record SearchHit : Type 0 where
  pub document_id : ℕ
  pub filename : Text
  pub content : Text
  pub score : ℕ
  pub page : Option ℕ

pub record DocumentRef : Type 0 where
  pub id : ℕ
  pub filename : Text
  pub page : Option ℕ

-- The double nearest to 0.45.
abbrev pub source_min_score : ℕ
source_min_score = 8_106_479_329_266_893

abbrev pub source_min_chunks : ℕ
source_min_chunks = 2

-- A group of `strong.values()`: its first hit, and the others in the order of the search.
pub record Group : Type 0 where
  pub first : SearchHit
  pub others : List SearchHit

-- `strong.setdefault(hit.document_id, []).append(hit)`; a new document comes last.
unfoldable pub add_hit : SearchHit → List Group → List Group
add_hit hit [] = record { first = hit; others = [] } ∷ []
add_hit hit (group ∷ groups) =
    if group.first.document_id == hit.document_id
    then record group { others = group.others ++ hit ∷ [] } ∷ groups
    else group ∷ add_hit hit groups

-- The loop over the hits.
unfoldable pub group_hits : List SearchHit → List Group → List Group
unfolding add_hit
group_hits [] strong = strong
group_hits (hit ∷ hits) strong =
    group_hits hits (if leb source_min_score hit.score then add_hit hit strong else strong)

-- `max(group, key=lambda hit: hit.score)`: the first of the best.
unfoldable pub best_of : SearchHit → List SearchHit → SearchHit
best_of best [] = best
best_of best (hit ∷ hits) = best_of (if ltb best.score hit.score then hit else best) hits

abbrev pub best_hit : Group → SearchHit
best_hit group = best_of group.first group.others

abbrev pub qualifies : Group → Bool
qualifies group = leb source_min_chunks (length (group.first ∷ group.others))

-- `sort(key=..., reverse=True)`, which keeps the order of equal scores.
abbrev pub better : Group → Group → Bool
better a b = leb (best_hit b).score (best_hit a).score

abbrev pub reference : SearchHit → DocumentRef
reference best = record { id = best.document_id; filename = best.filename; page = best.page }

abbrev pub references : List Group → List DocumentRef
references [] = []
references (group ∷ groups) = reference (best_hit group) ∷ references groups

abbrev pub qualifying : List Group → List Group
qualifying [] = []
qualifying (group ∷ groups) =
    if qualifies group then group ∷ qualifying groups else qualifying groups

unfoldable pub cited_sources : List SearchHit → List DocumentRef
unfolding group_hits best_of
cited_sources hits = references (sort_by better (qualifying (group_hits hits [])))
