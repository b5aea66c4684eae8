-- ===== src/Assist/Streaming.antt =====
-- `_visible_prefix` of backend/src/fsm/assist/application/triage.py, and the loop of `reply` that
-- yields what the customer can be shown of a reply while it streams.
use field_service_management.Base.{
  ℕ, ◌-◌, List, [], ◌∷◌, ◌++◌, length, take, drop, map, leb, ltb, if◌then◌else◌,
}
use field_service_management.Base.Text.{Text, lstrip, ends_with, remove}
use field_service_management.Assist.Replies.{Marker, spell, markers, ParsedReply, parse_reply}

-- `marker[:length]` for each length below its own.
abbrev pub proper_prefixes : Text → List Text
proper_prefixes [] = []
proper_prefixes (c ∷ []) = []
proper_prefixes (c ∷ d ∷ s) = (c ∷ []) ∷ map (λ p. c ∷ p) (proper_prefixes (d ∷ s))

abbrev pub min : ℕ → ℕ → ℕ
min a b = if leb a b then a else b

-- The inner loop, over the prefixes of one marker.
unfoldable pub limit_by : Text → List Text → ℕ → ℕ
limit_by text [] limit = limit
limit_by text (p ∷ rest) limit =
    limit_by text rest (if ends_with p text then min limit (length text - length p) else limit)

unfoldable pub limit_all : Text → List Marker → ℕ → ℕ
unfolding limit_by
limit_all text [] limit = limit
limit_all text (m ∷ rest) limit =
    limit_all text rest (limit_by text (proper_prefixes (spell m)) limit)

unfoldable pub remove_all : List Marker → Text → Text
remove_all [] text = text
remove_all (m ∷ rest) text = remove_all rest (remove (spell m) text)

unfoldable pub visible_prefix : Text → Text
unfolding limit_all remove_all
visible_prefix text = remove_all markers (take (limit_all text markers (length text)) text)

-- What the loop holds: the fragments joined, and how much it has yielded.
pub record Stream : Type 0 where
  pub joined : Text
  pub emitted : ℕ

abbrev pub opening : Stream
opening = record { joined = []; emitted = 0 }

-- `if len(shown) > emitted: yield shown[emitted:]`.
abbrev pub flush : Text → ℕ → List Text
flush shown emitted = if ltb emitted (length shown) then drop emitted shown ∷ [] else []

abbrev pub advance : Text → Text → ℕ → Stream
advance joined shown emitted = record {
  joined = joined;
  emitted = if ltb emitted (length shown) then length shown else emitted;
}

-- One round: what is yielded, and the state after it.
unfoldable pub receive : Text → Stream → List Text × Stream
receive fragment s =
    let joined : Text = s.joined ++ fragment in
    let visible : Text = visible_prefix (lstrip joined) in
    (flush visible s.emitted, advance joined visible s.emitted)

unfoldable pub receive_all : List Text → Stream → List Text × Stream
unfolding receive
receive_all [] s = ([], s)
receive_all (fragment ∷ rest) s =
    let (shown, t) = receive fragment s in let (more, u) = receive_all rest t in (shown ++ more, u)

-- The whole stream: what it yielded, and the reply that is recorded.
unfoldable pub stream_reply : List Text → List Text × ParsedReply
unfolding receive_all
stream_reply fragments =
    let (shown, s) = receive_all fragments opening in
    let parsed : ParsedReply = parse_reply s.joined in
    (shown ++ flush parsed.text s.emitted, parsed)
