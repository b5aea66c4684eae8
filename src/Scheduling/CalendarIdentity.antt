-- ===== src/Scheduling/CalendarIdentity.antt =====
-- backend/src/fsm/scheduling/domain/calendar_identity.py. The regular expression is a list of pieces:
-- literals, compared as `re.IGNORECASE` does, and runs of hexadecimal digits.
pub mod Parse
use field_service_management.Base.{
  ℕ, ◌+◌, Option, none, some, List, [], ◌∷◌, ◌++◌, ◌==◌, if◌then◌else◌,
}
use field_service_management.Base.Text.{Text, codes}
use field_service_management.Base.Uuid.{fold_case, read_hex, uuid_text}

pub data Piece : Type 0 where
  literal : Text → Piece
  digits : ℕ → Piece

-- The text after a literal.
pub after : Text → Text → Option Text
after [] s = some s
after (p ∷ ps) [] = none
after (p ∷ ps) (c ∷ s) = if fold_case c == p then after ps s else none

infixl 5 ◌>>=◌
abbrev ◌>>=◌ : {A B : Type 0} → Option A → (A → Option B) → Option B
none >>= f = none
some a >>= f = f a

-- The number that the digits write behind those of `acc`, and the text that is left.
pub match : List Piece → ℕ → Text → Option (ℕ × Text)
unfolding after
match [] acc s = some (acc, s)
match (literal p ∷ ps) acc s = after p s >>= match ps acc
match (digits len ∷ ps) acc s = read_hex len acc s >>= λ r. match ps r.0 r.1

-- `_ICAL_UID_RE`, less its anchors.
abbrev pub ical_uid_re : List Piece
ical_uid_re =
    literal (codes "fsm-")
    ∷ digits 8
    ∷ literal (codes "-")
    ∷ digits 4
    ∷ literal (codes "-")
    ∷ digits 4
    ∷ literal (codes "-")
    ∷ digits 4
    ∷ literal (codes "-")
    ∷ digits 12
    ∷ literal (codes "@fsm.local")
    ∷ []

unfoldable pub build_ical_uid : ℕ → Text
build_ical_uid appointment_id = codes "fsm-" ++ (uuid_text appointment_id ++ codes "@fsm.local")

-- `$` matches at the end, and before a newline that ends the text.
pub ended : ℕ × Text → Option ℕ
ended (id, []) = some id
ended (id, c ∷ []) = if c == b'\n' then some id else none
ended (id, c ∷ d ∷ s) = none

unfoldable pub parse_ical_uid : Text → Option ℕ
unfolding match ended
parse_ical_uid value = match ical_uid_re 0 value >>= ended
