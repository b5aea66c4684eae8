-- ===== src/Base/Text.antt =====
-- Texts as lists of code points, with the parts of Python's `str` that the program uses.
pub mod Blank
use field_service_management.Base.Tests.{◌==◌, leb, if◌then◌else◌}
use field_service_management.Base.Lists.{length, drop, All}
use field_service_management.Base.Tests.{Bool-cases, is_some}
use Prim.Native.Char.{code}
use Prim.Native.String.{String}
use mathlib.Core.Logic.{inl, inr}
use mathlib.Core.Path.{◌≡◌}
use native.Mathlib.Omega.{arith}
use Prim.Native.Nat.{ℕ, zero, suc, ◌+◌, ◌-◌, ◌≤◌}
use mathlib.Core.Option.{Option, none, some}
use mathlib.Core.Option
use mathlib.Core.Bool.{Bool, true, false, ◌&&◌, ◌||◌}
use mathlib.Core.List.{List, [], ◌∷◌, ◌++◌, reverse, reverse_aux}

abbrev pub Text : Type 0
Text = List ℕ

-- The code points of a literal.
abbrev pub codes : String → Text
codes String.[] = []
codes (String.◌∷◌ c s) = code c ∷ codes s

-- `str.isspace` of one character.
abbrev pub is_space : ℕ → Bool
is_space c =
    (leb 9 c && leb c 13)
    || (leb 28 c && leb c 32)
    || (c == 0x85)
    || (c == 0xa0)
    || (c == 0x1680)
    || (leb 0x2000 c && leb c 0x200a)
    || (c == 0x2028)
    || (c == 0x2029)
    || (c == 0x202f)
    || (c == 0x205f)
    || (c == 0x3000)

-- `s.lstrip()`, `s.rstrip()` and `s.strip()`.
unfoldable pub lstrip : Text → Text
lstrip [] = []
lstrip (c ∷ cs) = if is_space c then lstrip cs else c ∷ cs

unfoldable pub rstrip : Text → Text
unfolding lstrip
rstrip s = reverse (lstrip (reverse s))

unfoldable pub strip : Text → Text
unfolding rstrip
strip s = rstrip (lstrip s)

-- `bool(s)`.
abbrev pub truthy : Text → Bool
truthy [] = false
truthy (c ∷ cs) = true

-- `==` of two texts.
abbrev pub same_text : Text → Text → Bool
same_text [] [] = true
same_text [] (d ∷ ds) = false
same_text (c ∷ cs) [] = false
same_text (c ∷ cs) (d ∷ ds) = c == d && same_text cs ds

-- `s.startswith(p)` and `s.endswith(p)`.
abbrev pub starts_with : Text → Text → Bool
starts_with [] s = true
starts_with (p ∷ ps) [] = false
starts_with (p ∷ ps) (c ∷ s) = c == p && starts_with ps s

unfoldable pub ends_with : Text → Text → Bool
ends_with p s = starts_with (reverse p) (reverse s)

-- What stands before and after the first occurrence of `p`, a text that is not empty.
unfoldable pub split_on : Text → Text → Option (Text × Text)
split_on p [] = none
split_on p (c ∷ s) = elim (starts_with p (c ∷ s)) [
  | true ↦ some ([], drop (length p) (c ∷ s))
  | false ↦ Option.map (λ (r : Text × Text). (c ∷ r.0, r.1)) (split_on p s)
]

-- `p in s`.
abbrev pub contains : Text → Text → Bool
contains p s = is_some (split_on p s)

-- `s.replace(p, "")`; `skip` characters are still of the occurrence before.
remove_from : Text → ℕ → Text → Text
remove_from p skip [] = []
remove_from p (suc skip) (c ∷ s) = remove_from p skip s
remove_from p zero (c ∷ s) = elim (starts_with p (c ∷ s)) [
  | true ↦ remove_from p (length p - 1) s
  | false ↦ c ∷ remove_from p zero s
]

unfoldable pub remove : Text → Text → Text
unfolding remove_from
remove p s = remove_from p 0 s

-- `sep.join(parts)`.
unfoldable pub join : Text → List Text → Text
join sep [] = []
join sep (part ∷ []) = part
join sep (part ∷ next ∷ parts) = part ++ (sep ++ join sep (next ∷ parts))

lstrip-length : (s : Text) → length (lstrip s) ≤ length s
unfolding lstrip
lstrip-length [] = omega arith
lstrip-length (c ∷ cs) = ground (arith, lstrip-length cs)

length-reverse_aux : (s r : Text) → length (reverse_aux s r) ≡ length s + length r
length-reverse_aux [] r = omega arith
length-reverse_aux (c ∷ cs) r = omega (arith, length-reverse_aux cs (c ∷ r))

length-reverse : (s : Text) → length (reverse s) ≡ length s
length-reverse s = omega (arith, length-reverse_aux s [])

pub rstrip-length : (s : Text) → length (rstrip s) ≤ length s
unfolding rstrip
rstrip-length s =
    omega (arith, length-reverse (lstrip (reverse s)), lstrip-length (reverse s), length-reverse s)

All-lstrip {ℓ} : (P : ℕ → Type ℓ) (s : Text) → All P s → All P (lstrip s)
unfolding lstrip
All-lstrip P [] h = tt
All-lstrip P (c ∷ cs) h = elim (Bool-cases (is_space c)) [
  | inl space ↦ rw space (All-lstrip P cs h.1)
  | inr kept ↦ rw kept h
]

All-reverse_aux {ℓ} : (P : ℕ → Type ℓ) (s r : Text) → All P s → All P r → All P (reverse_aux s r)
All-reverse_aux P [] r h k = k
All-reverse_aux P (c ∷ cs) r h k = All-reverse_aux P cs (c ∷ r) h.1 (h.0, k)

pub All-rstrip {ℓ} : (P : ℕ → Type ℓ) (s : Text) → All P s → All P (rstrip s)
unfolding rstrip
All-rstrip P s h =
    All-reverse_aux P (lstrip (reverse s)) []
      (All-lstrip P (reverse s) (All-reverse_aux P s [] h tt)) tt
