-- ===== src/Base/Text/Blank.antt =====
-- What `strip` leaves of a text: nothing exactly when every character is a space.
use mathlib.Core.Path.{◌≡◌, refl, sym, ◌∙◌}
use mathlib.Core.Bool.{Bool, not, ◌||◌}
use mathlib.Core.List.{[], ◌∷◌, reverse, reverse_aux}
use mathlib.Core.Logic.{inl, inr}
use native.Mathlib.Omega.{arith}
use field_service_management.Base.Lists.{any}
use field_service_management.Base.Tests.{Bool-cases}
use field_service_management.Base.Text.{Text, is_space, lstrip, rstrip, strip, truthy}

-- Some character is not a space.
abbrev pub has_ink : Text → Bool
has_ink s = any (λ c. not (is_space c)) s

truthy-lstrip : (s : Text) → truthy (lstrip s) ≡ has_ink s
unfolding lstrip
truthy-lstrip [] = refl
truthy-lstrip (c ∷ cs) = elim (Bool-cases (is_space c)) [
  | inl space ↦ rw space (truthy-lstrip cs)
  | inr kept ↦ rw kept refl
]

has_ink-lstrip : (s : Text) → has_ink (lstrip s) ≡ has_ink s
unfolding lstrip
has_ink-lstrip [] = refl
has_ink-lstrip (c ∷ cs) = elim (Bool-cases (is_space c)) [
  | inl space ↦ rw space (has_ink-lstrip cs)
  | inr kept ↦ rw (kept, kept) refl
]

has_ink-reverse_aux : (s r : Text) → has_ink (reverse_aux s r) ≡ (has_ink s || has_ink r)
has_ink-reverse_aux [] r = refl
has_ink-reverse_aux (c ∷ cs) r = ground (arith, has_ink-reverse_aux cs (c ∷ r))

has_ink-reverse : (s : Text) → has_ink (reverse s) ≡ has_ink s
has_ink-reverse s = ground (arith, has_ink-reverse_aux s [])

truthy-reverse_aux : (s r : Text) → truthy (reverse_aux s r) ≡ (truthy s || truthy r)
truthy-reverse_aux [] r = refl
truthy-reverse_aux (c ∷ cs) r = ground (arith, truthy-reverse_aux cs (c ∷ r))

truthy-reverse : (s : Text) → truthy (reverse s) ≡ truthy s
truthy-reverse s = ground (arith, truthy-reverse_aux s [])

pub truthy-strip : (s : Text) → truthy (strip s) ≡ has_ink s
unfolding strip rstrip
truthy-strip s =
    truthy-reverse (lstrip (reverse (lstrip s)))
    ∙ truthy-lstrip (reverse (lstrip s))
    ∙ has_ink-reverse (lstrip s)
    ∙ has_ink-lstrip s

has_ink-strip : (s : Text) → has_ink (strip s) ≡ has_ink s
unfolding strip rstrip
has_ink-strip s =
    has_ink-reverse (lstrip (reverse (lstrip s)))
    ∙ has_ink-lstrip (reverse (lstrip s))
    ∙ has_ink-reverse (lstrip s)
    ∙ has_ink-lstrip s

-- Stripping again empties nothing.
pub truthy-strip-strip : (s : Text) → truthy (strip (strip s)) ≡ truthy (strip s)
truthy-strip-strip s = truthy-strip (strip s) ∙ has_ink-strip s ∙ sym (truthy-strip s)
