-- ===== src/Base/Uuid.antt =====
-- The text of a UUID, `str` and `UUID` of Python's uuid module: thirty-two hexadecimal digits in
-- groups of 8, 4, 4, 4 and 12. A UUID is a number below 2 ^ 128.
use Prim.Native.Nat.{ℕ, zero, suc, ◌+◌, ◌-◌, ◌*◌, ◌/◌, ◌%◌, ◌<◌}
use mathlib.Core.Bool.{◌&&◌}
use mathlib.Core.List.{[], ◌∷◌, ◌++◌, map}
use mathlib.Core.Option.{Option, none, some}
use mathlib.Core.Path.{subst, ◌≡◌, sym, ◌∙◌}
use native.Mathlib.Omega.{arith}
use mathlib.Core.Logic.{inl, inr}
use field_service_management.Base.Tests.{ltb, leb, Option-cases, if◌then◌else◌}
use field_service_management.Base.Text.{Text}

-- One digit, in lower case.
unfoldable pub hex_digit : ℕ → ℕ
hex_digit d = if ltb d 10 then b'0' + d else b'a' + (d - 10)

-- What `re.IGNORECASE` compares, among the characters of the patterns here: the letters without
-- their case, and LATIN SMALL LETTER LONG S as an s.
unfoldable pub fold_case : ℕ → ℕ
fold_case c =
    if leb b'A' c && leb c b'Z' then c + 32 else if leb 0x17f c && leb c 0x17f then b's' else c

-- The value of one digit of either case.
unfoldable pub hex_value : ℕ → Option ℕ
hex_value c =
    if leb b'0' c && leb c b'9'
    then some (c - b'0')
    else if leb b'a' c && leb c b'f'
    then some (c - b'a' + 10)
    else if leb b'A' c && leb c b'F'
    then some (c - b'A' + 10)
    else none

-- `n >> 4 * k`.
unfoldable pub drop_digits : ℕ → ℕ → ℕ
drop_digits zero n = n
drop_digits (suc k) n = drop_digits k n / 16

-- The `len` digits of `n` that stand above its last `low`.
unfoldable pub hex_run : ℕ → ℕ → ℕ → Text
hex_run zero low n = []
hex_run (suc len) low n = hex_digit (drop_digits (len + low) n % 16) ∷ hex_run len low n

unfoldable pub uuid_text : ℕ → Text
unfolding hex_run
uuid_text n =
    hex_run 8 24 n
    ++ (b'-'
        ∷ (hex_run 4 20 n
            ++ (b'-' ∷ (hex_run 4 16 n ++ (b'-' ∷ (hex_run 4 12 n ++ (b'-' ∷ hex_run 12 0 n)))))))

-- Reads so many digits after those that `acc` holds.
unfoldable pub read_hex : ℕ → ℕ → Text → Option (ℕ × Text)
read_hex zero acc s = some (acc, s)
read_hex (suc len) acc [] = none
read_hex (suc len) acc (c ∷ s) = elim (hex_value c) [
  | none ↦ none
  | some d ↦ read_hex len (acc * 16 + d) s
]

pub hex_value-hex_digit : (d : ℕ) → d < 16 → hex_value (hex_digit d) ≡ some d
unfolding hex_value hex_digit
hex_value-hex_digit d h = ground arith

pub fold_case-hex_digit : (d : ℕ) → d < 16 → fold_case (hex_digit d) ≡ hex_digit d
unfolding fold_case hex_digit
fold_case-hex_digit d h = ground arith

pub fold_case-hex_value : (c d : ℕ) → hex_value c ≡ some d → (d < 16) × (fold_case c ≡ hex_digit d)
unfolding hex_value fold_case hex_digit
fold_case-hex_value c d h = ground arith

-- What was written is read back.
pub read_hex-hex_run :
    (len low n : ℕ) (s : Text)
    → read_hex len (drop_digits (len + low) n) (hex_run len low n ++ s)
      ≡ some (drop_digits low n, s)
unfolding read_hex hex_run drop_digits
read_hex-hex_run zero low n s = let e : 0 + low ≡ low = omega arith in rw e
read_hex-hex_run (suc len) low n s =
    let e : suc len + low ≡ suc (len + low) = omega arith in
    rw (hex_value-hex_digit (drop_digits (len + low) n % 16) (omega arith), e, read_hex)
      (subst (λ top. read_hex len top (hex_run len low n ++ s) ≡ some (drop_digits low n, s))
        (omega arith) (read_hex-hex_run len low n s))

-- What was read is what `hex_run` writes, up to case.
pub hex_run-read_hex :
    (len acc x : ℕ) (s t : Text)
    → read_hex len acc s ≡ some (x, t)
    → (drop_digits len x ≡ acc) × (map fold_case s ≡ hex_run len 0 x ++ map fold_case t)
unfolding read_hex hex_run drop_digits
hex_run-read_hex zero acc x s t h = ground arith
hex_run-read_hex (suc len) acc x [] t h = ground arith
hex_run-read_hex (suc len) acc x (c ∷ s) t h = elim (Option-cases (hex_value c)) [
  | inl missing ↦ ground (arith)
  | inr (d, e) ↦
      let (top, tail) = hex_run-read_hex len (acc * 16 + d) x s t (sym (rw (e, read_hex)) ∙ h) in
      let (small, folded) = fold_case-hex_value c d e in
      let zeroes : len + 0 ≡ len = omega arith in
      let last : drop_digits len x % 16 ≡ d = omega arith in
      (omega arith, rw (folded, tail, zeroes, last))
]
