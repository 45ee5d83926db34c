-- ===== src/Text.antt =====
-- Go's `string` as its bytes, and the functions of `strings`, `unicode` and `unicode/utf8` that the
-- program calls. Only the Unicode tables above U+007F are a parameter.
pub mod Utf8
pub mod Decimal
pub mod Equality
pub mod Trimmed
pub mod Split
pub mod Base64
pub mod Integers
use Prim.Native.Char.{code}
use centi_log.Base.{
  ℕ, zero, suc, Bool, true, false, ◌&&◌, ◌||◌, List, [], ◌∷◌, reverse, String, leb, ◌==◌,
  if◌then◌else◌,
}

abbrev pub Text : Type 0
Text = List ℕ

-- The bytes of an ASCII literal of the source.
unfoldable pub codes : String → Text
codes String.[] = []
codes (String.◌∷◌ c s) = code c ∷ codes s

-- `s == t`
unfoldable pub text_eq : Text → Text → Bool
text_eq [] [] = true
text_eq [] (b ∷ t) = false
text_eq (a ∷ s) [] = false
text_eq (a ∷ s) (b ∷ t) = a == b && text_eq s t

-- A `switch` case with several literals.
unfoldable pub is_one_of : Text → List String → Bool
unfolding codes text_eq
is_one_of s [] = false
is_one_of s (w ∷ ws) = text_eq s (codes w) || is_one_of s ws

-- `strings.HasPrefix(s, p)`
unfoldable pub has_prefix : Text → Text → Bool
has_prefix s [] = true
has_prefix [] (b ∷ p) = false
has_prefix (a ∷ s) (b ∷ p) = a == b && has_prefix s p

-- `strings.HasSuffix(s, p)`
unfoldable pub has_suffix : Text → Text → Bool
unfolding has_prefix
has_suffix s p = has_prefix (reverse s) (reverse p)

-- `strings.Contains(s, p)`
unfoldable pub contains : Text → Text → Bool
unfolding has_prefix
contains [] p = has_prefix [] p
contains (a ∷ s) p = has_prefix (a ∷ s) p || contains s p

-- The width in bytes of the white space (`unicode.IsSpace`) at the head of a text; 0 if none.
abbrev is_ascii_space : ℕ → Bool
is_ascii_space b = (leb 9 b && leb b 13) || b == 32

abbrev is_wide_space : ℕ → ℕ → ℕ → Bool
is_wide_space a b c =
    (a == 0xE1 && b == 0x9A && c == 0x80)
    || (a == 0xE2
        && b == 0x80
        && ((leb 0x80 c && leb c 0x8A) || c == 0xA8 || c == 0xA9 || c == 0xAF))
    || (a == 0xE2 && b == 0x81 && c == 0x9F)
    || (a == 0xE3 && b == 0x80 && c == 0x80)

abbrev is_latin_space : ℕ → ℕ → Bool
is_latin_space a b = a == 0xC2 && (b == 0x85 || b == 0xA0)

unfoldable pub space_width : Text → ℕ
space_width [] = 0
space_width (a ∷ []) = if is_ascii_space a then 1 else 0
space_width (a ∷ b ∷ []) = if is_ascii_space a then 1 else if is_latin_space a b then 2 else 0
space_width (a ∷ b ∷ c ∷ r) =
    if is_ascii_space a
    then 1
    else if is_latin_space a b
    then 2
    else if is_wide_space a b c
    then 3
    else 0

-- The same at the end of a text that is given from its last byte on.
unfoldable pub space_width_back : Text → ℕ
space_width_back [] = 0
space_width_back (a ∷ []) = if is_ascii_space a then 1 else 0
space_width_back (a ∷ b ∷ []) = if is_ascii_space a then 1 else if is_latin_space b a then 2 else 0
space_width_back (a ∷ b ∷ c ∷ r) =
    if is_ascii_space a
    then 1
    else if is_latin_space b a
    then 2
    else if is_wide_space c b a
    then 3
    else 0

-- Drops what `width` finds at the head, again and again; `skip` bytes are still to be dropped.
unfoldable pub trim_by : (Text → ℕ) → ℕ → Text → Text
trim_by width skip [] = []
trim_by width (suc k) (a ∷ r) = trim_by width k r
trim_by width zero (a ∷ r) = elim (width (a ∷ r)) [ zero ↦ a ∷ r | suc k ↦ trim_by width k r ]

-- `strings.TrimSpace(s)`
unfoldable pub trim_space : Text → Text
unfolding trim_by space_width space_width_back
trim_space s = reverse (trim_by space_width_back 0 (reverse (trim_by space_width 0 s)))

-- `unicode.IsLetter`, `IsDigit` and `ToLower` above U+007F.
pub record Unicode : Type 0 where
  pub letter : ℕ → Bool
  pub digit : ℕ → Bool
  pub lower : ℕ → ℕ

-- Tables that know no letter or digit above U+007F.
abbrev pub ascii : Unicode
ascii = record { letter = λ r. false; digit = λ r. false; lower = λ r. r }
