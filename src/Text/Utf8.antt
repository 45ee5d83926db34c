-- ===== src/Text/Utf8.antt =====
-- `unicode/utf8`: decoding and encoding of runes, and what the program builds on them.
use mathlib.Core.List.{flatten}
use centi_log.Base.{
  ℕ, zero, suc, ◌+◌, ◌-◌, ◌*◌, ◌/◌, ◌%◌, Bool, ◌&&◌, ◌||◌, List, [], ◌∷◌, map, reverse, ltb, leb,
  ◌==◌, if◌then◌else◌,
}
use centi_log.Text.{Text, Unicode}

-- `utf8.RuneStart(b)`: the byte is no continuation byte.
abbrev pub rune_start : ℕ → Bool
rune_start b = ltb b 0x80 || leb 0xC0 b

abbrev rune_error : ℕ
rune_error = 0xFFFD

abbrev between : ℕ → ℕ → ℕ → Bool
between lo hi b = leb lo b && leb b hi

abbrev is_cont : ℕ → Bool
is_cont b = between 0x80 0xBF b

-- Which second bytes a three-byte and a four-byte sequence allow.
abbrev second_of_three : ℕ → ℕ → Bool
second_of_three a b =
    if a == 0xE0
    then between 0xA0 0xBF b
    else if a == 0xED
    then between 0x80 0x9F b
    else between 0xE1 0xEF a && is_cont b

abbrev second_of_four : ℕ → ℕ → Bool
second_of_four a b =
    if a == 0xF0
    then between 0x90 0xBF b
    else if a == 0xF4
    then between 0x80 0x8F b
    else between 0xF1 0xF3 a && is_cont b

abbrev decode_two : ℕ → ℕ → ℕ × ℕ
decode_two a b =
    if between 0xC2 0xDF a && is_cont b then ((a - 0xC0) * 64 + (b - 0x80), 2) else (rune_error, 1)

abbrev decode_three : ℕ → ℕ → ℕ → ℕ × ℕ
decode_three a b c =
    if second_of_three a b && is_cont c
    then ((a - 0xE0) * 4096 + (b - 0x80) * 64 + (c - 0x80), 3)
    else decode_two a b

abbrev decode_four : ℕ → ℕ → ℕ → ℕ → ℕ × ℕ
decode_four a b c d =
    if second_of_four a b && is_cont c && is_cont d
    then ((a - 0xF0) * 262144 + (b - 0x80) * 4096 + (c - 0x80) * 64 + (d - 0x80), 4)
    else decode_three a b c

-- `utf8.DecodeRuneInString(s)`: the first rune and its width.
unfoldable pub decode_rune : Text → ℕ × ℕ
decode_rune [] = (rune_error, 0)
decode_rune (a ∷ []) = if ltb a 0x80 then (a, 1) else (rune_error, 1)
decode_rune (a ∷ b ∷ []) = if ltb a 0x80 then (a, 1) else decode_two a b
decode_rune (a ∷ b ∷ c ∷ []) = if ltb a 0x80 then (a, 1) else decode_three a b c
decode_rune (a ∷ b ∷ c ∷ d ∷ r) = if ltb a 0x80 then (a, 1) else decode_four a b c d

-- `for _, r := range s`: the runes, where `skip` bytes still belong to the last one.
runes_from : ℕ → Text → List ℕ
unfolding decode_rune
runes_from skip [] = []
runes_from (suc k) (a ∷ r) = runes_from k r
runes_from zero (a ∷ r) = let (rune, width) = decode_rune (a ∷ r) in rune ∷ runes_from (width - 1) r

unfoldable pub runes : Text → List ℕ
unfolding runes_from
runes s = runes_from 0 s

-- `utf8.AppendRune`
unfoldable pub encode_rune : ℕ → Text
encode_rune r =
    if ltb r 0x80
    then r ∷ []
    else if ltb r 0x800
    then (0xC0 + r / 64) ∷ (0x80 + r % 64) ∷ []
    else if ltb r 0x10000
    then (0xE0 + r / 4096) ∷ (0x80 + r / 64 % 64) ∷ (0x80 + r % 64) ∷ []
    else (0xF0 + r / 262144) ∷ (0x80 + r / 4096 % 64) ∷ (0x80 + r / 64 % 64) ∷ (0x80 + r % 64) ∷ []

-- `strings.FieldsFunc` over runes: the maximal runs in which `separates` is false.
fields_from : (ℕ → Bool) → List ℕ → List ℕ → List (List ℕ)
fields_from separates [] [] = []
fields_from separates (c ∷ cur) [] = reverse (c ∷ cur) ∷ []
fields_from separates [] (r ∷ rs) = fields_from separates (if separates r then [] else r ∷ []) rs
fields_from separates (c ∷ cur) (r ∷ rs) =
    let closed = reverse (c ∷ cur) ∷ fields_from separates [] rs in
    let longer = fields_from separates (r ∷ c ∷ cur) rs in if separates r then closed else longer

unfoldable pub fields_func : (ℕ → Bool) → Text → List Text
unfolding runes encode_rune fields_from flatten
fields_func separates s =
    map (λ rs. flatten (map encode_rune rs)) (fields_from separates [] (runes s))

module _ (u : Unicode) where
  -- `unicode.IsLetter`, `unicode.IsDigit`, `unicode.ToLower`
  unfoldable pub is_letter : ℕ → Bool
  is_letter r = if ltb r 0x80 then between b'A' b'Z' r || between b'a' b'z' r else u.letter r

  unfoldable pub is_digit : ℕ → Bool
  is_digit r = if ltb r 0x80 then between b'0' b'9' r else u.digit r

  unfoldable pub lower_rune : ℕ → ℕ
  lower_rune r = if ltb r 0x80 then (if between b'A' b'Z' r then r + 32 else r) else u.lower r

  -- `strings.ToLower(s)`
  unfoldable pub to_lower : Text → Text
  unfolding runes encode_rune lower_rune flatten
  to_lower s = flatten (map (λ r. encode_rune (lower_rune r)) (runes s))
