-- ===== src/Regex.antt =====
-- Go's `regexp` as the program uses it: leftmost-first matching of the few forms of expression that
-- its patterns need, over the bytes of a text. A class that the pattern negates holds every byte of
-- a multi-byte character, so that a repetition of it takes what the repetition over runes takes.
pub mod Runs
pub mod Build
pub mod Matches
pub mod Endings
use mathlib.Core.Bool.{xor}
use centi_log.Base.{
  Bool, List, Option, [], drop, false, if◌then◌else◌, leb, length, none, some, suc, take, true,
  zero, ℕ, ◌&&◌, ◌++◌, ◌+◌, ◌-◌, ◌==◌, ◌||◌, ◌∷◌,
}
use centi_log.Text.{Text}

pub data Re : Type 0 where
  empty : Re
  byte : (ℕ → Bool) → Re
  seq alt : Re → Re → Re
  star : Re → Re
  group : ℕ → Re → Re
  boundary : Re

-- A position in a text: the byte before it, its index, what follows, and the groups that are set,
-- the last first, as their start and end.
pub record Cursor : Type 0 where
  pub before : Option ℕ
  pub index : ℕ
  pub rest : Text
  pub groups : List (ℕ × ℕ × ℕ)

-- `\b` is an ASCII word boundary.
abbrev pub is_word : ℕ → Bool
is_word b =
    (leb b'0' b && leb b b'9')
    || (leb b'A' b && leb b b'Z')
    || (leb b'a' b && leb b b'z')
    || b == b'_'

abbrev pub word_before : Option ℕ → Bool
word_before none = false
word_before (some b) = is_word b

abbrev pub word_after : Text → Bool
word_after [] = false
word_after (b ∷ r) = is_word b

abbrev pub at_boundary : Cursor → Bool
at_boundary c = xor (word_before c.before) (word_after c.rest)

abbrev pub advance : Cursor → ℕ → Text → Cursor
advance c b r = record c { before = some b; index = c.index + 1; rest = r }

abbrev pub set_group : ℕ → ℕ → Cursor → Cursor
set_group n start c = record c { groups = (n, start, c.index) ∷ c.groups }

abbrev pub or_else : Option Cursor → Option Cursor → Option Cursor
or_else none other = other
or_else (some c) other = some c

unfoldable pub match_byte : (ℕ → Bool) → (Cursor → Option Cursor) → Cursor → Text → Option Cursor
match_byte p k c [] = none
match_byte p k c (b ∷ r) = elim (p b) [ true ↦ k (advance c b r) | false ↦ none ]

-- A greedy repetition: another round is preferred, and every round takes at least one byte, so
-- that `fuel` rounds are enough where no more bytes are left.
unfoldable pub match_star :
    ℕ
    → (Cursor → (Cursor → Option Cursor) → Option Cursor)
    → (Cursor → Option Cursor)
    → Cursor
    → Option Cursor
match_star zero body k c = k c
match_star (suc fuel) body k c = elim (body c (match_star fuel body k)) [
  | some found ↦ some found
  | none ↦ k c
]

-- The first match in the order of preference that the continuation `k` accepts.
unfoldable pub match : Re → Cursor → (Cursor → Option Cursor) → Option Cursor
match empty c k = k c
match (byte p) c k = match_byte p k c c.rest
match (seq a b) c k = match a c (λ c'. match b c' k)
match (alt a b) c k = elim (match a c k) [ some found ↦ some found | none ↦ match b c k ]
match (star a) c k = match_star (length c.rest) (match a) k c
match (group n a) c k = match a c (λ c'. k (set_group n c.index c'))
match boundary c k = elim (at_boundary c) [ true ↦ k c | false ↦ none ]

-- A match that begins at a position.
unfoldable pub match_at : Re → Option ℕ → ℕ → Text → Option Cursor
match_at re before index rest =
    match re (record { before = before; index = index; rest = rest; groups = [] }) some

-- A match: where it begins, and the position behind it.
pub record Match : Type 0 where
  pub start : ℕ
  pub end : ℕ
  pub groups : List (ℕ × ℕ × ℕ)

-- `re.FindAllStringIndex(s, -1)` for an expression that takes at least one byte: the leftmost match,
-- then the leftmost one behind it; `skip` bytes still belong to the last match.
unfoldable pub find_from : Re → ℕ → Option ℕ → ℕ → Text → List Match
find_from re skip before index [] = []
find_from re (suc k) before index (b ∷ r) = find_from re k (some b) (index + 1) r
find_from re zero before index (b ∷ r) = elim (match_at re before index (b ∷ r)) [
  | none ↦ find_from re 0 (some b) (index + 1) r
  | some c ↦
      record { start = index; end = c.index; groups = c.groups }
      ∷ find_from re (c.index - index - 1) (some b) (index + 1) r
]

unfoldable pub find_all : Re → Text → List Match
find_all re s = find_from re 0 none 0 s

-- `s[i:j]`
abbrev pub slice : Text → ℕ → ℕ → Text
slice s i j = take (j - i) (drop i s)

-- The text of a group; empty if it took no part.
unfoldable pub group_text : Text → ℕ → List (ℕ × ℕ × ℕ) → Text
group_text s n [] = []
group_text s n ((m, i, j) ∷ groups) = if n == m then slice s i j else group_text s n groups

-- `re.ReplaceAllStringFunc(s, f)`, where `f` is also told the groups; from a position on.
unfoldable pub replace_from : (Text → Match → Text) → Text → ℕ → List Match → Text
replace_from f s from [] = drop from s
replace_from f s from (m ∷ ms) = slice s from m.start ++ (f s m ++ replace_from f s m.end ms)

unfoldable pub replace_all : Re → (Text → Match → Text) → Text → Text
replace_all re f s = replace_from f s 0 (find_all re s)
