-- ===== src/Regex/Build.antt =====
-- The notation of regular expressions: classes, literals, optional parts and counted repetitions.
use centi_log.Base.{
  Bool, List, [], false, if◌then◌else◌, leb, not, suc, zero, ℕ, ◌&&◌, ◌+◌, ◌==◌, ◌||◌, ◌∷◌,
}
use centi_log.Regex.{empty, byte, seq, alt, star, Re}
use centi_log.Text.{Text}

-- One byte; a byte of an interval; one of some bytes; any byte but some.
abbrev pub is : ℕ → ℕ → Bool
is a b = b == a

abbrev pub range : ℕ → ℕ → ℕ → Bool
range lo hi b = leb lo b && leb b hi

unfoldable pub one_of : Text → ℕ → Bool
one_of [] b = false
one_of (a ∷ set) b = b == a || one_of set b

abbrev pub none_of : Text → ℕ → Bool
none_of set b = not (one_of set b)

-- `a?` and `a+`
abbrev pub optional : Re → Re
optional a = alt a empty

abbrev pub plus : Re → Re
plus a = seq a (star a)

-- `a{n}`, `a{0,n}` and `a{lo,lo+n}`
unfoldable pub times : ℕ → Re → Re
times zero a = empty
times (suc n) a = seq a (times n a)

unfoldable pub up_to : ℕ → Re → Re
up_to zero a = empty
up_to (suc n) a = optional (seq a (up_to n a))

abbrev pub repeat : ℕ → ℕ → Re → Re
repeat lo n a = seq (times lo a) (up_to n a)

-- A sequence, and a choice, of several.
unfoldable pub all_of : List Re → Re
all_of [] = empty
all_of (a ∷ more) = seq a (all_of more)

unfoldable pub any_of : Re → List Re → Re
any_of a [] = a
any_of a (b ∷ bs) = alt a (any_of b bs)

-- A literal.
unfoldable pub literal : Text → Re
literal [] = empty
literal (b ∷ t) = seq (byte (is b)) (literal t)

-- A letter in either case. Under `(?i)` an `s` is also the long s (U+017F), and a `k` the Kelvin
-- sign (U+212A).
unfoldable pub any_case : ℕ → Re
unfolding literal
any_case b =
    let both = byte (λ c. c == b || c + 32 == b) in
    if b == b's'
    then alt both (literal (0xC5 ∷ 0xBF ∷ []))
    else if b == b'k'
    then alt both (literal (0xE2 ∷ 0x84 ∷ 0xAA ∷ []))
    else both

-- A literal of lower-case letters under `(?i)`.
unfoldable pub word : Text → Re
word [] = empty
word (b ∷ t) = seq (any_case b) (word t)
