-- ===== src/Parser/Patterns.antt =====
-- The regular expressions of cmd/agent/parser.go, with the groups that the code reads.
use centi_log.Base.{ℕ, Bool, List, [], ◌∷◌, String, not, ◌==◌, ◌||◌}
use centi_log.Regex.{empty, byte, seq, alt, star, group, boundary, Re}
use centi_log.Regex.Build.{all_of, any_of, is, none_of, optional, plus, range, repeat, times, word}
use centi_log.Text.{codes}

abbrev decimal : ℕ → Bool
decimal = range b'0' b'9'

abbrev letter : ℕ → Bool
letter b = range b'A' b'Z' b || range b'a' b'z' b

-- `\s` and `\S`
abbrev blank : ℕ → Bool
blank b = b == 9 || b == 10 || b == 12 || b == 13 || b == 32

abbrev blanks : Re
blanks = plus (byte blank)

abbrev field : Re
field = plus (byte (λ b. not (blank b)))

-- `.`
abbrev any_byte : ℕ → Bool
any_byte b = not (b == 10)

abbrev decimals : ℕ → Re
decimals n = times n (byte decimal)

abbrev one : ℕ → Re
one b = byte (is b)

abbrev clock_time : Re
clock_time = all_of (decimals 2 ∷ one b':' ∷ decimals 2 ∷ one b':' ∷ decimals 2 ∷ [])

-- Each field after the version: blanks, and the group of that number.
abbrev fields : List ℕ → Re
fields [] = empty
fields (n ∷ ns) = seq blanks (seq (group n field) (fields ns))

unfoldable pub syslog_5424_pattern : Re
syslog_5424_pattern = all_of (
    one b'<'
    ∷ group 1 (repeat 1 2 (byte decimal))
    ∷ one b'>'
    ∷ group 2 (plus (byte decimal))
    ∷ fields (3 ∷ 4 ∷ 5 ∷ 6 ∷ 7 ∷ 8 ∷ [])
    ∷ optional (group 9 (seq blanks (group 10 (star (byte any_byte)))))
    ∷ [])

unfoldable pub syslog_pattern : Re
syslog_pattern = all_of (
    star (byte blank)
    ∷ optional (group 1 (all_of (one b'<' ∷ group 2 (repeat 1 2 (byte decimal)) ∷ one b'>' ∷ [])))
    ∷ group 3 (
        all_of (
          byte (range b'A' b'Z')
          ∷ times 2 (byte (range b'a' b'z'))
          ∷ blanks
          ∷ repeat 1 1 (byte decimal)
          ∷ blanks
          ∷ clock_time
          ∷ []))
    ∷ blanks
    ∷ group 4 field
    ∷ blanks
    ∷ group 5 (plus (byte (none_of (b':' ∷ []))))
    ∷ one b':'
    ∷ optional (byte blank)
    ∷ group 6 (star (byte any_byte))
    ∷ [])

abbrev offset : Re
offset = all_of (byte (λ b. b == b'+' || b == b'-') ∷ decimals 2 ∷ one b':' ∷ decimals 2 ∷ [])

unfoldable pub text_pattern : Re
text_pattern = all_of (
    group 1 (
      all_of (
        decimals 4
        ∷ one b'-'
        ∷ decimals 2
        ∷ one b'-'
        ∷ decimals 2
        ∷ byte (λ b. b == b'T' || b == b' ')
        ∷ clock_time
        ∷ optional (group 2 (seq (one b'.') (plus (byte decimal))))
        ∷ optional (group 3 (alt (one b'Z') offset))
        ∷ []))
    ∷ blanks
    ∷ optional (one b'[')
    ∷ group 4 (plus (byte letter))
    ∷ optional (one b']')
    ∷ blanks
    ∷ group 5 (star (byte any_byte))
    ∷ [])

abbrev name : String → Re
name s = word (codes s)

unfoldable pub level_pattern : Re
level_pattern = all_of (
    boundary
    ∷ group 1 (
        any_of (name "trace") (
          name "debug"
          ∷ name "info"
          ∷ name "warning"
          ∷ name "warn"
          ∷ name "error"
          ∷ name "err"
          ∷ name "critical"
          ∷ name "fatal"
          ∷ name "panic"
          ∷ []))
    ∷ boundary
    ∷ [])
