-- ===== src/Parser/Tests.antt =====
-- The lines of parser_test.go that are not JSON, and the theorem at one of them.
use mathlib.Core.Bool.{xor}
use centi_log.Base.{ℕ, [], none, some, ◌≡◌, refl, Option}
use centi_log.Parser.{
  Times, complete_log, find_whole, first_group, guess_level, parse_format, parse_line,
  parse_syslog_line, parse_text_line, priority_of, syslog_3164, syslog_5424, syslog_level,
  syslog_line_level,
}
use centi_log.Parser.Patterns.{level_pattern, syslog_5424_pattern, syslog_pattern, text_pattern}
use centi_log.Regex.{find_all, find_from, group_text, match, match_at, match_byte, match_star}
use centi_log.Regex.Build.{all_of, any_case, any_of, literal, one_of, times, up_to, word}
use centi_log.Schema.{Log, level_of, normalize_level}
use centi_log.Tailer.{FileLine}
use centi_log.Text.{Text, ascii, codes, is_one_of, text_eq, trim_space}
use centi_log.Text.Decimal.{parse_digits, parse_uint}
use centi_log.Text.Utf8.{to_lower}

abbrev no_json : Text → Option Log
no_json line = none

-- Every time that is asked for is the same instant.
abbrev some_times : Times
some_times = record { timestamp = λ s. some 77; syslog_date = λ s now. some 78 }

abbrev line_of : Text → Text → FileLine
line_of format text = record {
  file = record { path = codes "a.log"; format = format; time_zone = codes "Local" };
  text = text;
  end_offset = 9;
}

abbrev parsed : Text → Text → Log
parsed format text = parse_line ascii no_json some_times (line_of format text) 5

parsing : Unit {0}
unfolding codes parse_line complete_log parse_format parse_syslog_line syslog_3164 syslog_5424
    syslog_line_level parse_text_line guess_level priority_of syslog_level first_group find_whole
    syslog_5424_pattern syslog_pattern text_pattern level_pattern all_of any_of times up_to one_of
    literal any_case word match match_byte match_star match_at find_all find_from group_text
    normalize_level level_of is_one_of text_eq to_lower trim_space parse_uint parse_digits xor
parsing = tt

abbrev Says : Log → Text → Text → Text → ℕ → Type 0
Says log level message host timestamp =
    (log.level ≡ level) × (log.message ≡ message) × (log.host ≡ host) × (log.timestamp ≡ timestamp)

syslog_lines :
    Says
      (parsed (codes "syslog") (codes "<34>Jan  2 08:00:00 app-host sshd[123]: connection denied"))
      (codes "fatal")
      (codes "connection denied")
      (codes "app-host")
      78
    × Says
        (parsed
          (codes "syslog")
          (codes "Jan  2 08:00:00 app-host app[9]: WARNING disk almost full"))
        (codes "warn")
        (codes "WARNING disk almost full")
        (codes "app-host")
        78
    × Says
        (parsed
          (codes "syslog")
          (codes "<34>1 2024-02-03T04:05:06.789+05:30 server-a app 123 ID47 - connection denied"))
        (codes "fatal")
        (codes "connection denied")
        (codes "server-a")
        77
unfolding parsing
syslog_lines = ((refl, refl, refl, refl), (refl, refl, refl, refl), (refl, refl, refl, refl))

text_lines :
    Says
      (parsed (codes "text") (codes "2024-02-03T04:05:06.123+05:30 ERROR request failed"))
      (codes "error")
      (codes "request failed")
      []
      77
    × Says
        (parsed (codes "text") (codes "2024-02-03 04:05:06 [INFO] started"))
        (codes "info")
        (codes "started")
        []
        77
    × Says
        (parsed (codes "auto") (codes "2024-02-03T04:05:06Z ERROR text event"))
        (codes "error")
        (codes "text event")
        []
        77
    × Says
        (parsed (codes "auto") (codes "worker ERROR while saving"))
        (codes "error")
        (codes "worker ERROR while saving")
        []
        0
    × Says (parsed (codes "auto") (codes "x CRITICAL")) (codes "fatal") (codes "x CRITICAL") [] 0
unfolding parsing
text_lines = (
  (refl, refl, refl, refl),
  (refl, refl, refl, refl),
  (refl, refl, refl, refl),
  (refl, refl, refl, refl),
  (refl, refl, refl, refl),
)

-- A line that was joined with a continuation line is not read in its format: it keeps its whole
-- text as the message and loses its timestamp.
joined_line :
    Says
      (parsed (codes "text") (codes "2024-02-03 04:05:06 [WARN] started\n  at main"))
      (codes "warn")
      (codes "2024-02-03 04:05:06 [WARN] started\n  at main")
      []
      0
unfolding parsing
joined_line = (refl, refl, refl, refl)
