-- ===== src/Parser.antt =====
-- cmd/agent/parser.go: the formats of a line, and the level of one that has none; JSON is in
-- Parser/Json, and an argument here. Parameters: `time.Parse` and `time.ParseInLocation`, by way of
-- `parseTimestampString` and the date of a syslog line, in the zone of the file.
pub mod Patterns
pub mod Json
pub mod Unknown
mod Tests
mod JsonTests
use centi_log.Base.{
  ℕ, Bool, List, [], ◌∷◌, Option, none, some, false, if◌then◌else◌, leb, ltb, ◌%◌, ◌==◌, ◌||◌,
}
use centi_log.Parser.Patterns.{level_pattern, syslog_5424_pattern, syslog_pattern, text_pattern}
use centi_log.Regex.{Cursor, Re, find_all, group_text, match}
use centi_log.Regex.Build.{times, word}
use centi_log.Schema.{Log, normalize_level}
use centi_log.Tailer.{FileLine, FileConfig}
use centi_log.Text.{Text, Unicode, codes, text_eq, trim_space}
use centi_log.Text.Decimal.{parse_uint}
use centi_log.Text.Utf8.{to_lower}

-- `re.FindStringSubmatch(s)` for an expression between `^` and `$`: the groups.
unfoldable pub find_whole : Re → Text → Option (List (ℕ × ℕ × ℕ))
find_whole re s =
    let at_end : Cursor → Option Cursor = λ c. elim c.rest [ [] ↦ some c | b ∷ r ↦ none ] in
    elim (match re (record { before = none; index = 0; rest = s; groups = [] }) at_end) [
      | none ↦ none
      | some c ↦ some c.groups
    ]

-- `re.FindStringSubmatch(s)` for one that takes at least one byte: the first match.
unfoldable pub first_group : Re → Text → Option Text
first_group re s = elim (find_all re s) [ [] ↦ none | m ∷ ms ↦ some (group_text s 1 m.groups) ]

-- `syslogLevel`
unfoldable pub syslog_level : ℕ → Text
syslog_level severity =
    if leb severity 2
    then codes "fatal"
    else if severity == 3
    then codes "error"
    else if severity == 4
    then codes "warn"
    else if severity == 5 || severity == 6
    then codes "info"
    else if severity == 7
    then codes "debug"
    else codes "info"

-- A record of which nothing is known.
abbrev pub empty_log : Log
empty_log = record {
  timestamp = 0;
  service = [];
  host = [];
  env = [];
  level = [];
  message = [];
  trace_id = [];
  attributes = [];
  redacted = false;
  ingested_at = 0;
  retention_days = 0;
}

-- `strconv.Atoi` of at most three digits, and the bound on a priority.
unfoldable pub priority_of : Text → Option ℕ
priority_of s = elim (parse_uint s) [ none ↦ none | some n ↦ if ltb 191 n then none else some n ]

-- What the standard library reads of a time, in the zone of a file: `parseTimestampString`, and the
-- date of a syslog line, whose year is that of the instant it is given.
pub record Times : Type 0 where
  pub timestamp : Text → Option ℕ
  pub syslog_date : Text → ℕ → Option ℕ

module _ (u : Unicode) where
  -- `guessLevel`
  unfoldable pub guess_level : Text → Text
  guess_level message = elim (first_group level_pattern message) [
    | none ↦ codes "info"
    | some word ↦ normalize_level u word
  ]

  -- `parseTextLine`
  unfoldable pub parse_text_line : Times → Text → Option Log
  parse_text_line times line = elim (find_whole text_pattern line) [
    | none ↦ none
    | some groups ↦ elim (times.timestamp (group_text line 1 groups)) [
      | none ↦ none
      | some timestamp ↦ some (record empty_log {
        timestamp = timestamp;
        level = group_text line 4 groups;
        message = group_text line 5 groups;
      })
    ]
  ]

  -- The first half of `parseSyslogLine`, once the pattern of RFC 5424 matches.
  unfoldable pub syslog_5424 : Times → Text → List (ℕ × ℕ × ℕ) → Option Log
  syslog_5424 times line groups =
      let text : ℕ → Text = λ n. group_text line n groups in
      let read : Option ℕ =
        if text_eq (text 3) (codes "-") then some 0 else times.timestamp (text 3) in
      elim (priority_of (text 1)) [
        | none ↦ none
        | some priority ↦ elim read [
          | none ↦ none
          | some timestamp ↦ some (record empty_log {
            timestamp = timestamp;
            host = text 4;
            level = syslog_level (priority % 8);
            message = text 10;
            attributes =
                (codes "syslog_program", text 5)
                ∷ (codes "syslog_procid", text 6)
                ∷ (codes "syslog_msgid", text 7)
                ∷ (codes "syslog_structured_data", text 8)
                ∷ [];
          })
        ]
      ]

  -- The level of an older syslog line; none where its priority is refused.
  unfoldable pub syslog_line_level : Text → List (ℕ × ℕ × ℕ) → Option Text
  syslog_line_level line groups = elim (group_text line 2 groups) [
    | [] ↦ some (guess_level (group_text line 6 groups))
    | b ∷ rest ↦ elim (priority_of (b ∷ rest)) [
      | none ↦ none
      | some priority ↦ some (syslog_level (priority % 8))
    ]
  ]

  -- The second half of `parseSyslogLine`.
  unfoldable pub syslog_3164 : Times → Text → ℕ → List (ℕ × ℕ × ℕ) → Option Log
  syslog_3164 times line now groups = elim (times.syslog_date (group_text line 3 groups) now) [
    | none ↦ none
    | some timestamp ↦ elim (syslog_line_level line groups) [
      | none ↦ none
      | some level ↦ some (record empty_log {
        timestamp = timestamp;
        host = group_text line 4 groups;
        level = level;
        message = group_text line 6 groups;
        attributes = (codes "syslog_program", group_text line 5 groups) ∷ [];
      })
    ]
  ]

  -- `parseSyslogLine`
  unfoldable pub parse_syslog_line : Times → Text → ℕ → Option Log
  parse_syslog_line times line now = elim (find_whole syslog_5424_pattern line) [
    | some groups ↦ syslog_5424 times line groups
    | none ↦ elim (find_whole syslog_pattern line) [
      | none ↦ none
      | some groups ↦ syslog_3164 times line now groups
    ]
  ]

  -- `if !ok { parsed, ok = … }`
  abbrev pub or_parse : Option Log → Option Log → Option Log
  or_parse (some log) other = some log
  or_parse none other = other

  -- The rest of `ParseLine`.
  unfoldable pub complete_log : Text → Log → Log
  complete_log line parsed =
      let message : Text = elim parsed.message [ [] ↦ line | b ∷ rest ↦ b ∷ rest ] in
      let level : Text = elim parsed.level [ [] ↦ guess_level message | b ∷ rest ↦ b ∷ rest ] in
      record parsed { message = message; level = normalize_level u level }

  module _ (parse_json : Text → Option Log) (times : Times) where
    -- The `switch` on the format in `ParseLine`.
    unfoldable pub parse_format : Text → Text → ℕ → Option Log
    parse_format format line now =
        if text_eq format (codes "json")
        then parse_json line
        else if text_eq format (codes "syslog")
        then parse_syslog_line times line now
        else if text_eq format (codes "text")
        then parse_text_line times line
        else or_parse (parse_json line)
            (or_parse (parse_syslog_line times line now) (parse_text_line times line))

    -- `ParseLine`
    unfoldable pub parse_line : FileLine → ℕ → Log
    parse_line line now =
        let lowered = to_lower u (trim_space line.file.format) in
        complete_log line.text (elim (parse_format lowered line.text now) [
          | some parsed ↦ parsed
          | none ↦ record empty_log { message = line.text; level = guess_level line.text }
        ])
