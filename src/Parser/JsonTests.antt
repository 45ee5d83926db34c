-- ===== src/Parser/JsonTests.antt =====
-- JSON lines of parser_test.go, and the theorem at one of them.
use centi_log.Base.{[], ◌∷◌, none, some, ◌≡◌, refl, arith, if◌then◌else◌}
use centi_log.Buffer.{name_lt}
use centi_log.Dict.{Dict, lookup, insert, erase}
use centi_log.Parser.{Times, syslog_level, parse_line, parse_format, complete_log}
use centi_log.Parser.Json.{
  Json, json_other, parse_json_line, set_fields, set_field, sort_keys, put_key, raw_value, role_of,
  normalize_field_name, without_separators, parse_json_timestamp, level_of_priority, set_attributes,
}
use centi_log.Parser.Unknown.{own_attribute, parse_line-attributes}
use centi_log.Schema.{Log, normalize_level, level_of}
use centi_log.Tailer.{FileLine}
use centi_log.Text.{ascii, codes, Text, text_eq, is_one_of, trim_space}
use centi_log.Text.Decimal.{parse_uint, parse_digits}
use centi_log.Text.Integers.{parse_int, signed}
use centi_log.Text.Utf8.{to_lower}

abbrev fields : Dict Text
fields =
    (codes "user_id", codes "17")
    ∷ (codes "ts", codes "soon")
    ∷ (codes "Trace-ID", codes "abc")
    ∷ (codes "priority", codes "12")
    ∷ (codes "msg", codes "hi")
    ∷ []

-- One line is an object; every value is a text without quotes, and no text is a time.
abbrev reader : Json
reader = record {
  object = λ s. if text_eq s (codes "{}") then some fields else none;
  string = λ s. none;
  boolean = λ s. none;
  decode = λ s. some json_other;
  epoch = λ s. none;
}

abbrev no_times : Times
no_times = record { timestamp = λ s. none; syslog_date = λ s now. none }

abbrev json_line : FileLine
json_line = record {
  file = record { path = codes "a.log"; format = codes "auto"; time_zone = codes "Local" };
  text = codes "{}";
  end_offset = 3;
}

abbrev read_line : Log
read_line = parse_line ascii (parse_json_line reader no_times ascii) no_times json_line 5

reading_json : Unit {0}
unfolding codes parse_line complete_log parse_format parse_json_line set_fields set_field sort_keys
    put_key name_lt raw_value role_of normalize_field_name without_separators parse_json_timestamp
    level_of_priority set_attributes lookup insert erase text_eq is_one_of to_lower trim_space
    normalize_level level_of own_attribute parse_int signed parse_uint parse_digits syslog_level
reading_json = tt

known_fields :
    (read_line.level ≡ codes "warn")
    × (read_line.message ≡ codes "hi")
    × (read_line.trace_id ≡ codes "abc")
    × (lookup (codes "ts") read_line.attributes ≡ some (codes "soon"))
unfolding reading_json
known_fields = (refl, refl, refl, refl)

parse_line-attributes_example :
    lookup (codes "user_id") read_line.attributes ≡ (elim (lookup (codes "user_id") fields) [
      | some raw ↦
          own_attribute ascii reader no_times
            (role_of (normalize_field_name ascii (codes "user_id")))
            raw
      | none ↦ none
    ])
unfolding reading_json
parse_line-attributes_example =
    parse_line-attributes ascii reader no_times json_line 5 fields refl refl refl
      (refl, (refl, (refl, (refl, (refl, tt)))))
      (ground arith, (ground arith, (ground arith, (ground arith, (ground arith, tt)))))
      (codes "user_id")
