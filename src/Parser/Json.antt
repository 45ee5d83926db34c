-- ===== src/Parser/Json.antt =====
-- cmd/agent/parser.go: the lines that are JSON. Parameters: `encoding/json`, and the reading of a number
-- as a time in `parseEpoch`, which computes in floating point.
use centi_log.Base.{ℕ, Bool, [], ◌∷◌, Option, none, some, if◌then◌else◌, ltb, ◌%◌, ◌==◌, ◌||◌}
use centi_log.Buffer.{name_lt}
use centi_log.Dict.{Dict, insert}
use centi_log.Parser.{Times, empty_log, syslog_level}
use centi_log.Schema.{Log}
use centi_log.Text.{Text, Unicode, is_one_of, trim_space}
use centi_log.Text.Decimal.{parse_uint}
use centi_log.Text.Integers.{pos, negsuc, parse_int}
use centi_log.Text.Utf8.{to_lower}

-- What `decoder.Decode(&value)` finds, with `UseNumber`.
pub data JsonValue : Type 0 where
  json_number json_string : Text → JsonValue
  json_other : JsonValue

-- `json.Unmarshal` into a map (none for an error or a null), into a string and into a Boolean (none
-- where the variable is left as it was), `decoder.Decode`, and `parseEpoch`.
pub record Json : Type 0 where
  pub object : Text → Option (Dict Text)
  pub string : Text → Option Text
  pub boolean : Text → Option Bool
  pub decode : Text → Option JsonValue
  pub epoch : Text → Option ℕ

-- The cases of the `switch` in `parseJSONLine`.
pub data FieldRole : Type 0 where
  timestamp_field level_field priority_field message_field trace_id_field : FieldRole
  service_field host_field env_field attributes_field redacted_field : FieldRole
  ingested_at_field retention_days_field other_field : FieldRole

unfoldable pub without_separators : Text → Text
without_separators [] = []
without_separators (b ∷ s) =
    let rest = without_separators s in
    if b == b'_' || b == b'-' || b == b'.' || b == b'@' then rest else b ∷ rest

unfoldable pub normalize_field_name : Unicode → Text → Text
normalize_field_name u name = without_separators (to_lower u name)

unfoldable pub role_of : Text → FieldRole
role_of name =
    if is_one_of name ("timestamp" ∷ "time" ∷ "ts" ∷ "datetime" ∷ "date" ∷ "eventtime" ∷ [])
    then timestamp_field
    else if is_one_of name ("level" ∷ "severity" ∷ "loglevel" ∷ [])
    then level_field
    else if is_one_of name ("priority" ∷ [])
    then priority_field
    else if is_one_of name ("message" ∷ "msg" ∷ "log" ∷ "body" ∷ "event" ∷ [])
    then message_field
    else if is_one_of name ("traceid" ∷ [])
    then trace_id_field
    else if is_one_of name ("service" ∷ "servicename" ∷ "application" ∷ "app" ∷ [])
    then service_field
    else if is_one_of name ("host" ∷ "hostname" ∷ "sourcehost" ∷ [])
    then host_field
    else if is_one_of name ("env" ∷ "environment" ∷ "environmentname" ∷ [])
    then env_field
    else if is_one_of name ("attributes" ∷ [])
    then attributes_field
    else if is_one_of name ("redacted" ∷ [])
    then redacted_field
    else if is_one_of name ("ingestedat" ∷ [])
    then ingested_at_field
    else if is_one_of name ("retentiondays" ∷ [])
    then retention_days_field
    else other_field

-- `sort.Strings(keys)`, each key with its field.
unfoldable pub put_key : Text × Text → Dict Text → Dict Text
put_key e [] = e ∷ []
put_key e (f ∷ rest) =
    let later = put_key e rest in if name_lt f.0 e.0 then f ∷ later else e ∷ f ∷ rest

unfoldable pub sort_keys : Dict Text → Dict Text
sort_keys [] = []
sort_keys (e ∷ rest) = put_key e (sort_keys rest)

-- `rawValue`
unfoldable pub raw_value : Json → Text → Text
raw_value json raw = elim (json.string raw) [ some value ↦ value | none ↦ trim_space raw ]

-- `strconv.Atoi`, and the bounds of a priority.
unfoldable pub level_of_priority : Text → Text
level_of_priority s = elim (parse_int s) [
  | none ↦ s
  | some n ↦ elim n [
    | pos priority ↦ if ltb 191 priority then s else syslog_level (priority % 8)
    | negsuc m ↦ s
  ]
]

module _ (json : Json) (times : Times) where
  -- `parseJSONTimestamp`
  unfoldable pub parse_json_timestamp : Text → Option ℕ
  parse_json_timestamp raw = elim (json.decode raw) [
    | none ↦ none
    | some value ↦ elim value [
      | json_number s ↦ json.epoch s
      | json_string s ↦ elim (json.epoch s) [ some time ↦ some time | none ↦ times.timestamp s ]
      | json_other ↦ none
    ]
  ]

  -- The loop over the fields of `attributes`.
  unfoldable pub set_attributes : Dict Text → Dict Text → Dict Text
  set_attributes [] attributes = attributes
  set_attributes ((key, value) ∷ rest) attributes =
      set_attributes rest (insert key (raw_value json value) attributes)

  -- The body of one case of the `switch`.
  unfoldable pub set_field : FieldRole → Text → Text → Log → Log
  set_field timestamp_field key raw log = elim (parse_json_timestamp raw) [
    | some timestamp ↦ record log { timestamp = timestamp }
    | none ↦ record log { attributes = insert key (raw_value json raw) log.attributes }
  ]
  set_field level_field key raw log = record log { level = raw_value json raw }
  set_field priority_field key raw log = record log {
    level = level_of_priority (raw_value json raw);
  }
  set_field message_field key raw log = record log { message = raw_value json raw }
  set_field trace_id_field key raw log = record log { trace_id = raw_value json raw }
  set_field service_field key raw log = record log { service = raw_value json raw }
  set_field host_field key raw log = record log { host = raw_value json raw }
  set_field env_field key raw log = record log { env = raw_value json raw }
  set_field attributes_field key raw log = elim (json.object raw) [
    | some fields ↦ record log { attributes = set_attributes fields log.attributes }
    | none ↦ log
  ]
  set_field redacted_field key raw log = elim (json.boolean raw) [
    | some redacted ↦ record log { redacted = redacted }
    | none ↦ log
  ]
  set_field ingested_at_field key raw log = elim (parse_json_timestamp raw) [
    | some time ↦ record log { ingested_at = time }
    | none ↦ log
  ]
  set_field retention_days_field key raw log = elim (parse_uint (raw_value json raw)) [
    | some days ↦ if ltb 65535 days then log else record log { retention_days = days }
    | none ↦ log
  ]
  set_field other_field key raw log = record log {
    attributes = insert key (raw_value json raw) log.attributes;
  }

  module _ (u : Unicode) where
    -- The loop over the sorted keys.
    unfoldable pub set_fields : Dict Text → Log → Log
    set_fields [] log = log
    set_fields ((key, raw) ∷ rest) log =
        set_fields rest (set_field (role_of (normalize_field_name u key)) key raw log)

    -- `parseJSONLine`
    unfoldable pub parse_json_line : Text → Option Log
    parse_json_line line = elim (json.object line) [
      | none ↦ none
      | some fields ↦ some (set_fields (sort_keys fields) empty_log)
    ]
