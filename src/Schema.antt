-- ===== src/Schema.antt =====
-- internal/schema/schema.go: the normalized record, the levels and the normalization.
-- An instant is the number of nanoseconds since Go's zero `Time`; earlier ones are not represented.
pub mod Levels
pub mod Truncate
pub mod Normalized
pub mod Attributes
mod Tests
use centi_log.Base.{
  ℕ, zero, suc, ◌+◌, ◌-◌, ◌*◌, ◌/◌, ◌%◌, ◌^◌, min, Bool, [], ◌∷◌, ltb, leb, ◌==◌, if◌then◌else◌,
  length, get_or, take, Result, ok, err,
}
use centi_log.Dict.{Dict, insert}
use centi_log.Text.{Text, Unicode, codes, text_eq, is_one_of, trim_space}
use centi_log.Text.Decimal.{format_uint}
use centi_log.Text.Utf8.{to_lower, rune_start}

-- `Log`
pub record Log : Type 0 where
  pub timestamp : ℕ
  pub service : Text
  pub host : Text
  pub env : Text
  pub level : Text
  pub message : Text
  pub trace_id : Text
  pub attributes : Dict Text
  pub redacted : Bool
  pub ingested_at : ℕ
  pub retention_days : ℕ

abbrev pub millisecond : ℕ
millisecond = 1_000_000

abbrev pub max_message_length : ℕ
max_message_length = 16 * 1024

abbrev pub max_future_timestamp_skew : ℕ
max_future_timestamp_skew = 5 * 60_000_000_000

-- The largest `time.Duration`.
abbrev pub max_duration : ℕ
max_duration = 2 ^ 63 - 1

-- The value of the `switch` in `NormalizeLevel`, over the lowered and trimmed level.
unfoldable pub level_of : Text → Text
level_of l =
    if is_one_of l ("trace" ∷ "verbose" ∷ "finest" ∷ [])
    then codes "trace"
    else if is_one_of l ("debug" ∷ "dbg" ∷ [])
    then codes "debug"
    else if is_one_of l ("info" ∷ "informational" ∷ "notice" ∷ [])
    then codes "info"
    else if is_one_of l ("warn" ∷ "warning" ∷ "wrn" ∷ [])
    then codes "warn"
    else if is_one_of l ("error" ∷ "err" ∷ "exception" ∷ [])
    then codes "error"
    else if is_one_of l ("fatal" ∷ "critical" ∷ "crit" ∷ "panic" ∷ "emergency" ∷ "alert" ∷ [])
    then codes "fatal"
    else codes "info"

-- The value of the `switch` in `LevelRank`, over the normalized level.
unfoldable pub rank_of : Text → ℕ
rank_of l =
    if is_one_of l ("trace" ∷ [])
    then 0
    else if is_one_of l ("debug" ∷ [])
    then 1
    else if is_one_of l ("info" ∷ [])
    then 2
    else if is_one_of l ("warn" ∷ [])
    then 3
    else if is_one_of l ("error" ∷ [])
    then 4
    else if is_one_of l ("fatal" ∷ [])
    then 5
    else 2

-- `for end > 0 && !utf8.RuneStart(message[end]) { end-- }`
unfoldable pub rune_boundary : Text → ℕ → ℕ
rune_boundary message zero = zero
rune_boundary message (suc n) =
    let shorter = rune_boundary message n in
    if rune_start (get_or message (suc n) 0) then suc n else shorter

unfoldable pub truncate_message : Text → ℕ → Text
truncate_message message max_bytes =
    if leb (length message) max_bytes
    then message
    else take (rune_boundary message max_bytes) message

-- `t.Truncate(time.Millisecond)`
unfoldable pub truncate_millis : ℕ → ℕ
truncate_millis t = t - t % millisecond

unfoldable pub clone_attributes : Dict Text → Dict Text
clone_attributes [] = []
clone_attributes ((key, value) ∷ rest) = insert key value (clone_attributes rest)

-- The `if log.Timestamp.IsZero()` chain: the timestamp and the attributes after it.
unfoldable pub fix_timestamp : ℕ → Dict Text → ℕ → ℕ × Dict Text
fix_timestamp timestamp attributes now =
    if timestamp == 0
    then (truncate_millis now, insert (codes "timestamp_missing") (codes "true") attributes)
    else if ltb (now + max_future_timestamp_skew) timestamp
    then (
      truncate_millis now,
      insert (codes "timestamp_skew_ms")
          (format_uint (min (timestamp - now) max_duration / millisecond))
          (insert (codes "timestamp_corrected") (codes "true") attributes),
    )
    else (truncate_millis timestamp, attributes)

-- `strings.TrimSpace(s) == ""`
abbrev pub is_blank : Text → Bool
is_blank s = text_eq (trim_space s) []

module _ (u : Unicode) where
  unfoldable pub normalize_level : Text → Text
  normalize_level level = level_of (to_lower u (trim_space level))

  unfoldable pub level_rank : Text → ℕ
  level_rank level = rank_of (normalize_level level)

  -- `NormalizeFieldsAt`. `clock` is what `time.Now()` says where `now` is the zero time.
  unfoldable pub normalize_fields_at : Log → ℕ → ℕ → Log
  normalize_fields_at log now clock =
      let reference = if now == 0 then clock else now in
      let (timestamp, attributes) =
        fix_timestamp log.timestamp (clone_attributes log.attributes) reference in
      record log {
        level = normalize_level log.level;
        attributes = attributes;
        timestamp = timestamp;
        ingested_at = truncate_millis (if log.ingested_at == 0 then reference else log.ingested_at);
        message = truncate_message log.message max_message_length;
      }

  -- `NormalizeAt`; the record that it returns beside an error is not used by its callers.
  unfoldable pub normalize_at : Log → ℕ → ℕ → Result Log
  normalize_at log now clock =
      if is_blank log.service
      then err (codes "service is required")
      else if is_blank log.host
      then err (codes "host is required")
      else if is_blank log.env
      then err (codes "env is required")
      else if is_blank log.message
      then err (codes "message is required")
      else if log.retention_days == 0
      then err (codes "retention_days must be greater than zero")
      else ok (normalize_fields_at log now clock)
