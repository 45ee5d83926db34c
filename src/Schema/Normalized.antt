-- ===== src/Schema/Normalized.antt =====
-- `NormalizeAt` and `NormalizeFieldsAt`: what holds of a normalized record.
use centi_log.Base.{◌≡◌, refl, ◌≢◌, ◌↔◌, ℕ, ◌+◌, ◌%◌, ◌≤◌, false, arith, length, ok, ◌==◌}
use centi_log.Dict.{Dict}
use centi_log.Schema.{
  Log, millisecond, max_message_length, max_future_timestamp_skew, is_blank, truncate_millis,
  fix_timestamp, clone_attributes, normalize_fields_at, normalize_at,
}
use centi_log.Schema.Levels.{Level, level_text, level_value, normalize_level-level_value}
use centi_log.Schema.Truncate.{truncate_message_bounds}
use centi_log.Text.{Text, Unicode}

-- What the rest of the platform relies on in a record.
pub record IsNormalized (log : Log) (now : ℕ) : Type 0 where
  pub whole_millis : log.timestamp % millisecond ≡ 0
  pub not_future : log.timestamp ≤ now + max_future_timestamp_skew
  pub known_level : (v : Level) × (log.level ≡ level_text v)
  pub short_message : length log.message ≤ max_message_length
  pub ingested_millis : log.ingested_at % millisecond ≡ 0

truncate_millis_lem : (t : ℕ) → (truncate_millis t % millisecond ≡ 0) × (truncate_millis t ≤ t)
unfolding truncate_millis
truncate_millis_lem t = omega arith

fix_timestamp_lem :
    (timestamp : ℕ) (attributes : Dict Text) (now : ℕ)
    → ((fix_timestamp timestamp attributes now).0 % millisecond ≡ 0)
      × ((fix_timestamp timestamp attributes now).0 ≤ now + max_future_timestamp_skew)
unfolding fix_timestamp
fix_timestamp_lem timestamp attributes now =
    ground (arith, truncate_millis_lem now, truncate_millis_lem timestamp)

module _ (u : Unicode) where
  pub normalize_fields_at-IsNormalized :
      (log : Log) (now clock : ℕ) → now ≢ 0 → IsNormalized (normalize_fields_at u log now clock) now
  unfolding normalize_fields_at
  normalize_fields_at-IsNormalized log now clock set =
      let reference : (now == 0) ≡ false = ground arith in
      let fixed = fix_timestamp_lem log.timestamp (clone_attributes log.attributes) now in
      rw reference (record {
        whole_millis = fixed.0;
        not_future = fixed.1;
        known_level = (level_value u log.level, normalize_level-level_value u log.level);
        short_message = (truncate_message_bounds log.message max_message_length).1;
        ingested_millis = (truncate_millis_lem _).0;
      })

  -- Validation accepts a record exactly when its four required texts are not blank and its
  -- retention is set, and then it returns the canonical record.
  pub normalize_at-ok_iff :
      (log : Log) (now clock : ℕ)
      → (normalize_at u log now clock ≡ ok (normalize_fields_at u log now clock)) ↔ (
          (is_blank log.service ≡ false)
          × (is_blank log.host ≡ false)
          × (is_blank log.env ≡ false)
          × (is_blank log.message ≡ false)
          × (log.retention_days ≢ 0))
  unfolding normalize_at
  normalize_at-ok_iff log now clock = ground arith

  accepted :
      (log out : Log) (now clock : ℕ)
      → normalize_at u log now clock ≡ ok out
      → (out ≡ normalize_fields_at u log now clock)
        × (is_blank log.service ≡ false)
        × (log.retention_days ≢ 0)
  unfolding normalize_at
  accepted log out now clock h = ground arith

  -- What validation accepts at a time that is set is normalized: whole milliseconds, a timestamp at
  -- most five minutes ahead, one of the six levels, a bounded message; and the service, host,
  -- environment, trace and retention are those of the record that came in.
  pub normalize_at-IsNormalized :
      (log out : Log) (now clock : ℕ)
      → now ≢ 0
      → normalize_at u log now clock ≡ ok out
      → IsNormalized out now
        × (out.service ≡ log.service)
        × (out.host ≡ log.host)
        × (out.env ≡ log.env)
        × (out.trace_id ≡ log.trace_id)
        × (out.retention_days ≡ log.retention_days)
  unfolding normalize_fields_at
  normalize_at-IsNormalized log out now clock set h =
      let same = (accepted log out now clock h).0 in
      rw same (normalize_fields_at-IsNormalized log now clock set, refl, refl, refl, refl, refl)
