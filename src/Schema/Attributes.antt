-- ===== src/Schema/Attributes.antt =====
-- `NormalizeFieldsAt` on the attributes, and on a record that is normalized already.
use centi_log.Base.{
  Option, [], arith, false, if◌then◌else◌, ltb, min, refl, some, ℕ, ◌%◌, ◌+◌, ◌-◌, ◌/◌, ◌==◌, ◌∷◌,
  ◌≡◌, ◌≢◌, ◌≤◌, ◌⊎◌, ap, ◌∙◌,
}
use centi_log.Dict.{Dict, insert, lookup, lookup-insert}
use centi_log.Schema.{
  Log, clone_attributes, fix_timestamp, max_duration, max_future_timestamp_skew, millisecond,
  normalize_fields_at, truncate_millis, truncate_message, max_message_length,
}
use centi_log.Schema.Levels.{normalize_level_idempotent}
use centi_log.Schema.Truncate.{truncate_message_bounds}
use centi_log.Text.{Text, Unicode, codes, text_eq}
use centi_log.Text.Decimal.{format_uint}

lookup-clone_attributes :
    (key : Text) (attributes : Dict Text)
    → lookup key (clone_attributes attributes) ≡ lookup key attributes
unfolding clone_attributes lookup
lookup-clone_attributes key [] = refl
lookup-clone_attributes key ((k, v) ∷ rest) =
    ground (arith, lookup-insert key k v (clone_attributes rest), lookup-clone_attributes key rest)

-- What the timestamp rule says of one attribute.
abbrev pub expected_attribute : Log → ℕ → Text → Option Text
expected_attribute log now key =
    if log.timestamp == 0
    then (if text_eq key (codes "timestamp_missing")
        then some (codes "true")
        else lookup key log.attributes)
    else if ltb (now + max_future_timestamp_skew) log.timestamp
    then (if text_eq key (codes "timestamp_skew_ms")
        then some (format_uint (min (log.timestamp - now) max_duration / millisecond))
        else if text_eq key (codes "timestamp_corrected")
        then some (codes "true")
        else lookup key log.attributes)
    else lookup key log.attributes

lookup-fix_timestamp :
    (log : Log) (now : ℕ) (key : Text)
    → lookup key (fix_timestamp log.timestamp (clone_attributes log.attributes) now).1
      ≡ expected_attribute log now key
unfolding fix_timestamp
lookup-fix_timestamp log now key =
    let attributes = clone_attributes log.attributes in
    let corrected = insert (codes "timestamp_corrected") (codes "true") attributes in
    ground (
      arith,
      lookup-clone_attributes key log.attributes,
      lookup-insert key (codes "timestamp_missing") (codes "true") attributes,
      lookup-insert key (codes "timestamp_corrected") (codes "true") attributes,
      lookup-insert key (codes "timestamp_skew_ms")
          (format_uint (min (log.timestamp - now) max_duration / millisecond)) corrected,
    )

module _ (u : Unicode) where
  -- After normalization at a time that is set, every attribute is the one of the record, except for
  -- the flags: `timestamp_missing` where there was no timestamp; where it was more than five minutes
  -- ahead `timestamp_corrected`, and in `timestamp_skew_ms` by how many milliseconds.
  pub lookup-normalize_fields_at :
      (log : Log) (now clock : ℕ) (key : Text)
      → now ≢ 0
      → lookup key (normalize_fields_at u log now clock).attributes ≡ expected_attribute log now key
  unfolding normalize_fields_at
  lookup-normalize_fields_at log now clock key set =
      let reference : (now == 0) ≡ false = ground arith in
      rw reference (lookup-fix_timestamp log now key)

-- The timestamp that is left is past the first millisecond, and not in the future.
fix_timestamp_kept :
    (timestamp : ℕ) (attributes : Dict Text) (now : ℕ)
    → millisecond ≤ now
    → (timestamp ≡ 0) ⊎ (millisecond ≤ timestamp)
    → (millisecond ≤ (fix_timestamp timestamp attributes now).0)
      × ((fix_timestamp timestamp attributes now).0 ≤ now + max_future_timestamp_skew)
      × ((fix_timestamp timestamp attributes now).0 % millisecond ≡ 0)
unfolding fix_timestamp truncate_millis
fix_timestamp_kept timestamp attributes now old shape = ground arith

fix_timestamp_again :
    (t : ℕ) (attributes : Dict Text) (later : ℕ)
    → millisecond ≤ t
    → t ≤ later + max_future_timestamp_skew
    → t % millisecond ≡ 0
    → fix_timestamp t attributes later ≡ (t, attributes)
unfolding fix_timestamp truncate_millis
fix_timestamp_again t attributes later past within whole = ground arith

truncate_millis_again : (t : ℕ) → truncate_millis (truncate_millis t) ≡ truncate_millis t
unfolding truncate_millis
truncate_millis_again t = omega arith

truncate_millis-ne-zero : (t : ℕ) → millisecond ≤ t → (truncate_millis t == 0) ≡ false
unfolding truncate_millis
truncate_millis-ne-zero t h = ground arith

truncate_message_again :
    (message : Text) (n : ℕ)
    → truncate_message (truncate_message message n) n ≡ truncate_message message n
truncate_message_again message n =
    (truncate_message_bounds (truncate_message message n) n).2.1
      (truncate_message_bounds message n).1

module _ (u : Unicode) where
  -- A record that the agent normalized, at a time past the first millisecond, keeps its timestamp,
  -- level, message and every attribute when it is normalized again at a later time, as ingest does;
  -- and so does its time of acceptance.
  pub normalize_fields_at_again :
      (log : Log) (now clock later clock' : ℕ)
      → millisecond ≤ now
      → now ≤ later
      → (log.timestamp ≡ 0) ⊎ (millisecond ≤ log.timestamp)
      → (log.ingested_at ≡ 0) ⊎ (millisecond ≤ log.ingested_at)
      → let once = normalize_fields_at u log now clock in
        let twice = normalize_fields_at u once later clock' in
        (twice.timestamp ≡ once.timestamp)
        × (twice.level ≡ once.level)
        × (twice.message ≡ once.message)
        × (twice.ingested_at ≡ once.ingested_at)
        × ((key : Text) → lookup key twice.attributes ≡ lookup key once.attributes)
  unfolding normalize_fields_at
  normalize_fields_at_again log now clock later clock' past order shape received =
      let set : (now == 0) ≡ false = ground arith in
      let later_set : (later == 0) ≡ false = ground arith in
      let attributes = clone_attributes log.attributes in
      let fixed = fix_timestamp_kept log.timestamp attributes now past shape in
      let (t, marked) = fix_timestamp log.timestamp attributes now in
      let again =
        fix_timestamp_again t (clone_attributes marked) later fixed.0 (omega arith) fixed.2 in
      let received_at = if log.ingested_at == 0 then now else log.ingested_at in
      let kept = truncate_millis-ne-zero received_at (ground arith) in
      rw (set, later_set)
        (
          ap (λ (p : ℕ × Dict Text). p.0) again,
          normalize_level_idempotent u log.level,
          truncate_message_again log.message max_message_length,
          rw kept (truncate_millis_again received_at),
          λ key.
              ap (λ (p : ℕ × Dict Text). lookup key p.1) again ∙ lookup-clone_attributes key marked,
        )
