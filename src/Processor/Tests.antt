-- ===== src/Processor/Tests.antt =====
-- Lines through the filters, and the theorems at them.
use centi_log.Base.{[], ◌∷◌, ℕ, ◌≡◌, refl, ◌≤◌, false, ◌*◌, ◌^◌}
use centi_log.Config.{Config, sampling_percentage}
use centi_log.Dict.{erase, insert, lookup}
use centi_log.Processor.{
  filtered_by_level, filtered_by_sampling, Moment, prepared, process_detailed, sampled_out,
}
use centi_log.Processor.Verdicts.{Hides, process_detailed-kept_lem}
use centi_log.Redact.{
  redact, is_secret_part, redact_attributes, redact_value, sensitive_attribute_key,
}
use centi_log.Schema.{
  Log, clone_attributes, fix_timestamp, level_of, level_rank, normalize_fields_at, normalize_level,
  rank_of, truncate_message, truncate_millis,
}
use centi_log.Schema.Levels.{Level, level_text}
use centi_log.Text.{Text, ascii, codes, is_one_of, text_eq, trim_space}
use centi_log.Text.Utf8.{fields_func, is_digit, is_letter, to_lower}

abbrev settings : Config
settings = record {
  host = codes "h1";
  env = codes "prod";
  max_buffer_size_mb = 1;
  batch_size = 2;
  flush_interval = 5;
  min_level = codes "warn";
  sampling = (codes "warn", 25 * 2 ^ 1074) ∷ [];
  files = [];
}

abbrev moment : ℕ → Moment
moment draw = record { now = 9_000_000; clock = 9_000_000; draw = draw }

abbrev parsed_line : Text → Log
parsed_line level = record {
  timestamp = 3_000_001;
  service = codes "web";
  host = [];
  env = [];
  level = level;
  message = codes "failed";
  trace_id = [];
  attributes = (codes "token", codes "t1") ∷ [];
  redacted = false;
  ingested_at = 0;
  retention_days = 30;
}

processing : Unit {0}
unfolding process_detailed prepared sampled_out sampling_percentage normalize_fields_at
    fix_timestamp clone_attributes truncate_millis truncate_message normalize_level level_of
    level_rank rank_of redact redact_attributes redact_value sensitive_attribute_key is_secret_part
    is_one_of codes text_eq trim_space to_lower insert erase lookup fields_func is_letter is_digit
processing = tt

process_detailed-kept_lem_example :
    let log =
      redact ascii
        (prepared ascii settings (moment (9 * 2 ^ 1074)) (parsed_line (codes "WARNING"))) in
    (log.host ≡ settings.host)
    × (log.env ≡ settings.env)
    × (level_rank ascii settings.min_level ≤ level_rank ascii log.level)
    × (normalize_level ascii log.level ≡ log.level)
    × ((v : Level) × (log.level ≡ level_text v))
    × ((key : Text) → Hides ascii key log)
unfolding processing
process_detailed-kept_lem_example =
    process_detailed-kept_lem ascii settings (moment (9 * 2 ^ 1074)) (parsed_line (codes "WARNING"))
      (redact ascii
        (prepared ascii settings (moment (9 * 2 ^ 1074)) (parsed_line (codes "WARNING"))))
      refl

-- A line below the minimum, and one that the draw rejects.
filtered :
    (process_detailed ascii settings (moment 0) (parsed_line (codes "info")) ≡ filtered_by_level)
    × (process_detailed ascii settings (moment (25 * 2 ^ 1074)) (parsed_line (codes "wrn"))
        ≡ filtered_by_sampling)
unfolding processing
filtered = (refl, refl)
