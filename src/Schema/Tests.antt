-- ===== src/Schema/Tests.antt =====
-- Runs of internal/schema, and the theorems at inputs that meet their hypotheses.
use centi_log.Base.{[], arith, false, refl, ℕ, ◌∷◌, ◌≡◌}
use centi_log.Dict.{insert, lookup}
use centi_log.Schema.{
  Log, clone_attributes, fix_timestamp, level_of, level_rank, normalize_at, normalize_fields_at,
  normalize_level, rank_of, rune_boundary, truncate_message, truncate_millis,
}
use centi_log.Schema.Attributes.{expected_attribute, lookup-normalize_fields_at}
use centi_log.Schema.Levels.{level_text}
use centi_log.Schema.Normalized.{IsNormalized, normalize_at-IsNormalized}
use centi_log.Text.{Text, ascii, codes, is_one_of, text_eq, trim_space}
use centi_log.Text.Decimal.{format_uint}
use centi_log.Text.Utf8.{to_lower}

normalization : Unit {0}
unfolding normalize_at normalize_fields_at fix_timestamp clone_attributes truncate_millis
    truncate_message rune_boundary normalize_level level_of level_rank rank_of level_text codes
    text_eq is_one_of trim_space to_lower insert lookup format_uint
normalization = tt

abbrev now : ℕ
now = 1_000_000_007_000_123

abbrev record_in : Log
unfolding codes
record_in = record {
  timestamp = 1_000_400_007_000_999;
  service = codes "shop";
  host = codes "web-1";
  env = codes "prod";
  level = codes " Warning";
  message = codes "slow";
  trace_id = [];
  attributes = (codes "region", codes "eu") ∷ [];
  redacted = false;
  ingested_at = 0;
  retention_days = 30;
}

-- A timestamp 400 seconds ahead is corrected, and the skew is kept in milliseconds.
corrected :
    (normalize_fields_at ascii record_in now 0).attributes
    ≡ (codes "timestamp_skew_ms", codes "400000")
      ∷ (codes "timestamp_corrected", codes "true")
      ∷ (codes "region", codes "eu")
      ∷ []
unfolding normalization
corrected = refl

levels :
    (normalize_level ascii (codes "WRN") ≡ codes "warn")
    × (normalize_level ascii (codes "Emergency\n") ≡ codes "fatal")
    × (normalize_level ascii (codes "?") ≡ codes "info")
    × (level_rank ascii (codes "Exception") ≡ 4)
unfolding normalization
levels = (refl, refl, refl, refl)

-- The euro sign is not cut.
euro : truncate_message (b'a' ∷ 0xE2 ∷ 0x82 ∷ 0xAC ∷ b'b' ∷ []) 3 ≡ b'a' ∷ []
unfolding normalization
euro = refl

abbrev price : Text
price = b'a' ∷ 0xE2 ∷ 0x82 ∷ 0xAC ∷ b'b' ∷ []

abbrev record_out : Log
record_out = normalize_fields_at ascii record_in now 0

normalize_at-IsNormalized_example :
    IsNormalized record_out now
    × (record_out.service ≡ record_in.service)
    × (record_out.host ≡ record_in.host)
    × (record_out.env ≡ record_in.env)
    × (record_out.trace_id ≡ record_in.trace_id)
    × (record_out.retention_days ≡ record_in.retention_days)
unfolding normalization
normalize_at-IsNormalized_example =
    normalize_at-IsNormalized ascii record_in record_out now 0 (omega arith) refl

lookup-normalize_fields_at_example :
    lookup (codes "region") (normalize_fields_at ascii record_in now 0).attributes
    ≡ expected_attribute record_in now (codes "region")
lookup-normalize_fields_at_example =
    lookup-normalize_fields_at ascii record_in now 0 (codes "region") (omega arith)
