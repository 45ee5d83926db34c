-- ===== src/Processor.antt =====
-- cmd/agent/processor.go, the filters between the parser and the batch: whatever record the parser
-- makes of a line is normalized, filtered, sampled and redacted.
pub mod Verdicts
mod Tests
use centi_log.Base.{ℕ, Bool, if◌then◌else◌, leb, ltb, ◌&&◌, ◌==◌, ◌||◌}
use centi_log.Config.{Config, hundred, sampling_percentage}
use centi_log.Redact.{redact}
use centi_log.Schema.{Log, level_rank, normalize_fields_at}
use centi_log.Text.{Unicode}

-- The three results of `ProcessDetailed`.
pub data Verdict : Type 0 where
  kept : Log → Verdict
  filtered_by_level filtered_by_sampling : Verdict

-- What the processor is told from outside at one line: the instant of the poll, what `time.Now()`
-- says where that is zero, and the float64 `processor.randomUnit()*100`.
pub record Moment : Type 0 where
  pub now : ℕ
  pub clock : ℕ
  pub draw : ℕ

-- `log := ParseLine(…); log.Host = …; log.Env = …; log = schema.NormalizeFieldsAt(log, now)`
unfoldable pub prepared : Unicode → Config → Moment → Log → Log
prepared u config m parsed =
    normalize_fields_at u (record parsed { host = config.host; env = config.env }) m.now m.clock

-- `percentage <= 0 || (percentage < 100 && processor.randomUnit()*100 >= percentage)`
unfoldable pub sampled_out : ℕ → ℕ → Bool
sampled_out percentage draw = percentage == 0 || (ltb percentage hundred && leb percentage draw)

-- `ProcessDetailed`, from what `ParseLine` returned on.
unfoldable pub process_detailed : Unicode → Config → Moment → Log → Verdict
process_detailed u config m parsed =
    let log = prepared u config m parsed in
    if ltb (level_rank u log.level) (level_rank u config.min_level)
    then filtered_by_level
    else if sampled_out (sampling_percentage u config log.level) m.draw
    then filtered_by_sampling
    else kept (redact u log)
