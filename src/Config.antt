-- ===== src/Config.antt =====
-- cmd/agent/config.go, the settings that the agent's parts read, and `SamplingPercentage`.
-- A percentage is a finite float64 that is not negative; it is counted in steps of 2^-1074, of which
-- every such number is a multiple. The file of the settings is read and checked in Settings.
pub mod Settings
pub mod Valid
pub mod Effective
mod Tests
use centi_log.Base.{ℕ, List, none, some, ◌*◌, ◌^◌}
use centi_log.Dict.{Dict, lookup}
use centi_log.Schema.{normalize_level}
use centi_log.Tailer.{FileConfig}
use centi_log.Text.{Text, Unicode}

-- `Config`
pub record Config : Type 0 where
  pub host : Text
  pub env : Text
  pub max_buffer_size_mb : ℕ
  pub batch_size : ℕ
  pub flush_interval : ℕ
  pub min_level : Text
  pub sampling : Dict ℕ
  pub files : List FileConfig

-- The float64 100.
abbrev pub hundred : ℕ
hundred = 100 * 2 ^ 1074

-- `SamplingPercentage`
unfoldable pub sampling_percentage : Unicode → Config → Text → ℕ
sampling_percentage u config level = elim (lookup (normalize_level u level) config.sampling) [
  | none ↦ hundred
  | some percentage ↦ percentage
]
