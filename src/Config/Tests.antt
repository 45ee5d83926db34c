-- ===== src/Config/Tests.antt =====
-- Settings of a file, and the theorems at them.
use centi_log.Base.{ℕ, ◌≤◌, [], ◌∷◌, some, success, failure, ◌≡◌, refl, List}
use centi_log.Config.{Config, hundred, sampling_percentage}
use centi_log.Config.Effective.{load_config-sampling_percentage}
use centi_log.Config.Settings.{
  one_document, below_zero, steps, Machine, Percentage, Settings, apply_defaults, check_file,
  check_files, check_sampling, default_int, default_text, equal_fold, is_none, is_seen,
  is_server_url, load_config, lower_ascii, normalize_configured_level, percentage_of, positive,
  validate, wrong_sampling, zone_of,
}
use centi_log.Config.Valid.{IsValidConfig, load_config-IsValidConfig}
use centi_log.Dict.{Dict, lookup, insert, erase}
use centi_log.Schema.{level_of, normalize_level}
use centi_log.Tailer.{FileConfig}
use centi_log.Text.{
  Text, codes, text_eq, ascii, is_one_of, space_width, space_width_back, trim_by, trim_space,
}
use centi_log.Text.Integers.{pos}
use centi_log.Text.Utf8.{to_lower}

abbrev machine : Machine
machine = record {
  unicode = ascii;
  hostname = some (codes "box");
  parse_uri = λ address. some (codes "https", address);
  clean_path = λ path. path;
  default_dir = codes "data/agent-buffer";
  knows_zone = λ zone. text_eq zone (codes "UTC");
}

abbrev watched : Text → Text → FileConfig
watched path zone = record { path = path; format = codes " JSON "; time_zone = zone }

abbrev given : Dict Percentage → List FileConfig → Settings
given sampling files = record {
  server_url = codes "logs";
  api_key = codes "k";
  host = [];
  env = [];
  buffer_dir = [];
  max_buffer_size_mb = pos 0;
  batch_size = pos 20;
  flush_interval = pos 0;
  min_level = codes "Warning";
  sampling = sampling;
  files = files;
}

abbrev shares : Dict Percentage
shares = (codes "ERR", steps 5) ∷ (codes "info", steps hundred) ∷ []

abbrev loaded : Config
loaded = record {
  host = codes "box";
  env = codes "development";
  max_buffer_size_mb = 512;
  batch_size = 20;
  flush_interval = 5_000_000_000;
  min_level = codes "warn";
  sampling = (codes "info", hundred) ∷ (codes "error", 5) ∷ [];
  files = record { path = codes "/a"; format = codes "json"; time_zone = codes "Local" } ∷ [];
}

running : Unit {0}
unfolding load_config validate apply_defaults check_sampling check_files check_file default_text
    default_int normalize_configured_level percentage_of is_none is_seen zone_of equal_fold
    lower_ascii is_server_url positive normalize_level level_of codes text_eq is_one_of trim_space
    trim_by space_width space_width_back to_lower lookup insert erase
running = tt

abbrev once : List FileConfig
once = watched (codes "/a") (codes " Local Time") ∷ []

settings_run :
    (load_config machine (one_document (given shares once)) ≡ success loaded)
    × (load_config machine
          (one_document (given ((codes "err", steps 1) ∷ (codes "error", steps 2) ∷ []) once))
        ≡ failure (codes "sampling level is configured more than once"))
    × (load_config machine (one_document (given ((codes "info", below_zero) ∷ []) once))
        ≡ failure wrong_sampling)
    × (load_config machine
          (one_document (given [] (watched (codes "/a") [] ∷ watched (codes "/a") [] ∷ [])))
        ≡ failure (codes "watched file paths must be unique"))
    × (load_config machine (one_document (given [] (watched (codes "/a") (codes "Mars") ∷ [])))
        ≡ failure (codes "unknown time zone for watched file"))
    × (load_config machine (one_document (given [] []))
        ≡ failure (codes "at least one watched file is required"))
unfolding running
settings_run = (refl, refl, refl, refl, refl, refl)

load_config-IsValidConfig_example : IsValidConfig machine loaded
unfolding running
load_config-IsValidConfig_example =
    load_config-IsValidConfig machine (one_document (given shares once)) loaded refl

load_config-sampling_percentage_example :
    (v : ℕ) × (steps 5 ≡ steps v)
    × (v ≤ hundred)
    × (sampling_percentage ascii loaded (codes "Exception") ≡ v)
unfolding running
load_config-sampling_percentage_example =
    load_config-sampling_percentage machine (given shares once) loaded (codes "ERR")
      (codes "Exception") (steps 5) refl refl refl
