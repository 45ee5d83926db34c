-- ===== src/Config/Settings.antt =====
-- cmd/agent/config.go: the settings as the file has them, their defaults, and their checks.
-- Parameters: what YAML and the operating system answer, net/url for the address, path/filepath for the
-- clean path, and the time zones that can be loaded.
use centi_log.Base.{
  ℕ, zero, suc, ◌*◌, ◌+◌, Bool, true, false, not, ◌&&◌, ◌||◌, List, [], ◌∷◌, Option, none, some,
  Attempt, success, failure, need, ensure, ◌>>=◌, ◌>>◌, if◌then◌else◌, leb, ltb, length,
}
use centi_log.Config.{Config, hundred}
use centi_log.Dict.{Dict, lookup, insert}
use centi_log.Schema.{normalize_level, is_blank}
use centi_log.Tailer.{FileConfig}
use centi_log.Text.{Text, Unicode, codes, text_eq, trim_space, is_one_of}
use centi_log.Text.Integers.{ℤ, pos, negsuc}
use centi_log.Text.Utf8.{to_lower}

-- A float64: not a number or infinite, below zero, or a number of steps of 2^-1074.
pub data Percentage : Type 0 where
  not_finite below_zero : Percentage
  steps : ℕ → Percentage

-- `Config`, before and while it is checked.
pub record Settings : Type 0 where
  pub server_url : Text
  pub api_key : Text
  pub host : Text
  pub env : Text
  pub buffer_dir : Text
  pub max_buffer_size_mb : ℤ
  pub batch_size : ℤ
  pub flush_interval : ℤ
  pub min_level : Text
  pub sampling : Dict Percentage
  pub files : List FileConfig

-- What reading the file comes to.
pub data SettingsFile : Type 0 where
  not_opened not_decoded several_documents : SettingsFile
  one_document : Settings → SettingsFile

-- The operating system and the libraries: the name of the machine, the scheme and the host of an
-- address, the clean path, the default directory, and whether a time zone is known.
pub record Machine : Type 0 where
  pub unicode : Unicode
  pub hostname : Option Text
  pub parse_uri : Text → Option (Text × Text)
  pub clean_path : Text → Text
  pub default_dir : Text
  pub knows_zone : Text → Bool

unfoldable pub default_text : Text → Text → Text
default_text value default = if text_eq value [] then default else value

unfoldable pub default_int : ℤ → ℕ → ℤ
default_int value default = elim value [
  | pos zero ↦ pos default
  | pos (suc n) ↦ pos (suc n)
  | negsuc n ↦ negsuc n
]

-- `strings.EqualFold(s, t)` for a text t of lower-case ASCII letters without k and s.
unfoldable pub lower_ascii : Text → Text
lower_ascii [] = []
lower_ascii (b ∷ s) = (if leb b'A' b && leb b b'Z' then b + 32 else b) ∷ lower_ascii s

unfoldable pub equal_fold : Text → Text → Bool
equal_fold s t = text_eq (lower_ascii s) t

-- `_, exists := m[key]` does not hold.
unfoldable pub is_none : {A : Type 0} → Option A → Bool
is_none none = true
is_none (some x) = false

-- `_, exists := seenPaths[path]`
unfoldable pub is_seen : Text → List Text → Bool
is_seen path [] = false
is_seen path (p ∷ seen) = text_eq path p || is_seen path seen

-- A percentage from 0 to 100.
unfoldable pub percentage_of : Percentage → Option ℕ
percentage_of not_finite = none
percentage_of below_zero = none
percentage_of (steps n) = if leb n hundred then some n else none

abbrev pub wrong_sampling : Text
wrong_sampling = codes "sampling levels must be valid and percentages must be from 0 to 100"

-- The time zone of a file, with the two names of the local one.
unfoldable pub zone_of : Text → Text
zone_of name =
    if text_eq name [] || equal_fold name (codes "local time") then codes "Local" else name

-- The address is one of HTTP or HTTPS with a host.
unfoldable pub is_server_url : Option (Text × Text) → Bool
is_server_url none = false
is_server_url (some (scheme, host)) =
    is_one_of scheme ("http" ∷ "https" ∷ []) && not (text_eq host [])

-- An integer that is positive.
unfoldable pub positive : ℤ → Option ℕ
positive (pos zero) = none
positive (pos (suc n)) = some (suc n)
positive (negsuc n) = none

module _ (machine : Machine) where
  -- `applyDefaults`
  unfoldable pub apply_defaults : Settings → Attempt Text Settings
  apply_defaults s = do
    host ←
        need (codes "get machine hostname")
          (if text_eq s.host [] then machine.hostname else some s.host)
    ensure (codes "at least one watched file is required") (ltb 0 (length s.files))
    success (record s {
      host = host;
      env = default_text s.env (codes "development");
      buffer_dir = default_text s.buffer_dir machine.default_dir;
      max_buffer_size_mb = default_int s.max_buffer_size_mb 512;
      batch_size = default_int s.batch_size 500;
      flush_interval = default_int s.flush_interval (5 * 1_000_000_000);
      min_level = default_text s.min_level (codes "trace");
    })

  -- `normalizeConfiguredLevel`
  unfoldable pub normalize_configured_level : Text → Option Text
  normalize_configured_level name =
      let level = to_lower machine.unicode (trim_space name) in
      if is_one_of level (
        "trace" ∷ "debug" ∷ "info" ∷ "warn" ∷ "warning" ∷ "error" ∷ "err" ∷ "fatal" ∷ "critical"
        ∷ [])
      then some (normalize_level machine.unicode level)
      else none

  -- The loop over the sampling, on what is normalized so far.
  unfoldable pub check_sampling : Dict Percentage → Dict ℕ → Attempt Text (Dict ℕ)
  check_sampling [] done = success done
  check_sampling ((name, percentage) ∷ sampling) done = do
    level ← need wrong_sampling (normalize_configured_level name)
    value ← need wrong_sampling (percentage_of percentage)
    ensure (codes "sampling level is configured more than once") (is_none (lookup level done))
    check_sampling sampling (insert level value done)

  -- One round of the loop over the files; `seen` are the paths of those before.
  unfoldable pub check_file : FileConfig → List Text → Attempt Text FileConfig
  check_file file seen = do
    ensure (codes "each watched file must have a path") (not (is_blank file.path))
    let format = default_text (to_lower machine.unicode (trim_space file.format)) (codes "auto")
    ensure (codes "file format must be auto, json, syslog, or text")
        (is_one_of format ("auto" ∷ "json" ∷ "syslog" ∷ "text" ∷ []))
    ensure (codes "watched file paths must be unique")
        (not (is_seen (machine.clean_path file.path) seen))
    let zone = zone_of (trim_space file.time_zone)
    ensure (codes "unknown time zone for watched file")
        (equal_fold zone (codes "local") || machine.knows_zone zone)
    success (record { path = file.path; format = format; time_zone = zone })

  unfoldable pub check_files : List FileConfig → List Text → Attempt Text (List FileConfig)
  check_files [] seen = success []
  check_files (file ∷ files) seen = do
    checked ← check_file file seen
    rest ← check_files files (machine.clean_path file.path ∷ seen)
    success (checked ∷ rest)

  -- `Validate`: the settings as the agent's parts read them.
  unfoldable pub validate : Settings → Attempt Text Config
  validate s = do
    ensure (codes "server_url must be an HTTP or HTTPS URL")
        (is_server_url (machine.parse_uri s.server_url))
    ensure (codes "api_key is required") (not (is_blank s.api_key))
    megabytes ← need (codes "max_buffer_size_mb must be positive") (positive s.max_buffer_size_mb)
    records ← need (codes "batch_size must be positive") (positive s.batch_size)
    interval ← need (codes "flush_interval must be positive") (positive s.flush_interval)
    level ← need (codes "min_level is not supported") (normalize_configured_level s.min_level)
    sampling ← check_sampling s.sampling []
    files ← check_files s.files []
    success (record {
      host = s.host;
      env = s.env;
      max_buffer_size_mb = megabytes;
      batch_size = records;
      flush_interval = interval;
      min_level = level;
      sampling = sampling;
      files = files;
    })

  -- `LoadConfig`
  unfoldable pub load_config : SettingsFile → Attempt Text Config
  load_config not_opened = failure (codes "open agent config")
  load_config not_decoded = failure (codes "decode agent config")
  load_config several_documents = failure (codes "agent config must contain one YAML document")
  load_config (one_document decoded) = do settings ← apply_defaults decoded; validate settings
