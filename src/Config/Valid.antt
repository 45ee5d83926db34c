-- ===== src/Config/Valid.antt =====
-- What the checks of the settings of the agent let through.
use mathlib.Core.Path.{subst}
use centi_log.Base.{
  ℕ, suc, zero, ◌≤◌, Bool, true, false, not, ◌||◌, List, [], ◌∷◌, Option, some, success, inl, inr,
  ◌≡◌, ◌≢◌, refl, arith, sym, ap, All, String, length, ltb, leb, need-success, ensure-success,
  bind-success, success-injective, Bool-cases, if◌then◌else◌, leb→le, ltb→lt,
}
use centi_log.Agent.Accounts.{filled}
use centi_log.Config.{hundred, Config}
use centi_log.Config.Settings.{
  not_opened, not_decoded, several_documents, one_document, not_finite, below_zero, steps, positive,
  Machine, Percentage, check_file, check_sampling, default_text, equal_fold, is_none, is_seen,
  normalize_configured_level, percentage_of, zone_of, Settings, SettingsFile, apply_defaults,
  check_files, is_server_url, load_config, validate, wrong_sampling,
}
use centi_log.Dict.{Dict, lookup, insert, erase}
use centi_log.Schema.{level_of, is_blank, normalize_level}
use centi_log.Tailer.{FileConfig}
use centi_log.Text.{Text, codes, text_eq, is_one_of, trim_space}
use centi_log.Text.Equality.{text_eq_iff}
use centi_log.Text.Integers.{ℤ, pos, negsuc}
use centi_log.Text.Utf8.{to_lower}

not-true : (b : Bool) → not b ≡ true → b ≡ false
not-true b h = ground arith

some-same : (m n : ℕ) → ◌≡◌ {A = Option ℕ} (some m) (some n) → m ≡ n
some-same m n h = cc

positive-le : (v : ℤ) (n : ℕ) → positive v ≡ some n → 1 ≤ n
unfolding positive
positive-le (pos zero) n h = absurd (ground arith)
positive-le (pos (suc m)) n h = ground arith
positive-le (negsuc m) n h = absurd (ground arith)

-- A text that is one of some words has what all of them have.
pub is_one_of_all :
    (P : Text → Type 0) (s : Text) (words : List String)
    → All (λ w. P (codes w)) words
    → is_one_of s words ≡ true
    → P s
unfolding is_one_of
is_one_of_all P s [] all h = absurd (ground arith)
is_one_of_all P s (w ∷ words) (one, all) h = elim (Bool-cases (text_eq s (codes w))) [
  | inl here ↦ subst P (sym ((text_eq_iff s (codes w)).0 here)) one
  | inr other ↦ is_one_of_all P s words all (ground arith)
]

-- One of the six levels.
abbrev pub IsLevel : Text → Type 0
IsLevel level =
    is_one_of level ("trace" ∷ "debug" ∷ "info" ∷ "warn" ∷ "error" ∷ "fatal" ∷ []) ≡ true

level_of-IsLevel : (name : Text) → IsLevel (level_of name)
unfolding level_of is_one_of codes text_eq
level_of-IsLevel name = ground arith

erase-All : (P : Text × ℕ → Type 0) (k : Text) (m : Dict ℕ) → All P m → All P (erase k m)
unfolding erase
erase-All P k [] all = tt
erase-All P k ((j, v) ∷ m) (one, all) = elim (Bool-cases (text_eq k j)) [
  | inl here ↦ rw here (erase-All P k m all)
  | inr other ↦ rw other (one, erase-All P k m all)
]

-- A level with a percentage of at most 100.
abbrev pub IsShare : Text × ℕ → Type 0
IsShare (level, percentage) = IsLevel level × (percentage ≤ hundred)

pub percentage_of-le : (p : Percentage) (n : ℕ) → percentage_of p ≡ some n → n ≤ hundred
unfolding percentage_of
percentage_of-le not_finite n h = absurd (ground arith)
percentage_of-le below_zero n h = absurd (ground arith)
percentage_of-le (steps m) n h = elim (Bool-cases (leb m hundred)) [
  | inl within ↦ subst (λ k. k ≤ hundred) (some-same m n (ground arith)) (leb→le m hundred within)
  | inr beyond ↦ absurd (ground arith)
]

module _ (machine : Machine) where
  configured-IsLevel :
      (name level : Text) → normalize_configured_level machine name ≡ some level → IsLevel level
  unfolding normalize_configured_level normalize_level
  configured-IsLevel name level h =
      let given = to_lower machine.unicode (trim_space name) in
      let value = level_of (to_lower machine.unicode (trim_space given)) in
      let it : value ≡ level = ground arith in
      subst IsLevel it (level_of-IsLevel (to_lower machine.unicode (trim_space given)))

  check_sampling-All :
      (sampling : Dict Percentage) (before out : Dict ℕ)
      → All IsShare before
      → check_sampling machine sampling before ≡ success out
      → All IsShare out
  unfolding check_sampling insert
  check_sampling-All [] before out all h =
      subst (All IsShare) (success-injective {E = Text} before out h) all
  check_sampling-All ((name, percentage) ∷ sampling) before out all h =
      let (level, known, h1) =
        need-success wrong_sampling (normalize_configured_level machine name) _ out h in
      let (value, within, h2) = need-success wrong_sampling (percentage_of percentage) _ out h1 in
      let (fresh, h3) =
        ensure-success (codes "sampling level is configured more than once")
          (is_none (lookup level before)) _ out h2 in
      check_sampling-All sampling (insert level value before) out
        (
          (configured-IsLevel name level known, percentage_of-le percentage value within),
          erase-All IsShare level before all,
        )
        h3

  -- A file that can be watched: it has a path, a format that is known, and a time zone that is.
  abbrev pub IsWatched : FileConfig → Type 0
  IsWatched file =
      (is_blank file.path ≡ false)
      × (is_one_of file.format ("auto" ∷ "json" ∷ "syslog" ∷ "text" ∷ []) ≡ true)
      × ((equal_fold file.time_zone (codes "local") || machine.knows_zone file.time_zone) ≡ true)

  check_file-IsWatched :
      (file checked : FileConfig) (seen : List Text)
      → check_file machine file seen ≡ success checked
      → IsWatched checked
        × (checked.path ≡ file.path)
        × (is_seen (machine.clean_path checked.path) seen ≡ false)
  unfolding check_file
  check_file-IsWatched file checked seen h =
      let (filled, h1) =
        ensure-success (codes "each watched file must have a path") (not (is_blank file.path)) _
          checked h in
      let (known, h2) =
        ensure-success (codes "file format must be auto, json, syslog, or text") _ _ checked h1 in
      let (fresh, h3) = ensure-success (codes "watched file paths must be unique") _ _ checked h2 in
      let (zone, h4) = ensure-success (codes "unknown time zone for watched file") _ _ checked h3 in
      let format =
        default_text (to_lower machine.unicode (trim_space file.format)) (codes "auto") in
      let it : FileConfig = record {
        path = file.path;
        format = format;
        time_zone = zone_of (trim_space file.time_zone);
      } in
      subst
        (λ (c : FileConfig).
          IsWatched c × (c.path ≡ file.path) × (is_seen (machine.clean_path c.path) seen ≡ false))
        (success-injective {E = Text} it checked h4)
        (
          (not-true (is_blank file.path) filled, known, zone),
          refl,
          not-true (is_seen (machine.clean_path file.path) seen) fresh,
        )

  -- No two files have the same clean path.
  abbrev pub HasDistinctPaths : List FileConfig → Type 0
  HasDistinctPaths [] = Unit
  HasDistinctPaths (f ∷ files) =
      All (λ g. machine.clean_path g.path ≢ machine.clean_path f.path) files
      × HasDistinctPaths files

  IsNew : List Text → FileConfig → Type 0
  IsNew seen file = is_seen (machine.clean_path file.path) seen ≡ false

  IsNew-differs :
      (p : Text) (seen : List Text) (files : List FileConfig)
      → All (IsNew (p ∷ seen)) files
      → All (λ g. machine.clean_path g.path ≢ p) files × All (IsNew seen) files
  unfolding is_seen IsNew
  IsNew-differs p seen [] all = (tt, tt)
  IsNew-differs p seen (g ∷ files) (one, all) =
      let (others, older) = IsNew-differs p seen files all in
      let differs = text_eq_iff (machine.clean_path g.path) p in
      ((λ same. ground (arith, one, differs.1 same), others), (ground (arith, one), older))

  check_files-lem :
      (files out : List FileConfig) (seen : List Text)
      → check_files machine files seen ≡ success out
      → All IsWatched out
        × HasDistinctPaths out
        × All (IsNew seen) out
        × (length out ≡ length files)
  unfolding check_files IsNew
  check_files-lem [] out seen h =
      subst (λ l. All IsWatched l × HasDistinctPaths l × All (IsNew seen) l × (length l ≡ 0))
        (success-injective {E = Text} [] out h) (tt, tt, tt, refl)
  check_files-lem (file ∷ files) out seen h =
      let (checked, first, h1) = bind-success (check_file machine file seen) _ out h in
      let (rest, later, h2) =
        bind-success (check_files machine files (machine.clean_path file.path ∷ seen)) _ out h1 in
      let (watched, path, fresh) = check_file-IsWatched file checked seen first in
      let (all, distinct, newer, count) =
        check_files-lem files rest (machine.clean_path file.path ∷ seen) later in
      let (others, older) = IsNew-differs (machine.clean_path file.path) seen rest newer in
      subst
        (λ l.
          All IsWatched l
          × HasDistinctPaths l
          × All (IsNew seen) l
          × (length l ≡ suc (length files)))
        (success-injective {E = Text} (checked ∷ rest) out h2)
        (
          (watched, all),
          (
            subst (λ p. All (λ g. machine.clean_path g.path ≢ machine.clean_path p) rest) (sym path)
                others,
            distinct,
          ),
          (fresh, older),
          ap suc count,
        )

  -- What the parts of the agent may rely on.
  abbrev pub IsValidConfig : Config → Type 0
  IsValidConfig config =
      (1 ≤ config.max_buffer_size_mb)
      × (1 ≤ config.batch_size)
      × (1 ≤ config.flush_interval)
      × IsLevel config.min_level
      × All IsShare config.sampling
      × (1 ≤ length config.files)
      × All IsWatched config.files
      × HasDistinctPaths config.files

  validate-IsValidConfig :
      (s : Settings) (config : Config)
      → 1 ≤ length s.files
      → validate machine s ≡ success config
      → IsValidConfig config
  unfolding validate
  validate-IsValidConfig s config some_files h =
      let (address, h1) =
        ensure-success (codes "server_url must be an HTTP or HTTPS URL")
          (is_server_url (machine.parse_uri s.server_url)) _ config h in
      let (key, h2) =
        ensure-success (codes "api_key is required") (not (is_blank s.api_key)) _ config h1 in
      let (megabytes, large, h3) =
        need-success (codes "max_buffer_size_mb must be positive") (positive s.max_buffer_size_mb) _
          config h2 in
      let (records, many, h4) =
        need-success (codes "batch_size must be positive") (positive s.batch_size) _ config h3 in
      let (interval, long, h5) =
        need-success (codes "flush_interval must be positive") (positive s.flush_interval) _ config
          h4 in
      let (level, known, h6) =
        need-success (codes "min_level is not supported")
          (normalize_configured_level machine s.min_level) _ config h5 in
      let (sampling, shares, h7) =
        bind-success (check_sampling machine s.sampling []) _ config h6 in
      let (files, watched, h8) = bind-success (check_files machine s.files []) _ config h7 in
      let (all, distinct, newer, count) = check_files-lem s.files files [] watched in
      subst IsValidConfig (success-injective {E = Text} _ config h8) (
        positive-le s.max_buffer_size_mb megabytes large,
        positive-le s.batch_size records many,
        positive-le s.flush_interval interval long,
        configured-IsLevel s.min_level level known,
        check_sampling-All s.sampling [] sampling tt shares,
        omega (arith, count, some_files),
        all,
        distinct,
      )

  defaults-files :
      (decoded s : Settings) → apply_defaults machine decoded ≡ success s → 1 ≤ length s.files
  unfolding apply_defaults
  defaults-files decoded s h =
      let named = if text_eq decoded.host [] then machine.hostname else some decoded.host in
      let (host, given, h1) = need-success (codes "get machine hostname") named _ s h in
      let (filled, h2) =
        ensure-success (codes "at least one watched file is required")
          (ltb 0 (length decoded.files)) _ s h1 in
      let same : length decoded.files ≡ length s.files =
        ap (λ (t : Settings). length t.files) (success-injective {E = Text} _ s h2) in
      omega (arith, ltb→lt 0 (length decoded.files) filled, same)

  -- Settings that are loaded have positive sizes and a positive interval, one of the six levels as the
  -- least level, percentages of at most 100 for such levels, and at least one file; and each file has
  -- a path, a known format and time zone, and a clean path that no other file has.
  pub load_config-IsValidConfig :
      (file : SettingsFile) (config : Config)
      → load_config machine file ≡ success config
      → IsValidConfig config
  unfolding load_config
  load_config-IsValidConfig not_opened config h = absurd (ground arith)
  load_config-IsValidConfig not_decoded config h = absurd (ground arith)
  load_config-IsValidConfig several_documents config h = absurd (ground arith)
  load_config-IsValidConfig (one_document decoded) config h =
      let (s, defaulted, h1) = bind-success (apply_defaults machine decoded) _ config h in
      validate-IsValidConfig s config (defaults-files decoded s defaulted) h1
