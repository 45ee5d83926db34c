-- ===== src/Processor/Verdicts.antt =====
-- Which lines the processor keeps, and what every record that it keeps satisfies.
use mathlib.Core.Path.{subst}
use centi_log.Base.{
  Bool-cases, Option-cases, inl, inr, none, ℕ, [], some, ◌<◌, ◌↔◌, ◌≡◌, ◌≤◌, ◌⊎◌, ap, arith, false,
  refl, sym, ◌∙◌,
}
use centi_log.Config.{Config, hundred, sampling_percentage}
use centi_log.Dict.{lookup}
use centi_log.Processor.{kept, Moment, prepared, process_detailed, sampled_out}
use centi_log.Redact.{mask, redact, sensitive_attribute_key}
use centi_log.Redact.Attributes.{redact-attributes, redact-sensitive}
use centi_log.Schema.{Log, level_rank, normalize_level, normalize_fields_at}
use centi_log.Schema.Levels.{
  Level, level_text, level_value, normalize_level-level_value, normalize_level_idempotent,
}
use centi_log.Text.{Text, Unicode}

sampled_out-false_iff :
    (percentage draw : ℕ)
    → (sampled_out percentage draw ≡ false)
      ↔ ((1 ≤ percentage) × ((hundred ≤ percentage) ⊎ (draw < percentage)))
unfolding sampled_out
sampled_out-false_iff percentage draw = (λ h. ground arith, λ h. ground arith)

kept-injective : (x y : Log) → kept x ≡ kept y → x ≡ y
kept-injective x y h = cc

module _ (u : Unicode) where
  -- What a record may have under a key.
  abbrev pub Hides : Text → Log → Type 0
  Hides key log =
      (sensitive_attribute_key u key ≡ false)
      ⊎ (lookup key log.attributes ≡ none)
      ⊎ (lookup key log.attributes ≡ some [])
      ⊎ (lookup key log.attributes ≡ some mask)

  redacted-Hides : (made : Log) (key : Text) → Hides key (redact u made)
  redacted-Hides made key = elim (Bool-cases (sensitive_attribute_key u key)) [
    | inr plain ↦ inl plain
    | inl sensitive ↦ elim (Option-cases (lookup key (redact u made).attributes)) [
      | inl nothing ↦ inr (inl nothing)
      | inr (value, found) ↦ elim (redact-sensitive u made key value sensitive found) [
        | inl empty ↦ inr (inr (inl (found ∙ ap some empty)))
        | inr masked ↦ inr (inr (inr (found ∙ ap some masked)))
      ]
    ]
  ]

module _ (u : Unicode) (config : Config) (m : Moment) (parsed : Log) where
  -- What the configuration asks of a line that is kept.
  abbrev pub Passes : Type 0
  Passes =
      let log = prepared u config m parsed in
      let percentage = sampling_percentage u config log.level in
      (level_rank u config.min_level ≤ level_rank u log.level)
      × (1 ≤ percentage)
      × ((hundred ≤ percentage) ⊎ (m.draw < percentage))

  -- A line is kept if and only if its level is at least the configured one and the percentage
  -- configured for its level is not zero and either at least a hundred or above the draw; then its
  -- record is the redacted normal form of the parsed one.
  pub process_detailed-kept_iff :
      (log : Log)
      → (process_detailed u config m parsed ≡ kept log)
        ↔ (Passes × (log ≡ redact u (prepared u config m parsed)))
  unfolding process_detailed
  process_detailed-kept_iff log =
      let made = prepared u config m parsed in
      let test = sampled_out-false_iff (sampling_percentage u config made.level) m.draw in
      (λ h. ground arith, λ h. ground arith)

  -- Every record that is kept carries the configured host and environment, has one of the six
  -- levels with a rank that is not below the configured one, and under each sensitive key either no
  -- attribute, or an empty value, or the mask.
  pub process_detailed-kept_lem :
      (log : Log)
      → process_detailed u config m parsed ≡ kept log
      → (log.host ≡ config.host)
        × (log.env ≡ config.env)
        × (level_rank u config.min_level ≤ level_rank u log.level)
        × (normalize_level u log.level ≡ log.level)
        × ((v : Level) × (log.level ≡ level_text v))
        × ((key : Text) → Hides u key log)
  process_detailed-kept_lem log h =
      let made = prepared u config m parsed in
      let (passes, same) = (process_detailed-kept_iff log).0 h in
      let facts = redact-attributes u made [] in
      let level : log.level ≡ made.level = ap (λ l. l.level) same ∙ facts.5 in
      let canonical : normalize_level u made.level ≡ made.level =
        unfold prepared normalize_fields_at in normalize_level_idempotent u parsed.level in
      (
        ap (λ l. l.host) same ∙ facts.3 ∙ (unfold prepared normalize_fields_at in refl),
        ap (λ l. l.env) same ∙ facts.4 ∙ (unfold prepared normalize_fields_at in refl),
        rw level passes.0,
        rw level canonical,
        (
          level_value u parsed.level,
          level ∙ unfold prepared normalize_fields_at in normalize_level-level_value u parsed.level,
        ),
        λ key. subst (Hides u key) (sym same) (redacted-Hides u made key),
      )
