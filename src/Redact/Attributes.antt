-- ===== src/Redact/Attributes.antt =====
-- `Redact`: what becomes of the attributes and of the flag.
use mathlib.Core.Option
use centi_log.Base.{
  Bool-cases, [], ap, inl, inr, refl, some, sym, true, ◌∷◌, ◌≡◌, ◌⊎◌, Option-cases, arith, false,
  ◌↔◌,
}
use centi_log.Dict.{Dict, lookup}
use centi_log.Redact.{
  mask, redact, redact_attributes, redact_message, redact_value, sensitive_attribute_key,
}
use centi_log.Schema.{Log}
use centi_log.Text.{Text, Unicode, text_eq}
use centi_log.Text.Equality.{text_eq_iff}

module _ (u : Unicode) where
  -- The attributes that `redact_attributes` returns, and its flag.
  lookup-redact_attributes :
      (key : Text) (attributes : Dict Text)
      → lookup key (redact_attributes u attributes).0
        ≡ Option.map (redact_value u key) (lookup key attributes)
  unfolding redact_attributes lookup
  lookup-redact_attributes key [] = refl
  lookup-redact_attributes key ((k, v) ∷ rest) = elim (Bool-cases (text_eq key k)) [
    | inl same ↦ rw same (ap (λ j. some (redact_value u j v)) (sym ((text_eq_iff key k).0 same)))
    | inr other ↦ rw other (lookup-redact_attributes key rest)
  ]

  -- Redaction keeps the keys of the attributes, and each value becomes what its own key and value
  -- say; the service, host, environment, level, times, trace and retention stay.
  pub redact-attributes :
      (log : Log) (key : Text)
      → let out = redact u log in
        (lookup key out.attributes ≡ Option.map (redact_value u key) (lookup key log.attributes))
        × (out.message ≡ redact_message log.message)
        × (out.service ≡ log.service)
        × (out.host ≡ log.host)
        × (out.env ≡ log.env)
        × (out.level ≡ log.level)
        × (out.timestamp ≡ log.timestamp)
        × (out.trace_id ≡ log.trace_id)
        × (out.retention_days ≡ log.retention_days)
  unfolding redact
  redact-attributes log key =
      (lookup-redact_attributes key log.attributes, refl, refl, refl, refl, refl, refl, refl, refl)

  sensitive_value :
      (key value : Text)
      → sensitive_attribute_key u key ≡ true
      → (redact_value u key value ≡ []) ⊎ (redact_value u key value ≡ mask)
  unfolding redact_value
  sensitive_value key value sensitive = ground (arith, text_eq_iff value [], text_eq_iff value mask)

  -- No attribute with a sensitive key keeps a value: after redaction it is empty or the mask.
  pub redact-sensitive :
      (log : Log) (key value : Text)
      → sensitive_attribute_key u key ≡ true
      → lookup key (redact u log).attributes ≡ some value
      → (value ≡ []) ⊎ (value ≡ mask)
  redact-sensitive log key value sensitive found =
      let all = (redact-attributes log key).0 in
      elim (Option-cases (lookup key log.attributes)) [
        | inl absent ↦ ground arith
        | inr (old, present) ↦ ground (arith, sensitive_value key old sensitive)
      ]

  unchanged_iff :
      (attributes : Dict Text)
      → ((redact_attributes u attributes).1 ≡ false)
        ↔ ((redact_attributes u attributes).0 ≡ attributes)
  unfolding redact_attributes
  unchanged_iff [] = (λ h. refl, λ h. refl)
  unchanged_iff ((key, value) ∷ rest) =
      let test = text_eq_iff (redact_value u key value) value in
      let (attributes, changed) = redact_attributes u rest in
      let ih = unchanged_iff rest in (λ h. ground arith, λ h. ground arith)

  -- The record is flagged exactly when it was flagged before, or redaction changed something: it is
  -- not flagged if and only if it was not and its message and attributes are as they came.
  pub redact-redacted_iff :
      (log : Log)
      → ((redact u log).redacted ≡ false) ↔ (
          (log.redacted ≡ false)
          × ((redact u log).message ≡ log.message)
          × ((redact u log).attributes ≡ log.attributes))
  unfolding redact
  redact-redacted_iff log =
      ground
        (arith, unchanged_iff log.attributes, text_eq_iff (redact_message log.message) log.message)
