-- ===== src/Ingest/Stamped.antt =====
-- What the handler of `/v1/logs` hands to the queue, and what it answers.
use mathlib.Core.Path.{subst}
use centi_log.Base.{
  ℕ, [], ◌∷◌, ◌≡◌, none, some, ok, err, inl, inr, All, List, Option, Option-cases, arith, length,
  refl, true, ◌+◌, ◌⊎◌, Result-cases, ap, sym, ◌∙◌, ◌≢◌,
}
use centi_log.Dict.{lookup}
use centi_log.Ingest.{ServiceIdentity, serialize, serialize_all, stamp}
use centi_log.Redact.{mask, sensitive_attribute_key, redact}
use centi_log.Redact.Attributes.{redact-attributes, redact-sensitive}
use centi_log.Schema.{Log, normalize_at, normalize_fields_at, normalize_level, truncate_millis}
use centi_log.Schema.Levels.{normalize_level_idempotent}
use centi_log.Text.{Text, Unicode}

-- A record that may enter the queue for a service.
pub record IsStamped (u : Unicode) (identity : ServiceIdentity) (log : Log) : Type 0 where
  pub same_service : log.service ≡ identity.service
  pub same_retention : log.retention_days ≡ identity.retention_days
  pub canonical_level : normalize_level u log.level ≡ log.level
  pub masked :
      (key value : Text)
      → sensitive_attribute_key u key ≡ true
      → lookup key log.attributes ≡ some value
      → (value ≡ []) ⊎ (value ≡ mask)

normalize_at-fields :
    (u : Unicode) (log out : Log) (now clock : ℕ)
    → normalize_at u log now clock ≡ ok out
    → out ≡ normalize_fields_at u log now clock
unfolding normalize_at
normalize_at-fields u log out now clock h = ground arith

stamp_ok :
    (u : Unicode) (identity : ServiceIdentity) (now : ℕ) (log normalized out : Log)
    → normalize_at u
        (record log { service = identity.service; retention_days = identity.retention_days })
        now
        now
      ≡ ok normalized
    → stamp u identity now log ≡ ok out
    → record (redact u normalized) { ingested_at = truncate_millis now } ≡ out
unfolding stamp
stamp_ok u identity now log normalized out valid h = ground arith

stamp_err :
    (u : Unicode) (identity : ServiceIdentity) (now : ℕ) (log out : Log) (message : Text)
    → normalize_at u
        (record log { service = identity.service; retention_days = identity.retention_days })
        now
        now
      ≡ err message
    → stamp u identity now log ≢ ok out
unfolding stamp
stamp_err u identity now log out message invalid h = ground arith

redacted-IsStamped :
    (u : Unicode) (identity : ServiceIdentity) (now : ℕ) (log : Log)
    → IsStamped u identity
        (record (redact u (
          normalize_fields_at u
            (record log { service = identity.service; retention_days = identity.retention_days })
            now
            now)) { ingested_at = truncate_millis now })
redacted-IsStamped u identity now log =
    let given : Log = record log {
      service = identity.service;
      retention_days = identity.retention_days;
    } in
    let normalized = normalize_fields_at u given now now in
    let facts = redact-attributes u normalized [] in
    let canonical : normalize_level u normalized.level ≡ normalized.level =
      unfold normalize_fields_at in normalize_level_idempotent u log.level in
    record {
      same_service = facts.2 ∙ (unfold normalize_fields_at in refl);
      same_retention = facts.8 ∙ (unfold normalize_fields_at in refl);
      canonical_level = ap (normalize_level u) facts.5 ∙ canonical ∙ sym facts.5;
      masked = λ key value sensitive found. redact-sensitive u normalized key value sensitive found;
    }

stamp-IsStamped :
    (u : Unicode) (identity : ServiceIdentity) (now : ℕ) (log out : Log)
    → stamp u identity now log ≡ ok out
    → IsStamped u identity out
stamp-IsStamped u identity now log out h =
    let given : Log = record log {
      service = identity.service;
      retention_days = identity.retention_days;
    } in
    elim (Result-cases (normalize_at u given now now)) [
      | inl (normalized, valid) ↦
          let same =
            ap (λ n. record (redact u n) { ingested_at = truncate_millis now })
              (sym (normalize_at-fields u given normalized now now valid))
            ∙ stamp_ok u identity now log normalized out valid h in
          subst (IsStamped u identity) same (redacted-IsStamped u identity now log)
      | inr (message, invalid) ↦ absurd (stamp_err u identity now log out message invalid h)
    ]

module _ (u : Unicode) (identity : ServiceIdentity) (now : ℕ) {Raw : Type 0}
    (decode : Raw → Option Log) (encode : Log → Option Text) where
  -- A text of the queue.
  abbrev pub IsQueued : Text → Type 0
  IsQueued text = (log : Log) × (encode log ≡ some text) × IsStamped u identity log

  serialize-found :
      (raw : Raw) (text : Text)
      → serialize u identity now decode encode raw ≡ some text
      → (log : Log) × (out : Log) × (stamp u identity now log ≡ ok out) × (encode out ≡ some text)
  unfolding serialize
  serialize-found raw text h = elim (Option-cases (decode raw)) [
    | inl none_read ↦ absurd (ground arith)
    | inr (log, read) ↦ elim (Result-cases (stamp u identity now log)) [
      | inl (out, stamped) ↦ (log, out, stamped, ground arith)
      | inr (message, invalid) ↦ absurd (ground arith)
    ]
  ]

  serialize-IsQueued :
      (raw : Raw) (text : Text)
      → serialize u identity now decode encode raw ≡ some text
      → IsQueued text
  serialize-IsQueued raw text h =
      let (log, out, stamped, encoded) = serialize-found raw text h in
      (out, encoded, stamp-IsStamped u identity now log out stamped)

  serialize_all-none :
      (raw : Raw) (raws : List Raw)
      → serialize u identity now decode encode raw ≡ none
      → let r = serialize_all u identity now decode encode raws in
        serialize_all u identity now decode encode (raw ∷ raws) ≡ (r.0, r.1 + 1)
  unfolding serialize_all
  serialize_all-none raw raws h = ground arith

  serialize_all-some :
      (raw : Raw) (raws : List Raw) (text : Text)
      → serialize u identity now decode encode raw ≡ some text
      → let r = serialize_all u identity now decode encode raws in
        serialize_all u identity now decode encode (raw ∷ raws) ≡ (text ∷ r.0, r.1)
  unfolding serialize_all
  serialize_all-some raw raws text h = ground arith

  pub serialize_all-facts :
      (raws : List Raw)
      → let r = serialize_all u identity now decode encode raws in
        All IsQueued r.0 × (length r.0 + r.1 ≡ length raws)
  serialize_all-facts [] = unfold serialize_all in (tt, refl)
  serialize_all-facts (raw ∷ raws) =
      let (queued, count) = serialize_all-facts raws in
      elim (Option-cases (serialize u identity now decode encode raw)) [
        | inl refused ↦ rw (serialize_all-none raw raws refused) (queued, omega arith)
        | inr (text, made) ↦
            rw (serialize_all-some raw raws text made)
              ((serialize-IsQueued raw text made, queued), omega arith)
      ]
