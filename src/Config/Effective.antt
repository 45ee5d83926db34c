-- ===== src/Config/Effective.antt =====
-- The percentages of the file, as the processor of the agent reads them.
use centi_log.Base.{
  true, false, [], ◌∷◌, some, success, inl, inr, ◌≡◌, refl, arith, ◌≤◌, sym, ap, ◌∙◌, need-success,
  ensure-success, bind-success, success-injective, Bool-cases, ℕ,
}
use centi_log.Config.{Config, hundred, sampling_percentage}
use centi_log.Config.Settings.{
  one_document, not_finite, below_zero, steps, Machine, Percentage, Settings, apply_defaults,
  check_sampling, is_none, load_config, normalize_configured_level, percentage_of, validate,
  wrong_sampling,
}
use centi_log.Config.Valid.{is_one_of_all, percentage_of-le}
use centi_log.Dict.{Dict, lookup, insert, lookup-insert, lookup-insert_self}
use centi_log.Schema.{level_of, normalize_level}
use centi_log.Text.{Text, Unicode, codes, text_eq, is_one_of, trim_space}
use centi_log.Text.Equality.{text_eq_iff}
use centi_log.Text.Utf8.{to_lower}

-- A word that the checks accept is as it was lowered and trimmed already.
accepted_again :
    (u : Unicode) (given : Text)
    → is_one_of given (
        "trace" ∷ "debug" ∷ "info" ∷ "warn" ∷ "warning" ∷ "error" ∷ "err" ∷ "fatal" ∷ "critical"
        ∷ [])
      ≡ true
    → to_lower u (trim_space given) ≡ given
unfolding to_lower trim_space codes
accepted_again u given h =
    is_one_of_all (λ s. to_lower u (trim_space s) ≡ s) given _
      (refl, (refl, (refl, (refl, (refl, (refl, (refl, (refl, (refl, tt))))))))) h

sampling_percentage_found :
    (u : Unicode) (config : Config) (name : Text) (v : ℕ)
    → lookup (normalize_level u name) config.sampling ≡ some v
    → sampling_percentage u config name ≡ v
unfolding sampling_percentage
sampling_percentage_found u config name v h = ground (arith, h)

percentage_of-steps : (p : Percentage) (v : ℕ) → percentage_of p ≡ some v → p ≡ steps v
unfolding percentage_of
percentage_of-steps not_finite v h = absurd (ground arith)
percentage_of-steps below_zero v h = absurd (ground arith)
percentage_of-steps (steps n) v h = ground arith

module _ (machine : Machine) where
  configured-normalize_level :
      (name level : Text)
      → normalize_configured_level machine name ≡ some level
      → level ≡ normalize_level machine.unicode name
  unfolding normalize_configured_level normalize_level
  configured-normalize_level name level h =
      let given = to_lower machine.unicode (trim_space name) in
      elim (Bool-cases (is_one_of given _)) [
        | inr unknown ↦ absurd (ground (arith, unknown, h))
        | inl known ↦
            let same = accepted_again machine.unicode given known in
            ground (arith, h, known, ap level_of same)
      ]

  fresh_other :
      (level l : Text) (v : ℕ) (before : Dict ℕ)
      → is_none (lookup level before) ≡ true
      → lookup l before ≡ some v
      → text_eq l level ≡ false
  unfolding is_none
  fresh_other level l v before fresh found = elim (Bool-cases (text_eq l level)) [
    | inr other ↦ other
    | inl same ↦
        let it : lookup l before ≡ lookup level before =
          ap (λ k. lookup k before) ((text_eq_iff l level).0 same) in
        absurd (ground (arith, it, fresh, found))
  ]

  -- What is in the sampling already stays.
  check_sampling-keeps :
      (sampling : Dict Percentage) (before out : Dict ℕ) (l : Text) (v : ℕ)
      → check_sampling machine sampling before ≡ success out
      → lookup l before ≡ some v
      → lookup l out ≡ some v
  unfolding check_sampling
  check_sampling-keeps [] before out l v h found =
      sym (ap (lookup l) (success-injective {E = Text} before out h)) ∙ found
  check_sampling-keeps ((name, percentage) ∷ sampling) before out l v h found =
      let (level, known, h1) =
        need-success wrong_sampling (normalize_configured_level machine name) _ out h in
      let (value, within, h2) = need-success wrong_sampling (percentage_of percentage) _ out h1 in
      let (fresh, h3) =
        ensure-success (codes "sampling level is configured more than once")
          (is_none (lookup level before)) _ out h2 in
      let other = fresh_other level l v before fresh found in
      check_sampling-keeps sampling (insert level value before) out l v h3
        (lookup-insert l level value before ∙ ground (arith, other, found))

  check_sampling-entry :
      (sampling : Dict Percentage) (before out : Dict ℕ) (name : Text) (p : Percentage)
      → check_sampling machine sampling before ≡ success out
      → lookup name sampling ≡ some p
      → (v : ℕ) × (percentage_of p ≡ some v)
        × (lookup (normalize_level machine.unicode name) out ≡ some v)
  unfolding check_sampling lookup
  check_sampling-entry [] before out name p h found = absurd (ground (arith, found))
  check_sampling-entry ((k, q) ∷ sampling) before out name p h found =
      let (level, known, h1) =
        need-success wrong_sampling (normalize_configured_level machine k) _ out h in
      let (value, within, h2) = need-success wrong_sampling (percentage_of q) _ out h1 in
      let (fresh, h3) =
        ensure-success (codes "sampling level is configured more than once")
          (is_none (lookup level before)) _ out h2 in
      elim (Bool-cases (text_eq name k)) [
        | inr other ↦
            check_sampling-entry sampling (insert level value before) out name p h3
              (ground (arith, other, found))
        | inl here ↦
            let it : level ≡ normalize_level machine.unicode name =
              configured-normalize_level k level known
              ∙ ap (normalize_level machine.unicode) (sym ((text_eq_iff name k).0 here)) in
            let q_is_p : q ≡ p = ground (arith, here, found) in
            (
              value,
              ap percentage_of (sym q_is_p) ∙ within,
              ap (λ l. lookup l out) (sym it)
                  ∙ check_sampling-keeps sampling (insert level value before) out level value h3
                      (lookup-insert_self level value before),
            )
      ]

  validate-sampling :
      (s : Settings) (config : Config)
      → validate machine s ≡ success config
      → check_sampling machine s.sampling [] ≡ success config.sampling
  unfolding validate
  validate-sampling s config h = ground arith

  defaults-sampling :
      (decoded s : Settings)
      → apply_defaults machine decoded ≡ success s
      → s.sampling ≡ decoded.sampling
  unfolding apply_defaults
  defaults-sampling decoded s h = ground arith

  loaded-sampling :
      (decoded : Settings) (config : Config)
      → load_config machine (one_document decoded) ≡ success config
      → check_sampling machine decoded.sampling [] ≡ success config.sampling
  unfolding load_config
  loaded-sampling decoded config h =
      let (s, defaulted, h1) = bind-success (apply_defaults machine decoded) _ config h in
      sym (ap (λ d. check_sampling machine d []) (defaults-sampling decoded s defaulted))
      ∙ validate-sampling s config h1

  -- Where settings are loaded, a percentage that the file gives for a level is from 0 to 100, and it is
  -- the one by which the processor samples each name that normalizes to the same level.
  pub load_config-sampling_percentage :
      (decoded : Settings) (config : Config) (name other : Text) (p : Percentage)
      → load_config machine (one_document decoded) ≡ success config
      → lookup name decoded.sampling ≡ some p
      → normalize_level machine.unicode other ≡ normalize_level machine.unicode name
      → (v : ℕ) × (p ≡ steps v)
        × (v ≤ hundred)
        × (sampling_percentage machine.unicode config other ≡ v)
  load_config-sampling_percentage decoded config name other p h given alike =
      let (v, within, found) =
        check_sampling-entry decoded.sampling [] config.sampling name p
          (loaded-sampling decoded config h) given in
      (
        v,
        percentage_of-steps p v within,
        percentage_of-le p v within,
        sampling_percentage_found machine.unicode config other v
            (ap (λ l. lookup l config.sampling) alike ∙ found),
      )
