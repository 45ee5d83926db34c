-- ===== src/Schema/Levels.antt =====
-- `NormalizeLevel` and `LevelRank`: the six levels, in their order.
use centi_log.Base.{◌≡◌, refl, sym, ap, ◌∙◌, ◌↔◌, ℕ, ◌≤◌, arith, if◌then◌else◌, [], ◌∷◌}
use centi_log.Schema.{level_of, rank_of, normalize_level, level_rank}
use centi_log.Text.{Text, Unicode, codes, text_eq, is_one_of, trim_space}
use centi_log.Text.Utf8.{to_lower}

-- The six levels of the schema.
pub data Level : Type 0 where
  trace debug info warn error fatal : Level

unfoldable pub level_text : Level → Text
level_text trace = codes "trace"
level_text debug = codes "debug"
level_text info = codes "info"
level_text warn = codes "warn"
level_text error = codes "error"
level_text fatal = codes "fatal"

abbrev pub level_index : Level → ℕ
level_index trace = 0
level_index debug = 1
level_index info = 2
level_index warn = 3
level_index error = 4
level_index fatal = 5

-- Which level a lowered and trimmed name stands for.
pub classify : Text → Level
classify l =
    if is_one_of l ("trace" ∷ "verbose" ∷ "finest" ∷ [])
    then trace
    else if is_one_of l ("debug" ∷ "dbg" ∷ [])
    then debug
    else if is_one_of l ("info" ∷ "informational" ∷ "notice" ∷ [])
    then info
    else if is_one_of l ("warn" ∷ "warning" ∷ "wrn" ∷ [])
    then warn
    else if is_one_of l ("error" ∷ "err" ∷ "exception" ∷ [])
    then error
    else if is_one_of l ("fatal" ∷ "critical" ∷ "crit" ∷ "panic" ∷ "emergency" ∷ "alert" ∷ [])
    then fatal
    else info

level_of-classify : (l : Text) → level_of l ≡ level_text (classify l)
unfolding level_of level_text classify
level_of-classify l = ground arith

rank_of-level_text : (v : Level) → rank_of (level_text v) ≡ level_index v
unfolding rank_of level_text is_one_of codes text_eq
rank_of-level_text trace = refl
rank_of-level_text debug = refl
rank_of-level_text info = refl
rank_of-level_text warn = refl
rank_of-level_text error = refl
rank_of-level_text fatal = refl

level_index-injective : (v w : Level) → level_index v ≡ level_index w → v ≡ w
level_index-injective v w h = ground arith

module _ (u : Unicode) where
  -- What `normalize_level` says, as a level.
  pub level_value : Text → Level
  level_value name = classify (to_lower u (trim_space name))

  pub normalize_level-level_value :
      (name : Text) → normalize_level u name ≡ level_text (level_value name)
  unfolding normalize_level level_value
  normalize_level-level_value name = level_of-classify (to_lower u (trim_space name))

  pub level_rank-level_value : (name : Text) → level_rank u name ≡ level_index (level_value name)
  unfolding level_rank
  level_rank-level_value name =
      ap rank_of (normalize_level-level_value name) ∙ rank_of-level_text (level_value name)

  level_value-level_text : (v : Level) → level_value (level_text v) ≡ v
  unfolding level_value classify level_text is_one_of codes text_eq trim_space to_lower
  level_value-level_text trace = refl
  level_value-level_text debug = refl
  level_value-level_text info = refl
  level_value-level_text warn = refl
  level_value-level_text error = refl
  level_value-level_text fatal = refl

  -- Normalizing a normalized level changes nothing.
  pub normalize_level_idempotent :
      (name : Text) → normalize_level u (normalize_level u name) ≡ normalize_level u name
  normalize_level_idempotent name = rw (normalize_level-level_value name) (
      normalize_level-level_value (level_text (level_value name))
      ∙ ap level_text (level_value-level_text (level_value name)))

  rank-normalize_level : (name : Text) → level_rank u (normalize_level u name) ≡ level_rank u name
  unfolding level_rank
  rank-normalize_level name = ap rank_of (normalize_level_idempotent name)

  level_of_rank : (a b : Text) → level_rank u a ≡ level_rank u b → level_value a ≡ level_value b
  level_of_rank a b h =
      level_index-injective _ _ (sym (level_rank-level_value a) ∙ h ∙ level_rank-level_value b)

  level_index-le : (v : Level) → level_index v ≤ 5
  level_index-le v = ground arith

  -- Two names have the same rank exactly when they normalize to the same level; the rank of a
  -- normalized level is the rank of its name, and no rank passes 5.
  pub level_rank-normalize_level :
      (a b : Text)
      → ((level_rank u a ≡ level_rank u b) ↔ (normalize_level u a ≡ normalize_level u b))
        × (level_rank u (normalize_level u a) ≡ level_rank u a)
        × (level_rank u a ≤ 5)
  level_rank-normalize_level a b = (
    (
      λ h.
          rw (normalize_level-level_value a, normalize_level-level_value b)
            (ap level_text (level_of_rank a b h)),
      λ h. sym (rank-normalize_level a) ∙ ap (level_rank u) h ∙ rank-normalize_level b,
    ),
    rank-normalize_level a,
    rw level_rank-level_value (level_index-le (level_value a)),
  )
