-- ===== src/Parser/Unknown.antt =====
-- What a JSON line leaves among the attributes of its record.
use centi_log.Base.{
  ℕ, false, [], ◌∷◌, Option, none, some, ◌≡◌, ◌≢◌, refl, arith, if◌then◌else◌, All, ◌∙◌, ap,
}
use centi_log.Dict.{Dict, lookup, lookup-insert, HasUniqueKeys}
use centi_log.Parser.{Times, empty_log, complete_log, parse_format, parse_line}
use centi_log.Parser.Json.{
  Json, FieldRole, timestamp_field, attributes_field, other_field, put_key, sort_keys, set_field,
  set_fields, raw_value, role_of, normalize_field_name, parse_json_line, parse_json_timestamp,
}
use centi_log.Schema.{Log}
use centi_log.Tailer.{FileLine}
use centi_log.Text.{Text, Unicode, text_eq, codes, trim_space}
use centi_log.Text.Equality.{text_eq_iff}
use centi_log.Text.Utf8.{to_lower}

lookup-put_key :
    (k j : Text) (v : Text) (m : Dict Text)
    → lookup j m ≡ none
    → lookup k (put_key (j, v) m) ≡ (if text_eq k j then some v else lookup k m)
unfolding put_key lookup
lookup-put_key k j v [] fresh = refl
lookup-put_key k j v ((i, w) ∷ m) fresh =
    let later : lookup j m ≡ none = ground arith in
    ground (
      arith,
      text_eq_iff k j,
      text_eq_iff k i,
      text_eq_iff j i,
      fresh,
      lookup-put_key k j v m later,
    )

lookup-sort_keys :
    (k : Text) (m : Dict Text) → HasUniqueKeys m → lookup k (sort_keys m) ≡ lookup k m
unfolding sort_keys lookup
lookup-sort_keys k [] h = refl
lookup-sort_keys k ((j, v) ∷ m) (fresh, h) = ground (
  arith,
  lookup-put_key k j v (sort_keys m) (lookup-sort_keys j m h ∙ fresh),
  lookup-sort_keys k m h,
)

put_key-HasUniqueKeys :
    (j v : Text) (m : Dict Text)
    → lookup j m ≡ none
    → HasUniqueKeys m
    → HasUniqueKeys (put_key (j, v) m)
unfolding put_key lookup
put_key-HasUniqueKeys j v [] fresh h = (refl, tt)
put_key-HasUniqueKeys j v ((i, w) ∷ m) fresh (first, h) =
    let later : lookup j m ≡ none = ground arith in
    ground (
      arith,
      text_eq_iff i j,
      text_eq_iff j i,
      fresh,
      lookup-put_key i j v m later,
      put_key-HasUniqueKeys j v m later h,
    )

sort_keys-HasUniqueKeys : (m : Dict Text) → HasUniqueKeys m → HasUniqueKeys (sort_keys m)
unfolding sort_keys
sort_keys-HasUniqueKeys [] h = tt
sort_keys-HasUniqueKeys ((j, v) ∷ m) (fresh, h) =
    put_key-HasUniqueKeys j v (sort_keys m) (lookup-sort_keys j m h ∙ fresh)
      (sort_keys-HasUniqueKeys m h)

module _ (u : Unicode) (json : Json) (times : Times) where
  -- What a field with this role leaves among the attributes under its own key.
  unfoldable pub own_attribute : FieldRole → Text → Option Text
  own_attribute other_field raw = some (raw_value json raw)
  own_attribute timestamp_field raw = elim (parse_json_timestamp json times raw) [
    | some timestamp ↦ none
    | none ↦ some (raw_value json raw)
  ]
  own_attribute role raw = none

  abbrev or_attribute : Option Text → Option Text → Option Text
  or_attribute own before = elim own [ some value ↦ some value | none ↦ before ]

  abbrev kept_attribute : Text → Option Text → Option Text → Option Text
  kept_attribute k field before = elim field [
    | some raw ↦ or_attribute (own_attribute (role_of (normalize_field_name u k)) raw) before
    | none ↦ before
  ]

  -- No field holds attributes of its own.
  abbrev pub IsFlat : Dict Text → Type 0
  IsFlat fields = All (λ e. role_of (normalize_field_name u e.0) ≢ attributes_field) fields

  set_field-attributes :
      (role : FieldRole) (k key raw : Text) (log : Log)
      → role ≢ attributes_field
      → lookup k (set_field json times role key raw log).attributes ≡ (
          if text_eq k key
          then or_attribute (own_attribute role raw) (lookup k log.attributes)
          else lookup k log.attributes)
  unfolding set_field own_attribute
  set_field-attributes timestamp_field k key raw log flat =
      ground (arith, lookup-insert k key (raw_value json raw) log.attributes)
  set_field-attributes other_field k key raw log flat =
      ground (arith, lookup-insert k key (raw_value json raw) log.attributes)
  set_field-attributes attributes_field k key raw log flat = absurd (flat refl)
  set_field-attributes role k key raw log flat = ground arith

  set_fields-attributes :
      (fields : Dict Text) (k : Text) (log : Log)
      → HasUniqueKeys fields
      → IsFlat fields
      → lookup k (set_fields json times u fields log).attributes
        ≡ kept_attribute k (lookup k fields) (lookup k log.attributes)
  unfolding set_fields lookup
  set_fields-attributes [] k log h flat = refl
  set_fields-attributes ((key, raw) ∷ rest) k log (fresh, h) (one, flat) =
      let role = role_of (normalize_field_name u key) in
      ground (
        arith,
        fresh,
        text_eq_iff k key,
        set_fields-attributes rest k (set_field json times role key raw log) h flat,
        set_field-attributes role k key raw log one,
      )

  put_key-IsFlat :
      (e : Text × Text) (m : Dict Text)
      → role_of (normalize_field_name u e.0) ≢ attributes_field
      → IsFlat m
      → IsFlat (put_key e m)
  unfolding put_key
  put_key-IsFlat e [] one flat = (one, tt)
  put_key-IsFlat e (f ∷ m) one (two, flat) = ground (arith, put_key-IsFlat e m one flat)

  sort_keys-IsFlat : (m : Dict Text) → IsFlat m → IsFlat (sort_keys m)
  unfolding sort_keys
  sort_keys-IsFlat [] flat = tt
  sort_keys-IsFlat (e ∷ m) (one, flat) =
      put_key-IsFlat e (sort_keys m) one (sort_keys-IsFlat m flat)

  parse_json_line-attributes :
      (line : Text) (fields : Dict Text)
      → json.object line ≡ some fields
      → HasUniqueKeys fields
      → IsFlat fields
      → (log : Log) × (parse_json_line json times u line ≡ some log)
        × ((k : Text) → lookup k log.attributes ≡ kept_attribute k (lookup k fields) none)
  unfolding parse_json_line lookup
  parse_json_line-attributes line fields found h flat = (
    set_fields json times u (sort_keys fields) empty_log,
    ground (arith, found),
    λ k.
        set_fields-attributes (sort_keys fields) k empty_log (sort_keys-HasUniqueKeys fields h)
          (sort_keys-IsFlat fields flat)
        ∙ ap (λ field. kept_attribute k field none) (lookup-sort_keys k fields h),
  )

  complete_log-attributes :
      (line : Text) (log : Log) → (complete_log u line log).attributes ≡ log.attributes
  unfolding complete_log
  complete_log-attributes line log = refl

  -- Where a line is a JSON object of which no field holds attributes of its own, in a file whose format
  -- is not given as syslog or as text, the attributes of its record are exactly the fields whose name is
  -- none of those that the parser knows and the times that cannot be read, each under the key it has in
  -- the line and with its value. So no field of a structured line is lost because its name is unknown.
  pub parse_line-attributes :
      (line : FileLine) (now : ℕ) (fields : Dict Text)
      → text_eq (to_lower u (trim_space line.file.format)) (codes "syslog") ≡ false
      → text_eq (to_lower u (trim_space line.file.format)) (codes "text") ≡ false
      → json.object line.text ≡ some fields
      → HasUniqueKeys fields
      → IsFlat fields
      → (k : Text)
      → lookup k (parse_line u (parse_json_line json times u) times line now).attributes
        ≡ (elim (lookup k fields) [
          | some raw ↦ own_attribute (role_of (normalize_field_name u k)) raw
          | none ↦ none
        ])
  unfolding parse_line parse_format
  parse_line-attributes line now fields syslog text found h flat k =
      let (log, read, kept) = parse_json_line-attributes line.text fields found h flat in
      ground (arith, syslog, text, read, kept k, complete_log-attributes line.text log)
