-- ===== src/Dict.antt =====
-- Go's `map[string]V`: its entries in some order, one for each key that is present.
use centi_log.Base.{◌≡◌, List, [], ◌∷◌, Option, none, some, arith, if◌then◌else◌}
use centi_log.Text.{Text, text_eq}
use centi_log.Text.Equality.{text_eq_iff, text_eq_refl}

abbrev pub Dict {ℓ} : Type ℓ → Type ℓ
Dict V = List (Text × V)

module _ {ℓ} {V : Type ℓ} where
  -- `v, ok := m[k]`
  unfoldable pub lookup : Text → Dict V → Option V
  lookup k [] = none
  lookup k ((j, v) ∷ m) = if text_eq k j then some v else lookup k m

  -- `delete(m, k)`
  unfoldable pub erase : Text → Dict V → Dict V
  erase k [] = []
  erase k ((j, v) ∷ m) = let rest = erase k m in if text_eq k j then rest else (j, v) ∷ rest

  -- `m[k] = v`
  unfoldable pub insert : Text → V → Dict V → Dict V
  unfolding erase
  insert k v m = (k, v) ∷ erase k m

  pub lookup-erase :
      (j k : Text) (m : Dict V) → lookup j (erase k m) ≡ (if text_eq j k then none else lookup j m)
  unfolding lookup erase
  lookup-erase j k [] = ground arith
  lookup-erase j k ((i, v) ∷ m) =
      ground (arith, text_eq_iff j k, text_eq_iff j i, text_eq_iff k i, lookup-erase j k m)

  pub lookup-insert :
      (j k : Text) (v : V) (m : Dict V)
      → lookup j (insert k v m) ≡ (if text_eq j k then some v else lookup j m)
  unfolding lookup insert
  lookup-insert j k v m = ground (arith, lookup-erase j k m)

  pub lookup-insert_self : (k : Text) (v : V) (m : Dict V) → lookup k (insert k v m) ≡ some v
  lookup-insert_self k v m = ground (arith, lookup-insert k k v m, text_eq_refl k)

  -- No key has two entries.
  abbrev pub HasUniqueKeys : Dict V → Type ℓ
  HasUniqueKeys [] = Unit
  HasUniqueKeys ((k, v) ∷ m) = (lookup k m ≡ none) × HasUniqueKeys m

  pub erase-HasUniqueKeys : (k : Text) (m : Dict V) → HasUniqueKeys m → HasUniqueKeys (erase k m)
  unfolding erase
  erase-HasUniqueKeys k [] h = h
  erase-HasUniqueKeys k ((j, v) ∷ m) (fresh, h) =
      ground (arith, erase-HasUniqueKeys k m h, lookup-erase j k m)

  pub insert-HasUniqueKeys :
      (k : Text) (v : V) (m : Dict V) → HasUniqueKeys m → HasUniqueKeys (insert k v m)
  unfolding insert
  insert-HasUniqueKeys k v m h =
      (ground (arith, lookup-erase k k m, text_eq_refl k), erase-HasUniqueKeys k m h)
