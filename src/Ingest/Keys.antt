-- ===== src/Ingest/Keys.antt =====
-- The cache of API keys: what a refresh leaves in it.
use mathlib.Core.Path.{subst}
use centi_log.Base.{
  [], ◌∷◌, ◌≡◌, none, some, ok, err, inl, inr, Bool, Bool-cases, List, Option, Result-cases, ap,
  arith, false, if◌then◌else◌, ltb, refl, sym, ◌||◌, ◌∙◌, ◌≢◌, ◌≤◌, ◌⊎◌,
}
use centi_log.Dict.{Dict, insert, lookup, lookup-insert}
use centi_log.Ingest.{ServiceIdentity, ServiceRow, Answer, query_failed, rows, load_rows, refresh}
use centi_log.Text.{Text, codes, text_eq}
use centi_log.Text.Equality.{text_eq_iff}

-- An identity that may stamp records: a service with a name and a retention that fits in 16 bits.
abbrev pub IsValid : Text → ServiceIdentity → Type 0
IsValid key identity =
    (key ≢ [])
    × (identity.service ≢ [])
    × (1 ≤ identity.retention_days)
    × (identity.retention_days ≤ 65_535)

abbrev pub AllValid : Dict ServiceIdentity → Type 0
AllValid entries =
    (key : Text) (identity : ServiceIdentity)
    → lookup key entries ≡ some identity
    → IsValid key identity

abbrev identity_of : ServiceRow → ServiceIdentity
identity_of row = record { service = row.name; retention_days = row.days }

abbrev is_refused : ServiceRow → Bool
is_refused row = text_eq row.name [] || text_eq row.key [] || ltb row.days 1 || ltb 65_535 row.days

identity-injective : (x y : ServiceIdentity) → some x ≡ some y → x ≡ y
identity-injective x y h = cc

ok-injective : (x y : Dict ServiceIdentity) → ok x ≡ ok y → x ≡ y
ok-injective x y h = cc

accepted-IsValid : (row : ServiceRow) → is_refused row ≡ false → IsValid row.key (identity_of row)
accepted-IsValid row h = ground (arith, text_eq_iff row.name [], text_eq_iff row.key [])

insert-AllValid :
    (row : ServiceRow) (entries : Dict ServiceIdentity)
    → is_refused row ≡ false
    → AllValid entries
    → AllValid (insert row.key (identity_of row) entries)
insert-AllValid row entries h valid key identity found =
    let valid_row = accepted-IsValid row h in
    let step = lookup-insert key row.key (identity_of row) entries in
    elim (Bool-cases (text_eq key row.key)) [
      | inl here ↦
          let same : key ≡ row.key = (text_eq_iff key row.key).0 here in
          let one : some (identity_of row) ≡ some identity =
            ap (λ t. if t then some (identity_of row) else lookup key entries) (sym here)
            ∙ sym step
            ∙ found in
          let it : identity_of row ≡ identity = identity-injective (identity_of row) identity one in
          subst (λ k. IsValid k identity) (sym same) (subst (IsValid row.key) it valid_row)
      | inr other ↦
          let old : lookup key entries ≡ some identity =
            ap (λ t. if t then some (identity_of row) else lookup key entries) (sym other)
            ∙ sym step
            ∙ found in
          valid key identity old
    ]

load_rows-AllValid :
    (list : List (Option ServiceRow)) (entries loaded : Dict ServiceIdentity)
    → AllValid entries
    → load_rows list entries ≡ ok loaded
    → AllValid loaded
unfolding load_rows
load_rows-AllValid [] entries loaded valid h = subst AllValid (ok-injective entries loaded h) valid
load_rows-AllValid (none ∷ more) entries loaded valid h = absurd (ground arith)
load_rows-AllValid (some row ∷ more) entries loaded valid h = elim (Bool-cases (is_refused row)) [
  | inl refused ↦ absurd (ground arith)
  | inr taken ↦
      load_rows-AllValid more (insert row.key (identity_of row) entries) loaded
        (insert-AllValid row entries taken valid) (ground arith)
]

refresh_unread :
    (entries : Dict ServiceIdentity) (list : List (Option ServiceRow)) (fine : Bool)
    (message : Text)
    → load_rows list [] ≡ err message
    → refresh entries (rows list fine) ≡ (entries, some message)
unfolding refresh
refresh_unread entries list fine message h = ground arith

refresh_read :
    (entries loaded : Dict ServiceIdentity) (list : List (Option ServiceRow)) (fine : Bool)
    → load_rows list [] ≡ ok loaded
    → refresh entries (rows list fine)
      ≡ (if fine then (loaded, none) else (entries, some (codes "failed while reading API keys")))
unfolding refresh
refresh_read entries loaded list fine h = ground arith

pub nothing-AllValid : AllValid []
unfolding lookup
nothing-AllValid key identity h = cc

-- A cache whose entries all have a key, a service's name and a retention from 1 to 65,535 days keeps
-- this through a refresh, whatever the database answers; and where the refresh reports an error, the
-- cache is as it was.
pub refresh-AllValid :
    (entries : Dict ServiceIdentity) (answer : Answer)
    → AllValid entries
    → AllValid (refresh entries answer).0
      × (((refresh entries answer).1 ≡ none) ⊎ ((refresh entries answer).0 ≡ entries))
unfolding refresh
refresh-AllValid entries query_failed valid = (valid, inr refl)
refresh-AllValid entries (rows list fine) valid = elim (Result-cases (load_rows list [])) [
  | inr (message, failed) ↦ rw (refresh_unread entries list fine message failed) (valid, inr refl)
  | inl (loaded, read) ↦
      let loaded_valid = load_rows-AllValid list [] loaded nothing-AllValid read in
      rw (refresh_read entries loaded list fine read) (elim (Bool-cases fine) [
        | inl whole ↦ rw whole (loaded_valid, inl refl)
        | inr cut ↦ rw cut (valid, inr refl)
      ])
]
