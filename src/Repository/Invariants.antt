-- ===== src/Repository/Invariants.antt =====
-- What every operation of cmd/api/postgres.go keeps.
use mathlib.Core.Path.{subst}
use centi_log.Base.{
  ℕ, ◌+◌, true, false, ◌||◌, not, List, [], ◌∷◌, inl, inr, ◌≡◌, ◌≢◌, refl, arith, sym, ap, ◌∙◌,
  Bool-cases, All, All-map,
}
use centi_log.Repository.{
  Database, StoredService, Tables, create_service_of, create_user_of, has_api_key, has_service,
  is_retention, set_retention, update_retention_of, Credentials, has_email,
}
use centi_log.Repository.Transactions.{
  IsConsistent, IsOld, burned, create_user-ways, Inserted, with_account, IsOther, given-cases,
  grant_all-known,
}
use centi_log.Text.{Text, codes, text_eq}
use centi_log.Text.Equality.{text_eq_iff}
use centi_log.Text.Integers.{ℤ, pos, negsuc}
use centi_log.Token.{User}

has_service-set_retention :
    (name n : Text) (days : ℤ) (services : List StoredService)
    → has_service n (set_retention name days services) ≡ has_service n services
unfolding has_service set_retention
has_service-set_retention name n days [] = refl
has_service-set_retention name n days (s ∷ services) =
    ground (arith, has_service-set_retention name n days services)

-- The services grow, so that what is granted stays known.
grants-known :
    (next : ℕ) (few many : List StoredService) (grants : List (ℤ × Text))
    → ((n : Text) → has_service n few ≡ true → has_service n many ≡ true)
    → All (λ g. IsOld next g.0 × (has_service g.1 few ≡ true)) grants
    → All (λ g. IsOld next g.0 × (has_service g.1 many ≡ true)) grants
grants-known next few many grants more =
    All-map (λ g. IsOld next g.0 × (has_service g.1 few ≡ true))
      (λ g. IsOld next g.0 × (has_service g.1 many ≡ true))
      (λ g (old, known). (old, more g.1 known)) grants

with_services-IsConsistent :
    (t : Tables) (services : List StoredService)
    → ((n : Text) → has_service n t.services ≡ true → has_service n services ≡ true)
    → IsConsistent t
    → IsConsistent (record t { services = services })
with_services-IsConsistent t services more (numbers, belonging, unique) =
    (numbers, grants-known t.next_id t.services services t.grants more belonging, unique)

update_retention-IsConsistent :
    (db : Database) (name : Text) (days : ℤ) (t : Tables)
    → IsConsistent t
    → IsConsistent (update_retention_of db name days t).0
unfolding update_retention_of
update_retention-IsConsistent db name days t h = elim (Bool-cases db.query_fails) [
  | inl broken ↦ rw broken h
  | inr asked ↦ elim (Bool-cases (has_service name t.services)) [
    | inr unknown ↦ rw (asked, unknown) h
    | inl known ↦ elim (Bool-cases (is_retention days)) [
      | inr wrong ↦ rw (asked, known, wrong) h
      | inl fine ↦
          rw (asked, known, fine)
            (with_services-IsConsistent t (set_retention name days t.services)
              (λ n there. has_service-set_retention name n days t.services ∙ there) h)
    ]
  ]
]

has_service_more :
    (n : Text) (s : StoredService) (services : List StoredService)
    → has_service n services ≡ true
    → has_service n (s ∷ services) ≡ true
unfolding has_service
has_service_more n s services h = ground (arith, h)

create_service-IsConsistent :
    (db : Database) (name key : Text) (days : ℤ) (t : Tables)
    → IsConsistent t
    → IsConsistent (create_service_of db name key days t).0
unfolding create_service_of
create_service-IsConsistent db name key days t h =
    elim (Bool-cases (db.query_fails || not (is_retention days))) [
      | inl broken ↦ rw broken h
      | inr asked ↦ elim (Bool-cases (has_service name t.services || has_api_key key t.services)) [
        | inl taken ↦ rw (asked, taken) h
        | inr free ↦
            let s : StoredService = record {
              service = record { name = name; retention_days = days; created_at = db.clock };
              api_key = key;
            } in
            rw (asked, free)
              (with_services-IsConsistent t (s ∷ t.services)
                (λ n there. has_service_more n s t.services there) h)
      ]
    ]

IsOld-suc : (next : ℕ) (i : ℤ) → IsOld next i → IsOld (next + 1) i
IsOld-suc next (pos n) h = omega arith
IsOld-suc next (negsuc n) h = elim h [ ]

burned-IsConsistent : (t : Tables) → IsConsistent t → IsConsistent (burned t)
burned-IsConsistent t (numbers, belonging, unique) = (
  All-map (λ c. IsOld t.next_id c.account.id) (λ c. IsOld (t.next_id + 1) c.account.id)
      (λ c old. IsOld-suc t.next_id c.account.id old) t.users numbers,
  All-map (λ g. IsOld t.next_id g.0 × (has_service g.1 t.services ≡ true))
      (λ g. IsOld (t.next_id + 1) g.0 × (has_service g.1 t.services ≡ true))
      (λ g (old, known). (IsOld-suc t.next_id g.0 old, known)) t.grants belonging,
  unique,
)

old-not_new : (next : ℕ) (i : ℤ) → IsOld next i → i ≢ pos next
old-not_new next (pos n) old same = absurd (ground arith)
old-not_new next (negsuc n) old same = elim old [ ]

-- No account has the address or the next number.
new-IsOther :
    (next : ℕ) (c : Credentials) (users : List Credentials)
    → c.account.id ≡ pos next
    → has_email c.account.email users ≡ false
    → All (λ d. IsOld next d.account.id) users
    → All (IsOther c) users
unfolding has_email
new-IsOther next c [] number fresh old = tt
new-IsOther next c (d ∷ users) number fresh (one, rest) = (
  (
    λ same. old-not_new next d.account.id one (sym same ∙ number),
    λ same.
        let here = (text_eq_iff d.account.email c.account.email).1 (sym same) in
        ground (arith, here, fresh),
  ),
  new-IsOther next c users number (ground arith) rest,
)

granted-known :
    (next : ℕ) (email role : Text) (names : List Text) (t : Tables) (created : User)
    (grants : List (ℤ × Text))
    → Inserted email role names t created grants
    → IsOld next (pos t.next_id)
    → All (λ g. IsOld next g.0 × (has_service g.1 t.services ≡ true)) t.grants
    → All (λ g. IsOld next g.0 × (has_service g.1 t.services ≡ true)) grants
granted-known next email role names t created grants (made, fresh, known, given) old all =
    elim (given-cases (text_eq role (codes "viewer")) names t grants given) [
      | inl (viewer, ran) ↦
          grant_all-known (pos t.next_id) next t.services names t.grants grants old all ran
      | inr (other, same) ↦
          subst (All (λ g. IsOld next g.0 × (has_service g.1 t.services ≡ true))) same all
    ]

with_account-IsConsistent :
    (email hash role : Text) (names : List Text) (t : Tables) (created : User)
    (grants : List (ℤ × Text))
    → Inserted email role names t created grants
    → IsConsistent t
    → IsConsistent (with_account t hash created grants)
with_account-IsConsistent email hash role names t created grants inserted h =
    let (made, fresh, known, given) = inserted in
    let (numbers, belonging, unique) = burned-IsConsistent t h in
    let number : created.id ≡ pos t.next_id = ap (λ (u : User). u.id) made in
    let address : created.email ≡ email = ap (λ (u : User). u.email) made in
    let old : IsOld (t.next_id + 1) (pos t.next_id) = omega arith in
    let c : Credentials = record { account = created; password_hash = hash } in
    (
      (subst (IsOld (t.next_id + 1)) (sym number) old, numbers),
      granted-known (t.next_id + 1) email role names t created grants inserted old belonging,
      (
        new-IsOther t.next_id c t.users number (ap (λ e. has_email e t.users) address ∙ fresh) h.0,
        unique,
      ),
    )

create_user-IsConsistent :
    (db : Database) (email hash role : Text) (names : List Text) (t : Tables)
    → IsConsistent t
    → IsConsistent (create_user_of db email hash role names t).0
create_user-IsConsistent db email hash role names t h =
    elim (create_user-ways db email hash role names t) [
      | inl (u, e, out, inl same) ↦ subst IsConsistent (sym (ap (λ p. p.0) out ∙ same)) h
      | inl (u, e, out, inr same) ↦
          subst IsConsistent (sym (ap (λ p. p.0) out ∙ same)) (burned-IsConsistent t h)
      | inr (created, grants, inserted, out) ↦
          subst IsConsistent (sym (ap (λ p. p.0) out))
            (with_account-IsConsistent email hash role names t created grants inserted h)
    ]

-- Whatever happens to the statements, the operations that write keep the tables consistent: numbers of
-- accounts come from the sequence, no two accounts share a number or an address, and a grant belongs
-- to such a number and a stored service.
pub operations-IsConsistent :
    (db : Database) (name key email hash role : Text) (names : List Text) (days : ℤ) (t : Tables)
    → IsConsistent t
    → IsConsistent (create_service_of db name key days t).0
      × IsConsistent (update_retention_of db name days t).0
      × IsConsistent (create_user_of db email hash role names t).0
operations-IsConsistent db name key email hash role names days t h = (
  create_service-IsConsistent db name key days t h,
  update_retention-IsConsistent db name days t h,
  create_user-IsConsistent db email hash role names t h,
)
