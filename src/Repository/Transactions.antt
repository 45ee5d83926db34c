-- ===== src/Repository/Transactions.antt =====
-- The transaction of `CreateUser`: what it inserts, and its ways.
use mathlib.Core.Path.{subst}
use centi_log.Base.{
  ℕ, ◌+◌, ◌<◌, Bool, true, false, ◌&&◌, ◌||◌, not, List, [], ◌∷◌, success, failure, Attempt,
  if◌then◌else◌, inl, inr, ◌≡◌, ◌≢◌, ◌⊎◌, refl, arith, sym, ap, ◌∙◌, Bool-cases, bind-success,
  ensure-success, success-injective, Attempt-cases, All, ◌↔◌,
}
use centi_log.Repository.{
  other_error, unique_violation, Database, StoredService, Tables, contains_service, grant_all,
  has_email, has_service, insert_user, int_eq, is_granted, StoreError, commit_user, create_user_of,
  Credentials,
}
use centi_log.Text.{Text, codes, text_eq}
use centi_log.Text.Integers.{ℤ, pos, negsuc}
use centi_log.Token.{User}

pub int_eq_iff : (i j : ℤ) → (int_eq i j ≡ true) ↔ (i ≡ j)
unfolding int_eq
int_eq_iff (pos m) (pos n) = ground arith
int_eq_iff (pos m) (negsuc n) = (λ h. cc, λ h. cc)
int_eq_iff (negsuc m) (pos n) = (λ h. cc, λ h. cc)
int_eq_iff (negsuc m) (negsuc n) = ground arith

-- A number that the sequence has given out before.
abbrev pub IsOld : ℕ → ℤ → Type 0
IsOld next (pos n) = n < next
IsOld next (negsuc n) = ⊥

-- The two accounts differ in their numbers and in their addresses.
abbrev pub IsOther : Credentials → Credentials → Type 0
IsOther c d = (c.account.id ≢ d.account.id) × (c.account.email ≢ d.account.email)

abbrev pub HasUniqueUsers : List Credentials → Type 0
HasUniqueUsers [] = Unit
HasUniqueUsers (c ∷ users) = All (IsOther c) users × HasUniqueUsers users

-- Numbers of accounts come from the sequence, and grants belong to such numbers and stored services;
-- no two accounts share their number or their address.
abbrev pub IsConsistent : Tables → Type 0
IsConsistent t =
    All (λ c. IsOld t.next_id c.account.id) t.users
    × All (λ g. IsOld t.next_id g.0 × (has_service g.1 t.services ≡ true)) t.grants
    × HasUniqueUsers t.users

-- The grants after `grant_all`: those before, and one for each name.
pub grant_all-is_granted :
    (id : ℤ) (services : List StoredService) (names : List Text) (grants made : List (ℤ × Text))
    (j : ℤ) (name : Text)
    → grant_all id services names grants ≡ success made
    → is_granted j name made
      ≡ (is_granted j name grants || (int_eq id j && contains_service names name))
unfolding grant_all contains_service
grant_all-is_granted id services [] grants made j name h =
    let same : grants ≡ made = success-injective grants made h in
    ap (is_granted j name) (sym same) ∙ ground arith
grant_all-is_granted id services (n ∷ names) grants made j name h =
    elim (Bool-cases (is_granted id n grants)) [
      | inl twice ↦ absurd (ground arith)
      | inr once ↦ elim (Bool-cases (has_service n services)) [
        | inr unknown ↦ absurd (ground arith)
        | inl known ↦
            let later : grant_all id services names ((id, n) ∷ grants) ≡ success made =
              ground arith in
            let ih = grant_all-is_granted id services names ((id, n) ∷ grants) made j name later in
            let step : is_granted j name ((id, n) ∷ grants)
                ≡ ((int_eq id j && text_eq n name) || is_granted j name grants) =
              unfold is_granted in refl in
            ground (arith, ih, step)
      ]
    ]

pub grant_all-known :
    (id : ℤ) (next : ℕ) (services : List StoredService) (names : List Text)
    (grants made : List (ℤ × Text))
    → IsOld next id
    → All (λ g. IsOld next g.0 × (has_service g.1 services ≡ true)) grants
    → grant_all id services names grants ≡ success made
    → All (λ g. IsOld next g.0 × (has_service g.1 services ≡ true)) made
unfolding grant_all
grant_all-known id next services [] grants made old all h =
    subst (All (λ g. IsOld next g.0 × (has_service g.1 services ≡ true)))
      (success-injective grants made h) all
grant_all-known id next services (n ∷ names) grants made old all h =
    elim (Bool-cases (is_granted id n grants)) [
      | inl twice ↦ absurd (ground arith)
      | inr once ↦ elim (Bool-cases (has_service n services)) [
        | inr unknown ↦ absurd (ground arith)
        | inl known ↦
            grant_all-known id next services names ((id, n) ∷ grants) made old ((old, known), all)
              (ground arith)
      ]
    ]

-- What a transaction that succeeds inserts.
abbrev pub Inserted : Text → Text → List Text → Tables → User → List (ℤ × Text) → Type 0
Inserted email role names t created grants =
    (created ≡ record { id = pos t.next_id; email = email; role = role })
    × (has_email email t.users ≡ false)
    × ((text_eq role (codes "admin") || text_eq role (codes "viewer")) ≡ true)
    × ((if text_eq role (codes "viewer")
          then grant_all (pos t.next_id) t.services names t.grants
          else success t.grants)
        ≡ success grants)

pub given-cases :
    (viewer : Bool) (names : List Text) (t : Tables) (grants : List (ℤ × Text))
    → (if viewer then grant_all (pos t.next_id) t.services names t.grants else success t.grants)
      ≡ success grants
    → ((viewer ≡ true) × (grant_all (pos t.next_id) t.services names t.grants ≡ success grants))
      ⊎ ((viewer ≡ false) × (t.grants ≡ grants))
given-cases true names t grants h = inl (refl, h)
given-cases false names t grants h = inr (refl, success-injective t.grants grants h)

insert_user-Inserted :
    (db : Database) (email hash role : Text) (names : List Text) (t : Tables) (created : User)
    (grants : List (ℤ × Text))
    → insert_user db email hash role names t ≡ success (created, grants)
    → Inserted email role names t created grants
unfolding insert_user
insert_user-Inserted db email hash role names t created grants h =
    let known = text_eq role (codes "admin") || text_eq role (codes "viewer") in
    let (fine, h1) =
      ensure-success (other_error (codes "insert user"))
        (not db.query_fails && not db.scan_fails && known) _ (created, grants) h in
    let (fresh, h2) =
      ensure-success unique_violation (not (has_email email t.users)) _ (created, grants) h1 in
    let (made, given, h3) =
      bind-success
        (if text_eq role (codes "viewer")
          then grant_all (pos t.next_id) t.services names t.grants
          else success t.grants)
        _ (created, grants) h2 in
    let it : User = record { id = pos t.next_id; email = email; role = role } in
    let both = success-injective (it, made) (created, grants) h3 in
    let same : made ≡ grants = ap (λ p. p.1) both in
    (sym (ap (λ p. p.0) both), ground arith, ground arith, given ∙ ap success same)

-- The tables with the rows of a new account.
abbrev pub with_account : Tables → Text → User → List (ℤ × Text) → Tables
with_account t hash created grants = record t {
  users = record { account = created; password_hash = hash } ∷ t.users;
  grants = grants;
  next_id = t.next_id + 1;
}

abbrev pub burned : Tables → Tables
burned t = record t { next_id = t.next_id + 1 }

-- The ways of `CreateUser`: no row is changed, or the account and its grants are there.
abbrev pub Ways :
    Text → Text → List Text → Tables → Text → Tables × Attempt StoreError User → Type 0
Ways email role names t hash out =
    ((u : Tables) × (e : StoreError) × (out ≡ (u, failure e)) × ((u ≡ t) ⊎ (u ≡ burned t)))
    ⊎ ((created : User) × (grants : List (ℤ × Text)) × Inserted email role names t created grants
        × (out ≡ (with_account t hash created grants, success created)))

module _ (db : Database) (email hash role : Text) (names : List Text) (t : Tables) where
  abbrev creating : Tables × Attempt StoreError User
  creating = create_user_of db email hash role names t

  created_failed :
      (e : StoreError)
      → db.begin_fails ≡ false
      → insert_user db email hash role names t ≡ failure e
      → creating ≡ (burned t, failure e)
  unfolding create_user_of commit_user
  created_failed e started h = ground arith

  created_uncommitted :
      (made : User × List (ℤ × Text))
      → db.begin_fails ≡ false
      → insert_user db email hash role names t ≡ success made
      → db.commit_fails ≡ true
      → creating ≡ (burned t, failure (other_error (codes "commit user creation")))
  unfolding create_user_of commit_user
  created_uncommitted (created, grants) started h broken = ground arith

  created_committed :
      (made : User × List (ℤ × Text))
      → db.begin_fails ≡ false
      → insert_user db email hash role names t ≡ success made
      → db.commit_fails ≡ false
      → creating ≡ (with_account t hash made.0 made.1, success made.0)
  unfolding create_user_of commit_user
  created_committed (created, grants) started h fine = ground arith

  created_unstarted :
      db.begin_fails ≡ true → creating ≡ (t, failure (other_error (codes "begin user creation")))
  unfolding create_user_of
  created_unstarted broken = ground arith

  pub create_user-ways : Ways email role names t hash creating
  create_user-ways = elim (Bool-cases db.begin_fails) [
    | inl broken ↦
        inl (t, other_error (codes "begin user creation"), created_unstarted broken, inl refl)
    | inr started ↦ elim (Attempt-cases (insert_user db email hash role names t)) [
      | inr (e, stopped) ↦ inl (burned t, e, created_failed e started stopped, inr refl)
      | inl (made, inserted) ↦ elim (Bool-cases db.commit_fails) [
        | inl broken ↦ inl (
          burned t,
          other_error (codes "commit user creation"),
          created_uncommitted made started inserted broken,
          inr refl,
        )
        | inr fine ↦ inr (
          made.0,
          made.1,
          insert_user-Inserted db email hash role names t made.0 made.1 inserted,
          created_committed made started inserted fine,
        )
      ]
    ]
  ]

failure-success :
    (e : StoreError) (u : User) → ◌≡◌ {A = Attempt StoreError User} (failure e) (success u) → ⊥
failure-success e u h = cc

-- What holds of an account that was created.
pub created-Inserted :
    (db : Database) (email hash role : Text) (names : List Text) (t after : Tables) (created : User)
    → create_user_of db email hash role names t ≡ (after, success created)
    → (grants : List (ℤ × Text)) × Inserted email role names t created grants
      × (after ≡ with_account t hash created grants)
created-Inserted db email hash role names t after created h =
    elim (create_user-ways db email hash role names t) [
      | inl (u, e, out, kept) ↦ absurd (failure-success e created (ap (λ p. p.1) (sym out ∙ h)))
      | inr (made, grants, inserted, out) ↦
          let both = sym out ∙ h in
          let same : made ≡ created = success-injective made created (ap (λ p. p.1) both) in
          subst
            (λ u.
              (g : List (ℤ × Text)) × Inserted email role names t u g
              × (after ≡ with_account t hash u g))
            same (grants, inserted, sym (ap (λ p. p.0) both))
    ]
