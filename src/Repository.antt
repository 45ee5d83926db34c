-- ===== src/Repository.antt =====
-- cmd/api/postgres.go: accounts, services and grants, as the API keeps them, over the tables of
-- deploy/postgres/init.sql with their constraints. `Database` is what the server and the driver add:
-- the collation, the clock, and which steps fail. Texts that Postgres refuses count as failed steps.
pub mod Visible
pub mod Transactions
pub mod Creation
pub mod Invariants
mod Tests
use centi_log.Base.{
  ℕ, ◌+◌, ◌^◌, Bool, true, false, not, ◌&&◌, ◌||◌, List, [], ◌∷◌, Option, none, some, Attempt,
  success, failure, need, ensure, ◌>>=◌, ◌>>◌, if◌then◌else◌, map, leb, ltb,
}
use centi_log.Text.{Text, codes, text_eq}
use centi_log.Text.Integers.{ℤ, pos, negsuc}
use centi_log.Token.{User}

-- `credentials`, a row of `users`
pub record Credentials : Type 0 where
  pub account : User
  pub password_hash : Text

-- `service`
pub record Service : Type 0 where
  pub name : Text
  pub retention_days : ℤ
  pub created_at : ℕ

-- The errors that the handlers tell apart.
pub data StoreError : Type 0 where
  invalid_credentials no_rows unique_violation : StoreError
  other_error : Text → StoreError

-- The interface `repository`, over the state behind it.
pub record Repository (S : Type 0) : Type 0 where
  pub credentials_by_email : Text → S → Attempt StoreError Credentials
  pub services_for_user : ℤ → Text → S → Attempt StoreError (List Service)
  pub create_service : Text → Text → ℤ → S → S × Attempt StoreError Service
  pub update_retention : Text → ℤ → S → S × Attempt StoreError (Unit {0})
  pub create_user : Text → Text → Text → List Text → S → S × Attempt StoreError User

-- A row of `services`
pub record StoredService : Type 0 where
  pub service : Service
  pub api_key : Text

-- The tables, and the next number of the sequence behind `users.id`.
pub record Tables : Type 0 where
  pub users : List Credentials
  pub services : List StoredService
  pub grants : List (ℤ × Text)
  pub next_id : ℕ

pub record Database : Type 0 where
  pub before : Text → Text → Bool
  pub clock : ℕ
  pub query_fails : Bool
  pub scan_fails : Bool
  pub end_fails : Bool
  pub begin_fails : Bool
  pub commit_fails : Bool

unfoldable pub int_eq : ℤ → ℤ → Bool
int_eq (pos m) (pos n) = leb m n && leb n m
int_eq (pos m) (negsuc n) = false
int_eq (negsuc m) (pos n) = false
int_eq (negsuc m) (negsuc n) = leb m n && leb n m

-- `WHERE email = $1`
unfoldable pub find_user : Text → List Credentials → Option Credentials
find_user email [] = none
find_user email (c ∷ users) =
    if text_eq c.account.email email then some c else find_user email users

unfoldable pub has_email : Text → List Credentials → Bool
has_email email [] = false
has_email email (c ∷ users) = text_eq c.account.email email || has_email email users

-- `serviceNames` and `containsService` of cmd/api/api.go
unfoldable pub service_names : List Service → List Text
service_names [] = []
service_names (item ∷ services) = item.name ∷ service_names services

unfoldable pub contains_service : List Text → Text → Bool
contains_service [] requested = false
contains_service (name ∷ services) requested =
    let rest = contains_service services requested in if text_eq name requested then true else rest

-- A service of this name is stored.
unfoldable pub has_service : Text → List StoredService → Bool
has_service name [] = false
has_service name (s ∷ services) = text_eq s.service.name name || has_service name services

unfoldable pub has_api_key : Text → List StoredService → Bool
has_api_key key [] = false
has_api_key key (s ∷ services) = text_eq s.api_key key || has_api_key key services

unfoldable pub is_granted : ℤ → Text → List (ℤ × Text) → Bool
is_granted id name [] = false
is_granted id name ((i, n) ∷ grants) = (int_eq i id && text_eq n name) || is_granted id name grants

-- `ORDER BY s.name`
unfoldable pub put_by_name : (Text → Text → Bool) → Service → List Service → List Service
put_by_name before s [] = s ∷ []
put_by_name before s (t ∷ rest) =
    let later = put_by_name before s rest in
    if before t.name s.name then t ∷ later else s ∷ t ∷ rest

-- The rows that the join makes of one service: one for each of its grants to the user, or one without
-- a grant. `WHERE` keeps those of an administrator and those with a grant.
unfoldable pub joined_grants : ℤ → Text → List (ℤ × Text) → List (Option ℤ)
joined_grants id name [] = []
joined_grants id name ((i, n) ∷ grants) =
    let rest = joined_grants id name grants in
    if text_eq n name && int_eq i id then some i ∷ rest else rest

unfoldable pub or_null : List (Option ℤ) → List (Option ℤ)
or_null [] = none ∷ []
or_null (row ∷ rows) = row ∷ rows

unfoldable pub is_selected : Text → Option ℤ → Bool
is_selected role none = text_eq role (codes "admin")
is_selected role (some i) = true

unfoldable pub keep_selected :
    (Text → Text → Bool) → Text → Service → List (Option ℤ) → List Service → List Service
keep_selected before role s [] found = found
keep_selected before role s (row ∷ rows) found =
    let rest = keep_selected before role s rows found in
    if is_selected role row then put_by_name before s rest else rest

unfoldable pub select_services :
    (Text → Text → Bool) → ℤ → Text → List (ℤ × Text) → List StoredService → List Service
select_services before id role grants [] = []
select_services before id role grants (s ∷ services) =
    keep_selected before role s.service (or_null (joined_grants id s.service.name grants))
      (select_services before id role grants services)

-- The type `INTEGER` and `CHECK (retention_days > 0)`.
unfoldable pub is_retention : ℤ → Bool
is_retention (pos n) = ltb 0 n && ltb n (2 ^ 31)
is_retention (negsuc n) = false

-- `SET retention_days = $1 WHERE name = $2`
unfoldable pub set_retention : Text → ℤ → List StoredService → List StoredService
set_retention name days [] = []
set_retention name days (s ∷ services) =
    let rest = set_retention name days services in
    if text_eq s.service.name name
    then record s { service = record s.service { retention_days = days } } ∷ rest
    else s ∷ rest

-- The inserts of `CreateUser` into `user_services`.
unfoldable pub grant_all :
    ℤ → List StoredService → List Text → List (ℤ × Text) → Attempt StoreError (List (ℤ × Text))
grant_all id services [] grants = success grants
grant_all id services (name ∷ names) grants =
    let later = grant_all id services names ((id, name) ∷ grants) in
    if is_granted id name grants
    then failure unique_violation
    else if has_service name services
    then later
    else failure (other_error (codes "foreign key violation"))

module _ (db : Database) where
  -- `CredentialsByEmail`
  unfoldable pub credentials_by_email_of : Text → Tables → Attempt StoreError Credentials
  credentials_by_email_of email t =
      if db.query_fails || db.scan_fails
      then failure (other_error (codes "query user credentials"))
      else need invalid_credentials (find_user email t.users)

  -- The loop over the rows, and `rows.Err()` after it.
  unfoldable pub read_services : List Service → Attempt StoreError (List Service)
  read_services [] =
      if db.end_fails then failure (other_error (codes "read visible services")) else success []
  read_services (item ∷ rows) =
      let rest = read_services rows in
      if db.scan_fails
      then failure (other_error (codes "read visible services"))
      else do services ← rest; success (item ∷ services)

  -- `ServicesForUser`
  unfoldable pub services_for_user_of : ℤ → Text → Tables → Attempt StoreError (List Service)
  services_for_user_of id role t =
      if db.query_fails
      then failure (other_error (codes "query visible services"))
      else read_services (select_services db.before id role t.grants t.services)

  -- `CreateService`
  unfoldable pub create_service_of : Text → Text → ℤ → Tables → Tables × Attempt StoreError Service
  create_service_of name key days t =
      let created : Service = record {
        name = name;
        retention_days = days;
        created_at = db.clock;
      } in
      let stored : StoredService = record { service = created; api_key = key } in
      if db.query_fails || not (is_retention days)
      then (t, failure (other_error (codes "insert service")))
      else if has_service name t.services || has_api_key key t.services
      then (t, failure unique_violation)
      else (
        record t { services = stored ∷ t.services },
        if db.scan_fails then failure (other_error (codes "scan")) else success created,
      )

  -- `UpdateRetention`
  unfoldable pub update_retention_of : Text → ℤ → Tables → Tables × Attempt StoreError (Unit {0})
  update_retention_of name days t =
      if db.query_fails
      then (t, failure (other_error (codes "update service retention")))
      else if not (has_service name t.services)
      then (
        t,
        failure (if db.scan_fails then other_error (codes "check service update") else no_rows),
      )
      else if not (is_retention days)
      then (t, failure (other_error (codes "update service retention")))
      else (
        record t { services = set_retention name days t.services },
        if db.scan_fails then failure (other_error (codes "check service update")) else success tt,
      )

  -- The transaction of `CreateUser` between its begin and its commit: the new row, and the grants.
  unfoldable pub insert_user :
      Text → Text → Text → List Text → Tables → Attempt StoreError (User × List (ℤ × Text))
  insert_user email hash role names t = do
    ensure (other_error (codes "insert user")) (
        not db.query_fails
        && not db.scan_fails
        && (text_eq role (codes "admin") || text_eq role (codes "viewer")))
    ensure unique_violation (not (has_email email t.users))
    let created : User = record { id = pos t.next_id; email = email; role = role }
    let granted : Attempt StoreError (List (ℤ × Text)) =
        if text_eq role (codes "viewer")
        then grant_all (pos t.next_id) t.services names t.grants
        else success t.grants
    grants ← granted
    success (created, grants)

  -- The tables after the transaction: its rows if it commits, and the sequence, which is not set back.
  unfoldable pub commit_user :
      Text → Tables → Attempt StoreError (User × List (ℤ × Text)) → Tables × Attempt StoreError User
  commit_user hash t (failure e) = (record t { next_id = t.next_id + 1 }, failure e)
  commit_user hash t (success (created, grants)) =
      if db.commit_fails
      then (
        record t { next_id = t.next_id + 1 },
        failure (other_error (codes "commit user creation")),
      )
      else (
        record t {
          users = record { account = created; password_hash = hash } ∷ t.users;
          grants = grants;
          next_id = t.next_id + 1;
        },
        success created,
      )

  -- `CreateUser`
  unfoldable pub create_user_of :
      Text → Text → Text → List Text → Tables → Tables × Attempt StoreError User
  create_user_of email hash role names t =
      if db.begin_fails
      then (t, failure (other_error (codes "begin user creation")))
      else commit_user hash t (insert_user email hash role names t)

  -- `postgresRepository`
  abbrev pub postgres_repository : Repository Tables
  postgres_repository = record {
    credentials_by_email = credentials_by_email_of;
    services_for_user = services_for_user_of;
    create_service = create_service_of;
    update_retention = update_retention_of;
    create_user = create_user_of;
  }
