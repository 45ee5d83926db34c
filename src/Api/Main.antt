-- ===== src/Api/Main.antt =====
-- cmd/api/main.go: the command that makes an administrator, and the start of the server.
-- Parameters: bcrypt, net/url, the environment, whether Postgres can be opened and reached, and the
-- random bytes, if there are any.
use centi_log.Base.{
  Bool, true, false, ◌&&◌, List, [], ◌∷◌, Option, none, some, Attempt, success, failure, need,
  ensure, ◌>>=◌, ◌>>◌, if◌then◌else◌, length, leb, reverse, ◌==◌,
}
use centi_log.Api.Admin.{encode_hex, is_unique_violation}
use centi_log.Api.Environment.{click_house_dsn, click_house_http_url, get_env}
use centi_log.ClickHouse.{Url, ClickHouseClient, new_click_house_client}
use centi_log.Repository.{StoreError, Database, Tables, create_user_of}
use centi_log.Text.{Text, codes}
use centi_log.Token.{User}

-- Whether `sql.Open` and `PingContext` go well.
pub record Postgres : Type 0 where
  pub opens : Bool
  pub answers : Bool

-- `openPostgres`
abbrev pub open_postgres : Postgres → Attempt Text (Unit {0})
open_postgres postgres = ensure (codes "open PostgreSQL") postgres.opens

-- `createAdminCommand` up to the insertion: the address and the hash of the password.
unfoldable pub new_admin : (Text → Option Text) → Postgres → List Text → Attempt Text (Text × Text)
new_admin hash_password postgres (command ∷ email ∷ password ∷ []) = do
  ensure (codes "admin password must be between 8 and 72 bytes")
      (leb 8 (length password) && leb (length password) 72)
  hash ← need (codes "hash admin password") (hash_password password)
  open_postgres postgres
  ensure (codes "PostgreSQL is unavailable") postgres.answers
  success (email, hash)
new_admin hash_password postgres arguments =
    failure (codes "usage: go run ./cmd/api create-admin <email> <password>")

-- What the command says of the insertion.
unfoldable pub admin_result : Attempt StoreError User → Attempt Text User
admin_result (success account) = success account
admin_result (failure e) =
    if is_unique_violation e
    then failure (codes "a user with that email already exists")
    else failure (codes "could not create admin user")

-- `createAdminCommand`
unfoldable pub create_admin_command :
    (Text → Option Text) → Postgres → Database → List Text → Tables → Tables × Attempt Text User
create_admin_command hash_password postgres db arguments t =
    elim (new_admin hash_password postgres arguments) [
      | failure e ↦ (t, failure e)
      | success (email, hash) ↦
          let out = create_user_of db email hash (codes "admin") [] t in (out.0, admin_result out.1)
    ]

-- `jwtSecret`: the secret, and whether it is a temporary one.
unfoldable pub jwt_secret : (Text → Option Text) → Option Text → Attempt Text (Text × Bool)
jwt_secret environment random = elim (get_env environment (codes "JWT_SECRET") []) [
  | b ∷ secret ↦ success (b ∷ secret, false)
  | [] ↦ elim random [
    | none ↦ failure (codes "generate temporary JWT secret")
    | some bytes ↦ success (encode_hex bytes, true)
  ]
]

-- A data source name as `url.Parse` reads it; a password that is not set is empty.
pub record Dsn : Type 0 where
  pub user : Option (Text × Text)
  pub path : Text

unfoldable pub drop_slashes : Text → Text
drop_slashes [] = []
drop_slashes (b ∷ s) = let rest = drop_slashes s in if b == b'/' then rest else b ∷ s

-- `strings.Trim(s, "/")`
unfoldable pub trim_slashes : Text → Text
trim_slashes s = reverse (drop_slashes (reverse (drop_slashes s)))

-- `clickHouseCredentials`: the user, the password and the database.
unfoldable pub click_house_credentials : Option Dsn → Text × Text × Text
click_house_credentials none = (codes "centilog", codes "centilog", codes "centilog")
click_house_credentials (some dsn) =
    let named : Text × Text = elim dsn.user [
      | none ↦ (codes "centilog", codes "centilog")
      | some user ↦ user
    ] in
    let database : Text = elim (trim_slashes dsn.path) [
      | [] ↦ codes "centilog"
      | b ∷ name ↦ b ∷ name
    ] in
    (named.0, named.1, database)

-- What `runServer` serves with.
pub record ApiServer : Type 0 where
  pub address : Text
  pub client : ClickHouseClient
  pub secret : Text
  pub is_ephemeral : Bool

module _ (parse_dsn : Text → Option Dsn) (parse_url : Text → Option Url)
    (format_url : Url → Text) where
  -- `runServer` up to `ListenAndServe`.
  unfoldable pub start_server :
      (Text → Option Text) → Option Text → Postgres → Attempt Text ApiServer
  start_server environment random postgres = do
    open_postgres postgres
    ensure (codes "PostgreSQL is unavailable") postgres.answers
    secret ← jwt_secret environment random
    let (user, password, database) =
        click_house_credentials (parse_dsn (click_house_dsn environment))
    client ←
        new_click_house_client parse_url format_url (click_house_http_url environment) user password
          database
    success (record {
      address = get_env environment (codes "CENTILOG_API_ADDR") (codes ":8081");
      client = client;
      secret = secret.0;
      is_ephemeral = secret.1;
    })
