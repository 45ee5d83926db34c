-- ===== src/Api.antt =====
-- cmd/api/api.go: what the handlers of the query API share, and who is calling.
-- Parameters: encoding/json for the bodies and for the list of names, bcrypt, net/mail, the token
-- library of `Codec`, the repository behind its interface, and the query client behind its own. A
-- request reads one instant from its clock, in milliseconds since 1970.
pub mod Login
pub mod Admin
pub mod Queries
pub mod Routes
pub mod Bodies
pub mod Bounded
pub mod Repeated
pub mod Scope
pub mod Shown
pub mod Guards
pub mod Sessions
pub mod Environment
pub mod Main
pub mod Admitted
mod Tests
use centi_log.Base.{
  ℕ, ◌/◌, ◌*◌, Bool, true, false, not, ◌&&◌, ◌||◌, List, [], ◌∷◌, Option, none, some, Attempt,
  success, failure, need, ensure, or_fail, ◌>>=◌, ◌>>◌, if◌then◌else◌, take, drop, length, any, leb,
  ◌==◌,
}
use centi_log.Dict.{Dict}
use centi_log.Repository.{Repository, Service}
use centi_log.Text.{Text, Unicode, codes, text_eq, has_prefix, trim_space}
use centi_log.Text.Integers.{ℤ, pos, parse_int}
use centi_log.Token.{User, Codec, parse_token}

-- `maxJSONBodyBytes`
abbrev pub max_json_body_bytes : ℕ
max_json_body_bytes = 1_048_576

-- `principal`
pub record Principal : Type 0 where
  pub id : ℤ
  pub email : Text
  pub role : Text

-- What a response says, before it is written as JSON.
pub data Body : Type 0 where
  error_body : Text → Body
  health_body : Body
  login_body : Text → ℕ → Body
  principal_body : Principal → Body
  services_body : List Service → Body
  created_service_body : Service → Text → Body
  updated_service_body : Text → ℤ → Body
  user_body : User → Body
  rows_body : List Text → Body

pub record ApiResponse : Type 0 where
  pub status : ℕ
  pub body : Body

-- The segments are those of the path; the body is none where it cannot be read.
pub record ApiRequest : Type 0 where
  pub method : Text
  pub segments : List Text
  pub authorization : Text
  pub body : Option Text
  pub query : Dict (List Text)

-- The bodies of requests.
pub record LoginRequest : Type 0 where
  pub email : Text
  pub password : Text

pub record ServiceRequest : Type 0 where
  pub name : Text
  pub retention_days : ℤ

pub record UserRequest : Type 0 where
  pub email : Text
  pub password : Text
  pub role : Text
  pub services : List Text

-- The libraries. A decoder reads one value, without unknown fields, and returns the bytes after it.
pub record Platform : Type 0 where
  pub codec : Codec
  pub unicode : Unicode
  pub matches_hash : Text → Text → Bool
  pub hash_password : Text → Option Text
  pub parse_address : Text → Option Text
  pub encode_names : List Text → Text
  pub decode_login : Text → Option (LoginRequest × Text)
  pub decode_service : Text → Option (ServiceRequest × Text)
  pub decode_retention : Text → Option (ℤ × Text)
  pub decode_user : Text → Option (UserRequest × Text)

-- The queries of the handlers by their names.
pub data Statement : Type 0 where
  select_logs select_trace select_volume select_patterns : Statement

-- `apiHandler`, over the state of its repository; a query is answered with rows, or an error.
pub record ApiHandler (S : Type 0) : Type 0 where
  pub platform : Platform
  pub secret : Text
  pub repository : Repository S
  pub run_query : Statement → Dict Text → Option (List Text)

-- The clock, and the 32 random bytes if there are any.
pub record Instant : Type 0 where
  pub now_ms : ℕ
  pub random : Option Text

-- `writeAPIError`
abbrev pub deny : ℕ → Text → ApiResponse
deny status text = record { status = status; body = error_body text }

abbrev pub answer : ℕ → Body → ApiResponse
answer status body = record { status = status; body = body }

-- The response of a handler that may end early.
unfoldable pub finish : Attempt ApiResponse ApiResponse → ApiResponse
finish (success response) = response
finish (failure response) = response

abbrev is_json_space : ℕ → Bool
is_json_space b = b == 32 || b == 9 || b == 10 || b == 13

unfoldable pub is_blank_json : Text → Bool
is_blank_json [] = true
is_blank_json (b ∷ s) = is_json_space b && is_blank_json s

-- `decodeAPIJSON`
unfoldable pub decode_api_json :
    {A : Type 0} → (Text → Option (A × Text)) → Option Text → Attempt ApiResponse A
decode_api_json decode body = do
  bytes ← need (deny 400 (codes "invalid JSON request")) body
  read ← need (deny 400 (codes "invalid JSON request")) (decode (take max_json_body_bytes bytes))
  ensure (deny 400 (codes "request must contain one JSON object"))
      (leb (length bytes) max_json_body_bytes && is_blank_json read.1)
  success read.0

-- `id, _ := strconv.ParseInt(s, 10, 64)`
unfoldable pub int_or_zero : Option ℤ → ℤ
int_or_zero none = pos 0
int_or_zero (some id) = id

abbrev pub bearer : Text
bearer = codes "Bearer "

module _ {S : Type 0} (handler : ApiHandler S) (moment : Instant) (r : ApiRequest) where
  -- `authenticate`: the principal that the next handler finds in its context.
  unfoldable pub authenticate : Attempt ApiResponse Principal
  authenticate = do
    ensure (deny 401 (codes "authentication required")) (has_prefix r.authorization bearer)
    claims ← or_fail (deny 401 (codes "invalid or expired token")) (
        parse_token handler.platform.codec handler.secret (moment.now_ms / 1000)
          (trim_space (drop (length bearer) r.authorization)))
    success (record {
      id = int_or_zero (parse_int claims.subject);
      email = claims.email;
      role = claims.role;
    })

  -- `requireAdmin`
  unfoldable pub require_admin : Attempt ApiResponse Principal
  require_admin = do
    account ← authenticate
    ensure (deny 403 (codes "administrator access required")) (text_eq account.role (codes "admin"))
    success account
