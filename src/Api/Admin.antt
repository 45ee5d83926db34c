-- ===== src/Api/Admin.antt =====
-- cmd/api/api.go: the handlers that write, which only an administrator reaches.
use centi_log.Base.{
  ℕ, ◌/◌, ◌%◌, ◌+◌, Bool, true, false, not, ◌&&◌, ◌||◌, [], ◌∷◌, Option, none, some, Attempt,
  success, failure, need, ensure, ◌>>=◌, ◌>>◌, length, leb, ltb, if◌then◌else◌, ◌-◌,
}
use centi_log.Api.{
  Instant, created_service_body, updated_service_body, user_body, ApiHandler, ApiRequest,
  ApiResponse, ServiceRequest, UserRequest, answer, decode_api_json, deny,
}
use centi_log.Repository.{
  StoreError, unique_violation, no_rows, invalid_credentials, other_error, Service,
}
use centi_log.Text.{Text, codes, text_eq, trim_space}
use centi_log.Text.Integers.{ℤ, pos, leb_int}
use centi_log.Token.{User}

-- `hex.EncodeToString`
unfoldable pub hex_digit : ℕ → ℕ
hex_digit n = if ltb n 10 then b'0' + n else b'a' + (n - 10)

unfoldable pub encode_hex : Text → Text
encode_hex [] = []
encode_hex (b ∷ s) = hex_digit (b / 16) ∷ hex_digit (b % 16) ∷ encode_hex s

-- `generateAPIKey`
unfoldable pub generate_api_key : Instant → Option Text
generate_api_key moment = elim moment.random [ none ↦ none | some bytes ↦ some (encode_hex bytes) ]

-- `isUniqueViolation(err)`
unfoldable pub is_unique_violation : StoreError → Bool
is_unique_violation invalid_credentials = false
is_unique_violation no_rows = false
is_unique_violation unique_violation = true
is_unique_violation (other_error message) = false

-- `errors.Is(err, sql.ErrNoRows)`
unfoldable pub is_no_rows : StoreError → Bool
is_no_rows invalid_credentials = false
is_no_rows no_rows = true
is_no_rows unique_violation = false
is_no_rows (other_error message) = false

-- `mail.ParseAddress(s)` finds the address s itself.
unfoldable pub is_address : Option Text → Text → Bool
is_address none email = false
is_address (some address) email = text_eq address email

-- The response of `createService` to what the repository answers.
unfoldable pub created_response : Text → Attempt StoreError Service → ApiResponse
created_response key (success created) = answer 201 (created_service_body created key)
created_response key (failure e) =
    if is_unique_violation e
    then deny 409 (codes "service name already exists")
    else deny 500 (codes "could not create service")

-- The response of `updateService` to what the repository answers.
unfoldable pub updated_response : Text → ℤ → Attempt StoreError (Unit {0}) → ApiResponse
updated_response name days (success u) = answer 200 (updated_service_body name days)
updated_response name days (failure e) =
    if is_no_rows e
    then deny 404 (codes "service not found")
    else deny 500 (codes "could not update service")

-- The response of `createUser` to what the repository answers.
unfoldable pub user_response : Attempt StoreError User → ApiResponse
user_response (success created) = answer 201 (user_body created)
user_response (failure e) =
    if is_unique_violation e
    then deny 409 (codes "user email already exists")
    else deny 400 (codes "could not create user or service permissions")

module _ {S : Type 0} (handler : ApiHandler S) (moment : Instant) (r : ApiRequest) (s : S) where
  -- `createService` up to the call of the repository: the request and the new key.
  unfoldable pub new_service : Attempt ApiResponse (ServiceRequest × Text)
  new_service = do
    request ← decode_api_json handler.platform.decode_service r.body
    ensure (deny 400 (codes "service name and positive retention_days are required"))
        (not (text_eq (trim_space request.name) []) && leb_int (pos 1) request.retention_days)
    key ← need (deny 500 (codes "could not generate service API key")) (generate_api_key moment)
    success (request, key)

  -- `createService`
  unfoldable pub create_service : S × ApiResponse
  create_service = elim new_service [
    | failure response ↦ (s, response)
    | success (request, key) ↦
        let out =
          handler.repository.create_service (trim_space request.name) key request.retention_days
            s in
        (out.0, created_response key out.1)
  ]

  -- `updateService` up to the call of the repository: the retention.
  unfoldable pub new_retention : Text → Attempt ApiResponse ℤ
  new_retention name = do
    days ← decode_api_json handler.platform.decode_retention r.body
    ensure (deny 400 (codes "positive retention_days is required")) (leb_int (pos 1) days)
    ensure (deny 400 (codes "invalid service name")) (not (text_eq name []))
    success days

  -- `updateService`
  unfoldable pub update_service : Text → S × ApiResponse
  update_service name = elim (new_retention name) [
    | failure response ↦ (s, response)
    | success days ↦
        let out = handler.repository.update_retention name days s in
        (out.0, updated_response name days out.1)
  ]

  -- `createUser` up to the call of the repository: the request and the hash of the password.
  unfoldable pub new_user : Attempt ApiResponse (UserRequest × Text)
  new_user = do
    request ← decode_api_json handler.platform.decode_user r.body
    ensure (deny 400 (codes "valid email and password of 8 to 72 bytes are required")) (
        is_address (handler.platform.parse_address request.email) request.email
        && leb 8 (length request.password)
        && leb (length request.password) 72)
    ensure (deny 400 (codes "role must be admin or viewer"))
        (text_eq request.role (codes "admin") || text_eq request.role (codes "viewer"))
    ensure (deny 400 (codes "service permissions are only assigned to viewers"))
        (not (text_eq request.role (codes "admin") && ltb 0 (length request.services)))
    hash ←
        need (deny 500 (codes "could not hash password"))
          (handler.platform.hash_password request.password)
    success (request, hash)

  -- `createUser`
  unfoldable pub create_user : S × ApiResponse
  create_user = elim new_user [
    | failure response ↦ (s, response)
    | success (request, hash) ↦
        let out =
          handler.repository.create_user request.email hash request.role request.services s in
        (out.0, user_response out.1)
  ]
