-- ===== src/Api/Login.antt =====
-- cmd/api/api.go: the handlers of the log-in, of one's own account and of the services one sees.
use centi_log.Base.{◌/◌, not, ◌&&◌, [], Attempt, success, ensure, or_fail, ◌>>=◌, ◌>>◌, length, leb}
use centi_log.Api.{
  Instant, login_body, principal_body, services_body, ApiHandler, ApiRequest, ApiResponse,
  Principal, answer, decode_api_json, deny,
}
use centi_log.Text.{codes, text_eq}
use centi_log.Token.{sign_token}

module _ {S : Type 0} (handler : ApiHandler S) (moment : Instant) (r : ApiRequest) (s : S) where
  -- `login`
  unfoldable pub login : Attempt ApiResponse ApiResponse
  login = do
    request ← decode_api_json handler.platform.decode_login r.body
    ensure (deny 400 (codes "email and password are required")) (
        not (text_eq request.email [])
        && not (text_eq request.password [])
        && leb (length request.password) 72)
    account ←
        or_fail (deny 401 (codes "invalid email or password"))
          (handler.repository.credentials_by_email request.email s)
    ensure (deny 401 (codes "invalid email or password"))
        (handler.platform.matches_hash account.password_hash request.password)
    token ←
        or_fail (deny 500 (codes "could not create login token"))
          (sign_token handler.platform.codec handler.secret (moment.now_ms / 1000) account.account)
    success (answer 200 (login_body token.0 token.1))

  -- `me`
  unfoldable pub me : Principal → Attempt ApiResponse ApiResponse
  me account = success (answer 200 (principal_body account))

  -- `listServices`
  unfoldable pub list_services : Principal → Attempt ApiResponse ApiResponse
  list_services account = do
    services ←
        or_fail (deny 500 (codes "could not list services"))
          (handler.repository.services_for_user account.id account.role s)
    success (answer 200 (services_body services))
