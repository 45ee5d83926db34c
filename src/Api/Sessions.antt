-- ===== src/Api/Sessions.antt =====
-- What a log-in is worth: the token that it answers with, at the requests that carry it.
use centi_log.Base.{
  ℕ, ◌+◌, ◌/◌, ◌<◌, ◌≤◌, true, [], ◌∷◌, ◌++◌, some, success, failure, ◌≡◌, ◌≢◌, refl, arith, ap,
  ◌∙◌, All, All-map, All-append, drop, drop-length, length, ltb, if◌then◌else◌,
}
use centi_log.Api.{
  Instant, login_body, ApiHandler, ApiRequest, authenticate, bearer, int_or_zero, LoginRequest,
  Principal, answer, decode_api_json,
}
use centi_log.Api.Login.{login}
use centi_log.Repository.{Credentials}
use centi_log.Text.{Text, has_prefix, trim_space}
use centi_log.Text.Base64.{IsUrlChar, encode_base64, encode_base64-IsUrlChar}
use centi_log.Text.Equality.{text_eq_iff, has_prefix-append}
use centi_log.Text.Integers.{ℤ, parse_int}
use centi_log.Text.Trimmed.{IsGraphic, trim_space-graphic}
use centi_log.Token.{
  Codec, TokenClaims, parse_token, unsigned_token, User, sign_token, claims_of, invalid_token,
  jwt_lifetime,
}
use centi_log.Token.Lifetime.{
  token_of, IsAccount, IsCarried, claims_of-subject, parse_token-sign_token,
}

url-IsGraphic : (t : Text) → All IsGraphic (encode_base64 t)
url-IsGraphic t =
    All-map IsUrlChar IsGraphic (λ c (dot, low, high). (low, high)) (encode_base64 t)
      (encode_base64-IsUrlChar t)

-- A token has nothing that `TrimSpace` takes off.
token-IsGraphic :
    (codec : Codec) (secret header payload : Text)
    → All IsGraphic (token_of codec secret header payload)
token-IsGraphic codec secret header payload =
    let mac = encode_base64 (codec.hmac secret (unsigned_token header payload)) in
    let dot : IsGraphic b'.' = (omega arith, omega arith) in
    All-append IsGraphic (unsigned_token header payload) (b'.' ∷ mac)
      (All-append IsGraphic (encode_base64 header) (b'.' ∷ encode_base64 payload)
        (url-IsGraphic header) (dot, url-IsGraphic payload))
      (dot, url-IsGraphic (codec.hmac secret (unsigned_token header payload)))

module _ {S : Type 0} (handler : ApiHandler S) (instant : Instant) (r : ApiRequest) where
  authenticate_read :
      (token : Text) (claims : TokenClaims) (id : ℤ)
      → r.authorization ≡ bearer ++ token
      → All IsGraphic token
      → parse_token handler.platform.codec handler.secret (instant.now_ms / 1000) token
        ≡ success claims
      → parse_int claims.subject ≡ some id
      → authenticate handler instant r
        ≡ success (record { id = id; email = claims.email; role = claims.role })
  unfolding authenticate int_or_zero
  authenticate_read token claims id sent graphic accepted numbered =
      let prefix : has_prefix r.authorization bearer ≡ true =
        ap (λ a. has_prefix a bearer) sent ∙ has_prefix-append bearer token in
      let bare : trim_space (drop (length bearer) r.authorization) ≡ token =
        ap (λ a. trim_space (drop (length bearer) a)) sent
        ∙ ap trim_space (drop-length bearer token)
        ∙ trim_space-graphic token graphic in
      let parsed : parse_token handler.platform.codec handler.secret (instant.now_ms / 1000)
            (trim_space (drop (length bearer) r.authorization))
          ≡ success claims =
        ap (parse_token handler.platform.codec handler.secret (instant.now_ms / 1000)) bare
        ∙ accepted in
      ground (arith, prefix, parsed, numbered)

-- The principal of an account.
abbrev pub principal_of : User → Principal
principal_of account = record { id = account.id; email = account.email; role = account.role }

module _ {S : Type 0} (handler : ApiHandler S) (first second : Instant) (r next : ApiRequest)
    (s : S) where
  pub login_signed :
      (request : LoginRequest) (account : Credentials) (token : Text) (until : ℕ)
      → decode_api_json handler.platform.decode_login r.body ≡ success request
      → request.email ≢ []
      → request.password ≢ []
      → length request.password ≤ 72
      → handler.repository.credentials_by_email request.email s ≡ success account
      → handler.platform.matches_hash account.password_hash request.password ≡ true
      → sign_token handler.platform.codec handler.secret (first.now_ms / 1000) account.account
        ≡ success (token, until)
      → login handler first r s ≡ success (answer 200 (login_body token until))
  unfolding login
  login_signed request account token until read email password short found matched signed_token =
      ground (
        arith,
        read,
        text_eq_iff request.email [],
        text_eq_iff request.password [],
        found,
        matched,
        signed_token,
      )

  -- A log-in with the password of an account, of at most 72 bytes, is answered with a token, if the
  -- account may be given one and encoding/json and the keyed hash carry it; and a request that sends
  -- this token within twelve hours is that of the account, with its number, address and role.
  pub login-authenticate :
      (request : LoginRequest) (account : Credentials) (header payload : Text)
      → decode_api_json handler.platform.decode_login r.body ≡ success request
      → request.email ≢ []
      → request.password ≢ []
      → length request.password ≤ 72
      → handler.repository.credentials_by_email request.email s ≡ success account
      → handler.platform.matches_hash account.password_hash request.password ≡ true
      → handler.secret ≢ []
      → IsAccount account.account
      → IsCarried handler.platform.codec handler.secret
          (first.now_ms / 1000)
          account.account
          header
          payload
      → next.authorization ≡ bearer ++ token_of handler.platform.codec handler.secret header payload
      → second.now_ms / 1000 < first.now_ms / 1000 + jwt_lifetime
      → (login handler first r s
          ≡ success (
              answer 200 (
                login_body
                  (token_of handler.platform.codec handler.secret header payload)
                  (first.now_ms / 1000 + jwt_lifetime))))
        × (authenticate handler second next ≡ success (principal_of account.account))
  login-authenticate request account header payload read email password short found matched keyed
        may carried sent early =
      let codec = handler.platform.codec in
      let now = first.now_ms / 1000 in
      let later = second.now_ms / 1000 in
      let (signed_token, parsed) =
        parse_token-sign_token codec handler.secret now later account.account header payload keyed
          may carried in
      let early_yet : ltb later (now + jwt_lifetime) ≡ true = ground arith in
      (
        login_signed request account (token_of codec handler.secret header payload)
            (now + jwt_lifetime) read email password short found matched signed_token,
        authenticate_read handler second next (token_of codec handler.secret header payload)
              (claims_of now account.account) account.account.id sent
              (token-IsGraphic codec handler.secret header payload)
              (parsed
                ∙ ap
                    (λ b.
                      if b then success (claims_of now account.account) else failure invalid_token)
                    early_yet)
              (claims_of-subject now account.account may.2)
            ∙ unfold claims_of in refl,
      )
