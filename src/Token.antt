-- ===== src/Token.antt =====
-- cmd/api/jwt.go: the tokens of a session. An instant is the number of seconds since 1970. The
-- parameters are what encoding/json makes of the header and of the claims and back, and HMAC-SHA256.
pub mod Accepted
pub mod Lifetime
mod Tests
use centi_log.Base.{
  ◌>>=◌, ◌>>◌, failure, success, need, ensure, Attempt, ℕ, ◌+◌, ◌*◌, ◌++◌, Bool, true, false, ◌&&◌,
  ◌||◌, not, List, [], ◌∷◌, Option, none, some, ok, err, Result, if◌then◌else◌,
}
use centi_log.Text.{Text, codes, text_eq}
use centi_log.Text.Base64.{encode_base64, decode_base64}
use centi_log.Text.Integers.{ℤ, pos, leb_int, format_int, parse_int}
use centi_log.Text.Split.{split_at}

-- `jwtLifetime`, in seconds
abbrev pub jwt_lifetime : ℕ
jwt_lifetime = 12 * 60 * 60

-- `user`
pub record User : Type 0 where
  pub id : ℤ
  pub email : Text
  pub role : Text

-- `tokenClaims`
pub record TokenClaims : Type 0 where
  pub subject : Text
  pub email : Text
  pub role : Text
  pub issued : ℤ
  pub expires : ℤ

-- The header's two fields.
pub record TokenHeader : Type 0 where
  pub algorithm : Text
  pub kind : Text

-- encoding/json, for the header and the claims, and the keyed hash, of a key and a text. `none` is an
-- error.
pub record Codec : Type 0 where
  pub encode_header : TokenHeader → Option Text
  pub decode_header : Text → Option TokenHeader
  pub encode_claims : TokenClaims → Option Text
  pub decode_claims : Text → Option TokenClaims
  pub hmac : Text → Text → Text

abbrev pub jwt_header : TokenHeader
jwt_header = record { algorithm = codes "HS256"; kind = codes "JWT" }

abbrev pub invalid_token : Text
invalid_token = codes "invalid token"

-- The claims that `Sign` makes for an account.
unfoldable pub claims_of : ℕ → User → TokenClaims
claims_of now account = record {
  subject = format_int account.id;
  email = account.email;
  role = account.role;
  issued = pos now;
  expires = pos (now + jwt_lifetime);
}

-- The two encoded parts with the dot between them.
abbrev pub unsigned_token : Text → Text → Text
unsigned_token header payload = encode_base64 header ++ (b'.' ∷ encode_base64 payload)

-- The test of the header.
unfoldable pub is_jwt_header : TokenHeader → Bool
is_jwt_header header = text_eq header.algorithm (codes "HS256") && text_eq header.kind (codes "JWT")

-- The test of the claims: the subject, the address and the role, then the end of the lifetime.
unfoldable pub are_refused : ℕ → TokenClaims → Bool
are_refused now claims =
    text_eq claims.subject []
    || text_eq claims.email []
    || (not (text_eq claims.role (codes "admin")) && not (text_eq claims.role (codes "viewer")))
    || leb_int claims.expires (pos now)

module _ (codec : Codec) (secret : Text) (now : ℕ) where
  -- `Sign`: the token, and when it expires.
  unfoldable pub sign_token : User → Attempt Text (Text × ℕ)
  sign_token account = do
    header ← need (codes "encode token header") (codec.encode_header jwt_header)
    payload ← need (codes "encode token claims") (codec.encode_claims (claims_of now account))
    let unsigned = unsigned_token header payload
    success (unsigned ++ (b'.' ∷ encode_base64 (codec.hmac secret unsigned)), now + jwt_lifetime)

  -- The end of `Parse`, from the decoding of the claims on.
  unfoldable pub parse_claims : Text → Attempt Text TokenClaims
  parse_claims encoded = do
    payload ← need invalid_token (decode_base64 encoded)
    claims ← need invalid_token (codec.decode_claims payload)
    ensure invalid_token (not (are_refused now claims))
    id ← need invalid_token (parse_int claims.subject)
    success claims

  -- `Parse`, once the token is cut into three parts.
  unfoldable pub parse_parts : Text → Text → Text → Attempt Text TokenClaims
  parse_parts header payload signature = do
    provided ← need invalid_token (decode_base64 signature)
    ensure invalid_token (text_eq provided (codec.hmac secret (header ++ (b'.' ∷ payload))))
    bytes ← need invalid_token (decode_base64 header)
    fields ← need invalid_token (codec.decode_header bytes)
    ensure invalid_token (is_jwt_header fields)
    parse_claims payload

  -- `Parse`, over the parts of the token.
  unfoldable pub parse_pieces : List Text → Attempt Text TokenClaims
  parse_pieces (header ∷ payload ∷ signature ∷ []) =
      if text_eq secret [] then failure invalid_token else parse_parts header payload signature
  parse_pieces other = failure invalid_token

  -- `Parse`
  unfoldable pub parse_token : Text → Attempt Text TokenClaims
  parse_token token = parse_pieces (split_at b'.' token)
