-- ===== src/Token/Tests.antt =====
-- Tokens of an account, and the theorems at them.
use centi_log.Base.{
  ◌%◌, ◌+◌, [], ◌∷◌, none, some, success, failure, inl, ◌≡◌, ◌↔◌, refl, length, if◌then◌else◌, ltb,
  arith,
}
use centi_log.Text.{Text, codes, text_eq}
use centi_log.Text.Base64.{
  char_sextet, decode_base64, encode_base64, join_sextets, sextet_char, sextets,
}
use centi_log.Text.Decimal.{format_uint, parse_digits, parse_uint}
use centi_log.Text.Integers.{pos, format_int, leb_int, parse_int, signed}
use centi_log.Text.Split.{split_at}
use centi_log.Token.{
  Codec, TokenClaims, User, are_refused, claims_of, invalid_token, is_jwt_header, jwt_header,
  jwt_lifetime, parse_claims, parse_parts, parse_pieces, parse_token, sign_token,
}
use centi_log.Token.Accepted.{IsGenuine, parse_token-IsGenuine}
use centi_log.Token.Lifetime.{parse_token-sign_token, token_of, IsCarried}

abbrev root_user : User
root_user = record { id = pos 7; email = codes "a@b.c"; role = codes "admin" }

abbrev root_claims : TokenClaims
root_claims = claims_of 1000 root_user

-- The claims are written as one byte, and the hash is the length of the text before the key.
abbrev toy_codec : Codec
toy_codec = record {
  encode_header = λ header. some (codes "{}");
  decode_header = λ bytes. if text_eq bytes (codes "{}") then some jwt_header else none;
  encode_claims = λ claims. some (codes "c");
  decode_claims = λ bytes. if text_eq bytes (codes "c") then some root_claims else none;
  hmac = λ key value. (length value % 256) ∷ key;
}

abbrev key : Text
key = codes "k"

abbrev root_token : Text
root_token = token_of toy_codec key (codes "{}") (codes "c")

running : Unit {0}
unfolding parse_token parse_pieces parse_parts parse_claims is_jwt_header are_refused claims_of
    decode_base64 sextets join_sextets char_sextet sextet_char encode_base64 split_at codes text_eq
    leb_int parse_int signed format_int parse_uint parse_digits format_uint sign_token
running = tt

token_run :
    (root_token ≡ codes "e30.Yw.Bms")
    × (parse_token toy_codec key 2000 root_token ≡ success root_claims)
    × (parse_token toy_codec key 44_200 root_token ≡ failure invalid_token)
    × (parse_token toy_codec (codes "other") 2000 root_token ≡ failure invalid_token)
    × (parse_token toy_codec [] 2000 root_token ≡ failure invalid_token)
unfolding running
token_run = (refl, refl, refl, refl, refl)

base64_run :
    (encode_base64 (codes "hello?") ≡ codes "aGVsbG8_")
    × (decode_base64 (codes "aGVsbG8_") ≡ some (codes "hello?"))
    × (decode_base64 (codes "aGVsb") ≡ none)
    × (decode_base64 (codes "aG=") ≡ none)
unfolding running
base64_run = (refl, refl, refl, refl)

parse_token-IsGenuine_example :
    (parse_token toy_codec key 2000 root_token ≡ success root_claims)
    ↔ IsGenuine toy_codec key 2000 root_token root_claims
parse_token-IsGenuine_example = parse_token-IsGenuine toy_codec key 2000 root_token root_claims

root-IsCarried : IsCarried toy_codec key 1000 root_user (codes "{}") (codes "c")
unfolding running
root-IsCarried = (
  refl,
  refl,
  refl,
  refl,
  (omega arith, (omega arith, tt)),
  (omega arith, tt),
  (omega arith, (omega arith, tt)),
)

parse_token-sign_token_example :
    (sign_token toy_codec key 1000 root_user ≡ success (root_token, 1000 + jwt_lifetime))
    × (parse_token toy_codec key 2000 root_token
        ≡ (if ltb 2000 (1000 + jwt_lifetime) then success root_claims else failure invalid_token))
unfolding running
parse_token-sign_token_example =
    parse_token-sign_token toy_codec key 1000 2000 root_user (codes "{}") (codes "c") (λ h. cc)
      (λ h. cc, inl refl, omega arith) root-IsCarried
