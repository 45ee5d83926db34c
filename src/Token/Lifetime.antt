-- ===== src/Token/Lifetime.antt =====
-- What `Parse` in cmd/api/jwt.go says of a token that `Sign` made, until its lifetime ends and after.
use mathlib.Core.List.{append_assoc}
use centi_log.Base.{
  ℕ, ◌+◌, [], ◌∷◌, ◌++◌, some, success, failure, ◌≡◌, ◌≢◌, ◌⊎◌, arith, ap, ◌∙◌, All, if◌then◌else◌,
  leb, ltb, All-map,
}
use centi_log.Regex.Build.{range}
use centi_log.Text.{Text, codes}
use centi_log.Text.Base64.{
  IsByte, IsUrlChar, decode_base64, decode_base64-encode_base64, encode_base64,
  encode_base64-IsUrlChar,
}
use centi_log.Text.Decimal.{format_uint-shape}
use centi_log.Text.Equality.{text_eq_iff, text_eq_refl}
use centi_log.Text.Integers.{
  ℤ, pos, leb_int, IsInt64, negsuc, format_int, parse_int, parse_int-format_int,
}
use centi_log.Text.Split.{split_at, split_at-append, split_at-whole}
use centi_log.Token.{
  Codec, TokenClaims, User, are_refused, claims_of, invalid_token, is_jwt_header, jwt_header,
  jwt_lifetime, parse_claims, parse_parts, parse_pieces, parse_token, sign_token, unsigned_token,
}
use centi_log.Token.Accepted.{accepted-pieces}

format_int-nonempty : (v : ℤ) → format_int v ≢ []
unfolding format_int
format_int-nonempty (pos n) = let (d, s, less, same) = format_uint-shape n in λ h. cc
format_int-nonempty (negsuc n) = λ h. cc

abbrev pub IsRole : Text → Type 0
IsRole role = (role ≡ codes "admin") ⊎ (role ≡ codes "viewer")

refused_after :
    (now later : ℕ) (account : User)
    → account.email ≢ []
    → IsRole account.role
    → are_refused later (claims_of now account) ≡ leb (now + jwt_lifetime) later
unfolding are_refused claims_of leb_int
refused_after now later account address role =
    let subject = format_int-nonempty account.id in
    ground (
      arith,
      text_eq_iff (format_int account.id) [],
      text_eq_iff account.email [],
      text_eq_iff account.role (codes "admin"),
      text_eq_iff account.role (codes "viewer"),
    )

pub claims_of-subject :
    (now : ℕ) (account : User)
    → IsInt64 account.id
    → parse_int (claims_of now account).subject ≡ some account.id
unfolding claims_of
claims_of-subject now account h = parse_int-format_int account.id h

encode_base64-no_dot : (t : Text) → All (λ c. c ≢ b'.') (encode_base64 t)
encode_base64-no_dot t =
    All-map IsUrlChar (λ c. c ≢ b'.') (λ c h. h.0) (encode_base64 t) (encode_base64-IsUrlChar t)

split_at-three :
    (x y z : Text)
    → split_at b'.' (unsigned_token x y ++ (b'.' ∷ encode_base64 z))
      ≡ encode_base64 x ∷ encode_base64 y ∷ encode_base64 z ∷ []
split_at-three x y z =
    let ex = encode_base64 x in
    let ey = encode_base64 y in
    let ez = encode_base64 z in
    ap (split_at b'.') (append_assoc ex (b'.' ∷ ey) (b'.' ∷ ez))
    ∙ split_at-append b'.' ex (ey ++ (b'.' ∷ ez)) (encode_base64-no_dot x)
    ∙ ap (λ l. ex ∷ l) (split_at-append b'.' ey ez (encode_base64-no_dot y))
    ∙ ap (λ l. ex ∷ ey ∷ l) (split_at-whole b'.' ez (encode_base64-no_dot z))

-- An account that may be given a token: it has an address, a role, and a number in the range of int64.
abbrev pub IsAccount : User → Type 0
IsAccount account = (account.email ≢ []) × IsRole account.role × IsInt64 account.id

module _ (codec : Codec) (secret : Text) where
  parse_claims_read :
      (later : ℕ) (encoded payload : Text) (claims : TokenClaims) (id : ℤ)
      → decode_base64 encoded ≡ some payload
      → codec.decode_claims payload ≡ some claims
      → parse_int claims.subject ≡ some id
      → parse_claims codec secret later encoded
        ≡ (if are_refused later claims then failure invalid_token else success claims)
  unfolding parse_claims
  parse_claims_read later encoded payload claims id decoded known numbered = ground arith

  parse_parts_signed :
      (later : ℕ) (header payload signature bytes : Text)
      → decode_base64 signature ≡ some (codec.hmac secret (header ++ (b'.' ∷ payload)))
      → decode_base64 header ≡ some bytes
      → codec.decode_header bytes ≡ some jwt_header
      → parse_parts codec secret later header payload signature
        ≡ parse_claims codec secret later payload
  unfolding parse_parts is_jwt_header
  parse_parts_signed later header payload signature bytes mac decoded known = ground (
    arith,
    text_eq_refl (codec.hmac secret (header ++ (b'.' ∷ payload))),
    text_eq_refl (codes "HS256"),
    text_eq_refl (codes "JWT"),
  )

  -- The token of some header and claims as bytes.
  abbrev pub token_of : Text → Text → Text
  token_of header payload =
      let unsigned = unsigned_token header payload in
      unsigned ++ (b'.' ∷ encode_base64 (codec.hmac secret unsigned))

  sign_token_made :
      (now : ℕ) (account : User) (header payload : Text)
      → codec.encode_header jwt_header ≡ some header
      → codec.encode_claims (claims_of now account) ≡ some payload
      → sign_token codec secret now account ≡ success (token_of header payload, now + jwt_lifetime)
  unfolding sign_token
  sign_token_made now account header payload h p = ground arith

  token_of-parts :
      (later : ℕ) (header payload : Text)
      → secret ≢ []
      → All IsByte header
      → All IsByte (codec.hmac secret (unsigned_token header payload))
      → codec.decode_header header ≡ some jwt_header
      → parse_token codec secret later (token_of header payload)
        ≡ parse_claims codec secret later (encode_base64 payload)
  unfolding parse_token
  token_of-parts later header payload keyed header_bytes mac_bytes known =
      let mac = codec.hmac secret (unsigned_token header payload) in
      ap (parse_pieces codec secret later) (split_at-three header payload mac)
      ∙ accepted-pieces codec secret later (encode_base64 header) (encode_base64 payload)
          (encode_base64 mac) keyed
      ∙ parse_parts_signed later (encode_base64 header) (encode_base64 payload) (encode_base64 mac)
          header (decode_base64-encode_base64 mac mac_bytes)
          (decode_base64-encode_base64 header header_bytes) known

  -- encoding/json writes the header and the claims of an account as bytes that it reads back, and the
  -- keyed hash of both is made of bytes.
  abbrev pub IsCarried : ℕ → User → Text → Text → Type 0
  IsCarried now account header payload =
      (codec.encode_header jwt_header ≡ some header)
      × (codec.decode_header header ≡ some jwt_header)
      × (codec.encode_claims (claims_of now account) ≡ some payload)
      × (codec.decode_claims payload ≡ some (claims_of now account))
      × All IsByte header
      × All IsByte payload
      × All IsByte (codec.hmac secret (unsigned_token header payload))

  -- An account with an address, a role and a number in the range of int64 is given a token by `Sign`,
  -- if encoding/json writes the header and the claims as bytes that it reads back and the keyed hash is
  -- made of bytes. With the same secret, which is not empty, `Parse` returns the claims of the
  -- account before twelve hours have passed, and refuses the token from then on.
  pub parse_token-sign_token :
      (now later : ℕ) (account : User) (header payload : Text)
      → secret ≢ []
      → IsAccount account
      → IsCarried now account header payload
      → (sign_token codec secret now account
          ≡ success (token_of header payload, now + jwt_lifetime))
        × (parse_token codec secret later (token_of header payload) ≡ (
            if ltb later (now + jwt_lifetime)
            then success (claims_of now account)
            else failure invalid_token))
  parse_token-sign_token now later account header payload keyed (address, role, range) carried =
      let (made, known, written, read, header_bytes, payload_bytes, mac_bytes) = carried in
      let claims = claims_of now account in
      let numbered = claims_of-subject now account range in
      let decoded = decode_base64-encode_base64 payload payload_bytes in
      let parsed =
        parse_claims_read later (encode_base64 payload) payload claims account.id decoded read
          numbered in
      let test = refused_after now later account address role in
      (
        sign_token_made now account header payload made written,
        token_of-parts later header payload keyed header_bytes mac_bytes known
            ∙ parsed
            ∙ ap (λ b. if b then failure invalid_token else success claims) test
            ∙ ground arith,
      )
