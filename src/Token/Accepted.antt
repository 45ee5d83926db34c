-- ===== src/Token/Accepted.antt =====
-- What `Parse` in cmd/api/jwt.go accepts.
use mathlib.Core.Path.{subst}
use centi_log.Base.{
  ℕ, Bool, true, false, List, [], ◌∷◌, ◌++◌, some, success, need-success, ensure-success,
  success-injective, not, inl, inr, ◌≡◌, ◌≢◌, ◌↔◌, ◌⊎◌, refl, arith, ap, ◌∙◌, Bool-cases,
}
use centi_log.Text.{Text, codes, text_eq}
use centi_log.Text.Base64.{decode_base64}
use centi_log.Text.Equality.{text_eq_iff, text_eq_refl}
use centi_log.Text.Integers.{ℤ, pos, leb_int, parse_int}
use centi_log.Text.Split.{split_at}
use centi_log.Token.{
  Codec, TokenClaims, are_refused, invalid_token, parse_claims, TokenHeader, is_jwt_header,
  parse_parts, parse_token, parse_pieces,
}

-- Claims that are let in at an instant: a subject that is a number, an address, one of the two roles,
-- and a lifetime that is not over.
abbrev pub IsCurrent : ℕ → TokenClaims → Type 0
IsCurrent now claims =
    (claims.email ≢ [])
    × ((claims.role ≡ codes "admin") ⊎ (claims.role ≡ codes "viewer"))
    × (leb_int claims.expires (pos now) ≡ false)
    × ((id : ℤ) × (parse_int claims.subject ≡ some id))

are_refused_iff :
    (now : ℕ) (claims : TokenClaims)
    → (are_refused now claims ≡ false) ↔ (
        (claims.subject ≢ [])
        × (claims.email ≢ [])
        × ((claims.role ≡ codes "admin") ⊎ (claims.role ≡ codes "viewer"))
        × (leb_int claims.expires (pos now) ≡ false))
unfolding are_refused
are_refused_iff now claims = ground (
  arith,
  text_eq_iff claims.subject [],
  text_eq_iff claims.email [],
  text_eq_iff claims.role (codes "admin"),
  text_eq_iff claims.role (codes "viewer"),
)

not-true : (b : Bool) → not b ≡ true → b ≡ false
not-true b h = ground arith

parse_int_empty : (s : Text) (id : ℤ) → parse_int s ≡ some id → s ≢ []
unfolding parse_int
parse_int_empty s id h = ground arith

module _ (codec : Codec) (secret : Text) (now : ℕ) where
  -- The bytes that a part of the token stands for are claims that are let in.
  abbrev pub HoldsClaims : Text → TokenClaims → Type 0
  HoldsClaims encoded claims =
      (payload : Text) × (decode_base64 encoded ≡ some payload)
      × (codec.decode_claims payload ≡ some claims)
      × IsCurrent now claims

  claims-HoldsClaims :
      (encoded : Text) (claims : TokenClaims)
      → parse_claims codec secret now encoded ≡ success claims
      → HoldsClaims encoded claims
  unfolding parse_claims
  claims-HoldsClaims encoded claims h =
      let (payload, decoded, h1) = need-success invalid_token (decode_base64 encoded) _ claims h in
      let (read, known, h2) =
        need-success invalid_token (codec.decode_claims payload) _ claims h1 in
      let (current, h3) = ensure-success invalid_token (not (are_refused now read)) _ claims h2 in
      let (id, numbered, h4) = need-success invalid_token (parse_int read.subject) _ claims h3 in
      let (subject, address, role, lifetime) =
        (are_refused_iff now read).0 (not-true (are_refused now read) current) in
      subst
        (λ c.
          (text : Text) × (decode_base64 encoded ≡ some text)
          × (codec.decode_claims text ≡ some c)
          × IsCurrent now c)
        (success-injective read claims h4)
        (payload, decoded, known, (address, role, lifetime, (id, numbered)))

  HoldsClaims-claims :
      (encoded : Text) (claims : TokenClaims)
      → HoldsClaims encoded claims
      → parse_claims codec secret now encoded ≡ success claims
  unfolding parse_claims
  HoldsClaims-claims encoded claims (payload, decoded, known, current) =
      let (address, role, lifetime, (id, numbered)) = current in
      let subject = parse_int_empty claims.subject id numbered in
      let fine = (are_refused_iff now claims).1 (subject, address, role, lifetime) in
      ground (arith, decoded, known, fine, numbered)

  -- What `Parse` asks of a token beside its claims.
  abbrev pub IsSigned : Text → Text → Text → Type 0
  IsSigned header payload signature =
      (decode_base64 signature ≡ some (codec.hmac secret (header ++ (b'.' ∷ payload))))
      × ((bytes : Text) × (fields : TokenHeader) × (decode_base64 header ≡ some bytes)
          × (codec.decode_header bytes ≡ some fields)
          × (fields.algorithm ≡ codes "HS256")
          × (fields.kind ≡ codes "JWT"))

  parts-accepted :
      (header payload signature : Text) (claims : TokenClaims)
      → parse_parts codec secret now header payload signature ≡ success claims
      → IsSigned header payload signature × HoldsClaims payload claims
  unfolding parse_parts is_jwt_header
  parts-accepted header payload signature claims h =
      let mac = codec.hmac secret (header ++ (b'.' ∷ payload)) in
      let (provided, decoded, h1) =
        need-success invalid_token (decode_base64 signature) _ claims h in
      let (equal, h2) = ensure-success invalid_token (text_eq provided mac) _ claims h1 in
      let (bytes, read, h3) = need-success invalid_token (decode_base64 header) _ claims h2 in
      let (fields, known, h4) =
        need-success invalid_token (codec.decode_header bytes) _ claims h3 in
      let (kind, h5) = ensure-success invalid_token (is_jwt_header fields) _ claims h4 in
      let same : provided ≡ mac = (text_eq_iff provided mac).0 equal in
      let both : (fields.algorithm ≡ codes "HS256") × (fields.kind ≡ codes "JWT") = ground (
        arith,
        kind,
        text_eq_iff fields.algorithm (codes "HS256"),
        text_eq_iff fields.kind (codes "JWT"),
      ) in
      (
        (decoded ∙ ap some same, (bytes, fields, read, known, both.0, both.1)),
        claims-HoldsClaims payload claims h5,
      )

  accepted-parts :
      (header payload signature : Text) (claims : TokenClaims)
      → IsSigned header payload signature
      → HoldsClaims payload claims
      → parse_parts codec secret now header payload signature ≡ success claims
  unfolding parse_parts is_jwt_header
  accepted-parts header payload signature claims proper holds =
      let mac = codec.hmac secret (header ++ (b'.' ∷ payload)) in
      let (decoded, (bytes, fields, read, known, algorithm, kind)) = proper in
      ground (
        arith,
        HoldsClaims-claims payload claims holds,
        decoded,
        read,
        known,
        text_eq_refl mac,
        text_eq_iff fields.algorithm (codes "HS256"),
        text_eq_iff fields.kind (codes "JWT"),
      )

  -- A token that `Parse` is right to accept for some claims.
  abbrev pub IsGenuine : Text → TokenClaims → Type 0
  IsGenuine token claims =
      (header : Text) × (payload : Text) × (signature : Text) × (split_at b'.' token
        ≡ header ∷ payload ∷ signature ∷ [])
      × (secret ≢ [])
      × IsSigned header payload signature
      × HoldsClaims payload claims

  pieces-accepted :
      (pieces : List Text) (claims : TokenClaims)
      → parse_pieces codec secret now pieces ≡ success claims
      → (header : Text) × (payload : Text) × (signature : Text) × (pieces
          ≡ header ∷ payload ∷ signature ∷ [])
        × (secret ≢ [])
        × (parse_parts codec secret now header payload signature ≡ success claims)
  unfolding parse_pieces
  pieces-accepted [] claims h = absurd (ground arith)
  pieces-accepted (x ∷ []) claims h = absurd (ground arith)
  pieces-accepted (x ∷ y ∷ []) claims h = absurd (ground arith)
  pieces-accepted (x ∷ y ∷ z ∷ w ∷ r) claims h = absurd (ground arith)
  pieces-accepted (x ∷ y ∷ z ∷ []) claims h = elim (Bool-cases (text_eq secret [])) [
    | inl empty ↦ absurd (ground arith)
    | inr keyed ↦ (x, y, z, refl, ground (arith, text_eq_iff secret []), ground arith)
  ]

  pub accepted-pieces :
      (header payload signature : Text)
      → secret ≢ []
      → parse_pieces codec secret now (header ∷ payload ∷ signature ∷ [])
        ≡ parse_parts codec secret now header payload signature
  unfolding parse_pieces
  accepted-pieces header payload signature keyed = ground (arith, text_eq_iff secret [])

  -- A token is accepted with some claims exactly when it is genuine: it has three parts, the secret is
  -- not empty, the third part stands for the keyed hash of the first two, the first part is a header
  -- of HS256 and JWT, and the second part holds these claims, with an address, the role admin or
  -- viewer, a numeric subject and an end that is still to come.
  pub parse_token-IsGenuine :
      (token : Text) (claims : TokenClaims)
      → (parse_token codec secret now token ≡ success claims) ↔ IsGenuine token claims
  unfolding parse_token
  parse_token-IsGenuine token claims = (
    λ h.
        let (header, payload, signature, cut, keyed, parsed) =
          pieces-accepted (split_at b'.' token) claims h in
        let (proper, holds) = parts-accepted header payload signature claims parsed in
        (header, payload, signature, cut, keyed, proper, holds),
    λ (header, payload, signature, cut, keyed, proper, holds).
        ap (parse_pieces codec secret now) cut
        ∙ accepted-pieces header payload signature keyed
        ∙ accepted-parts header payload signature claims proper holds,
  )
