-- ===== src/Text/Base64.antt =====
-- `base64.RawURLEncoding` of encoding/base64: sextets without padding. The decoder leaves out line
-- ends and does not ask the unused bits of the last sextet to be zero, as Go's does.
use centi_log.Base.{
  ℕ, ◌+◌, ◌-◌, ◌*◌, ◌/◌, ◌%◌, ◌<◌, ◌≤◌, ◌≢◌, [], ◌∷◌, List, Option, none, some, if◌then◌else◌, leb,
  ltb, ◌==◌, ◌&&◌, ◌||◌, ◌≡◌, refl, arith, All,
}
use centi_log.Text.{Text}

unfoldable pub sextet_char : ℕ → ℕ
sextet_char v =
    if ltb v 26
    then b'A' + v
    else if ltb v 52
    then b'a' + (v - 26)
    else if ltb v 62
    then b'0' + (v - 52)
    else if v == 62
    then b'-'
    else b'_'

unfoldable pub char_sextet : ℕ → Option ℕ
char_sextet c =
    if leb b'A' c && leb c b'Z'
    then some (c - b'A')
    else if leb b'a' c && leb c b'z'
    then some (c - b'a' + 26)
    else if leb b'0' c && leb c b'9'
    then some (c - b'0' + 52)
    else if c == b'-'
    then some 62
    else if c == b'_'
    then some 63
    else none

-- `EncodeToString`
unfoldable pub encode_base64 : Text → Text
encode_base64 [] = []
encode_base64 (x ∷ []) = sextet_char (x / 4) ∷ sextet_char (x % 4 * 16) ∷ []
encode_base64 (x ∷ y ∷ []) =
    sextet_char (x / 4) ∷ sextet_char (x % 4 * 16 + y / 16) ∷ sextet_char (y % 16 * 4) ∷ []
encode_base64 (x ∷ y ∷ z ∷ r) =
    sextet_char (x / 4)
    ∷ sextet_char (x % 4 * 16 + y / 16)
    ∷ sextet_char (y % 16 * 4 + z / 64)
    ∷ sextet_char (z % 64)
    ∷ encode_base64 r

abbrev push_sextet : ℕ → Option (List ℕ) → Option (List ℕ)
push_sextet v none = none
push_sextet v (some vs) = some (v ∷ vs)

unfoldable pub sextets : Text → Option (List ℕ)
sextets [] = some []
sextets (c ∷ s) =
    let rest = sextets s in
    if c == 10 || c == 13
    then rest
    else elim (char_sextet c) [ none ↦ none | some v ↦ push_sextet v rest ]

abbrev push_bytes : ℕ → ℕ → ℕ → Option Text → Option Text
push_bytes x y z none = none
push_bytes x y z (some s) = some (x ∷ y ∷ z ∷ s)

unfoldable pub join_sextets : List ℕ → Option Text
join_sextets [] = some []
join_sextets (a ∷ []) = none
join_sextets (a ∷ b ∷ []) = some ((a * 4 + b / 16) ∷ [])
join_sextets (a ∷ b ∷ c ∷ []) = some ((a * 4 + b / 16) ∷ (b % 16 * 16 + c / 4) ∷ [])
join_sextets (a ∷ b ∷ c ∷ d ∷ r) =
    push_bytes (a * 4 + b / 16) (b % 16 * 16 + c / 4) (c % 4 * 64 + d) (join_sextets r)

-- `DecodeString`; none for its error.
unfoldable pub decode_base64 : Text → Option Text
decode_base64 s = elim (sextets s) [ none ↦ none | some vs ↦ join_sextets vs ]

decode_base64_read :
    (s : Text) (vs : List ℕ) → sextets s ≡ some vs → decode_base64 s ≡ join_sextets vs
unfolding decode_base64
decode_base64_read s vs h = ground arith

abbrev pub IsByte : ℕ → Type 0
IsByte b = b < 256

char_sextet-sextet_char : (v : ℕ) → v < 64 → char_sextet (sextet_char v) ≡ some v
unfolding char_sextet sextet_char
char_sextet-sextet_char v h = ground arith

-- A sextet is written as a letter, a digit, a hyphen or an underscore.
abbrev pub IsUrlChar : ℕ → Type 0
IsUrlChar c = (c ≢ b'.') × (33 ≤ c) × (c ≤ 126)

sextet_char-IsUrlChar : (v : ℕ) → IsUrlChar (sextet_char v)
unfolding sextet_char
sextet_char-IsUrlChar v = (ground arith, ground arith, ground arith)

sextets-cons : (v : ℕ) (s : Text) → v < 64 → sextets (sextet_char v ∷ s) ≡ push_sextet v (sextets s)
unfolding sextets
sextets-cons v s h =
    let (dot, low, high) = sextet_char-IsUrlChar v in ground (arith, char_sextet-sextet_char v h)

-- The sextets of some bytes.
split_bytes : Text → List ℕ
split_bytes [] = []
split_bytes (x ∷ []) = (x / 4) ∷ (x % 4 * 16) ∷ []
split_bytes (x ∷ y ∷ []) = (x / 4) ∷ (x % 4 * 16 + y / 16) ∷ (y % 16 * 4) ∷ []
split_bytes (x ∷ y ∷ z ∷ r) =
    (x / 4) ∷ (x % 4 * 16 + y / 16) ∷ (y % 16 * 4 + z / 64) ∷ (z % 64) ∷ split_bytes r

sextets-encode_base64 : (t : Text) → All IsByte t → sextets (encode_base64 t) ≡ some (split_bytes t)
unfolding encode_base64 split_bytes
sextets-encode_base64 [] h = unfold sextets in refl
sextets-encode_base64 (x ∷ []) (hx, h) =
    rw
      (
        sextets-cons (x / 4) (sextet_char (x % 4 * 16) ∷ []) (omega arith),
        sextets-cons (x % 4 * 16) [] (omega arith),
      )
      (unfold sextets in refl)
sextets-encode_base64 (x ∷ y ∷ []) (hx, (hy, h)) =
    rw
      (
        sextets-cons (x / 4) (sextet_char (x % 4 * 16 + y / 16) ∷ sextet_char (y % 16 * 4) ∷ [])
            (omega arith),
        sextets-cons (x % 4 * 16 + y / 16) (sextet_char (y % 16 * 4) ∷ []) (omega arith),
        sextets-cons (y % 16 * 4) [] (omega arith),
      )
      (unfold sextets in refl)
sextets-encode_base64 (x ∷ y ∷ z ∷ r) (hx, (hy, (hz, h))) =
    let rest = encode_base64 r in
    rw
      (
        sextets-cons (x / 4)
            (sextet_char (x % 4 * 16 + y / 16)
              ∷ sextet_char (y % 16 * 4 + z / 64)
              ∷ sextet_char (z % 64)
              ∷ rest)
            (omega arith),
        sextets-cons (x % 4 * 16 + y / 16)
            (sextet_char (y % 16 * 4 + z / 64) ∷ sextet_char (z % 64) ∷ rest) (omega arith),
        sextets-cons (y % 16 * 4 + z / 64) (sextet_char (z % 64) ∷ rest) (omega arith),
        sextets-cons (z % 64) rest (omega arith),
        sextets-encode_base64 r h,
      )
      refl

byte_1 : (x y : ℕ) → x < 256 → y < 256 → x / 4 * 4 + (x % 4 * 16 + y / 16) / 16 ≡ x
byte_1 x y hx hy = omega arith

byte_2 :
    (x y z : ℕ)
    → x < 256
    → y < 256
    → z < 256
    → (x % 4 * 16 + y / 16) % 16 * 16 + (y % 16 * 4 + z / 64) / 4 ≡ y
byte_2 x y z hx hy hz = omega arith

byte_3 : (y z : ℕ) → z < 256 → (y % 16 * 4 + z / 64) % 4 * 64 + z % 64 ≡ z
byte_3 y z hz = omega arith

join_sextets-split_bytes : (t : Text) → All IsByte t → join_sextets (split_bytes t) ≡ some t
unfolding join_sextets split_bytes
join_sextets-split_bytes [] h = refl
join_sextets-split_bytes (x ∷ []) (hx, h) =
    let e : x / 4 * 4 + x % 4 * 16 / 16 ≡ x = omega arith in rw e refl
join_sextets-split_bytes (x ∷ y ∷ []) (hx, (hy, h)) =
    let f : (x % 4 * 16 + y / 16) % 16 * 16 + y % 16 * 4 / 4 ≡ y = omega arith in
    rw (byte_1 x y hx hy, f) refl
join_sextets-split_bytes (x ∷ y ∷ z ∷ r) (hx, (hy, (hz, h))) =
    rw (byte_1 x y hx hy, byte_2 x y z hx hy hz, byte_3 y z hz, join_sextets-split_bytes r h) refl

pub decode_base64-encode_base64 :
    (t : Text) → All IsByte t → decode_base64 (encode_base64 t) ≡ some t
unfolding decode_base64
decode_base64-encode_base64 t h =
    rw (decode_base64, sextets-encode_base64 t h) (join_sextets-split_bytes t h)

pub encode_base64-IsUrlChar : (t : Text) → All IsUrlChar (encode_base64 t)
unfolding encode_base64
encode_base64-IsUrlChar [] = tt
encode_base64-IsUrlChar (x ∷ []) =
    (sextet_char-IsUrlChar (x / 4), (sextet_char-IsUrlChar (x % 4 * 16), tt))
encode_base64-IsUrlChar (x ∷ y ∷ []) =
    let second = sextet_char-IsUrlChar (x % 4 * 16 + y / 16) in
    (sextet_char-IsUrlChar (x / 4), (second, (sextet_char-IsUrlChar (y % 16 * 4), tt)))
encode_base64-IsUrlChar (x ∷ y ∷ z ∷ r) =
    let second = sextet_char-IsUrlChar (x % 4 * 16 + y / 16) in
    let third = sextet_char-IsUrlChar (y % 16 * 4 + z / 64) in
    let last = sextet_char-IsUrlChar (z % 64) in
    (sextet_char-IsUrlChar (x / 4), (second, (third, (last, encode_base64-IsUrlChar r))))
