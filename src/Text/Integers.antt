-- ===== src/Text/Integers.antt =====
-- Integers, and `strconv.FormatInt(v, 10)` and `strconv.ParseInt(s, 10, 64)`, which `Atoi` is on a
-- machine of 64 bits.
use centi_log.Base.{
  ℕ, zero, suc, ◌+◌, ◌^◌, ◌<◌, Bool, true, false, [], ◌∷◌, Option, none, some, if◌then◌else◌, leb,
  ltb, ◌==◌, ◌≡◌, refl, arith, inl, inr, sym, ◌∙◌, ap, Bool-cases,
}
use centi_log.Regex.Build.{plus}
use centi_log.Text.{Text}
use centi_log.Text.Decimal.{format_uint, parse_uint, parse_uint-format_uint, format_uint-shape}

-- `pos n` is n and `negsuc n` is -(n + 1).
pub data ℤ : Type 0 where
  pos negsuc : ℕ → ℤ

-- `x <= y`
unfoldable pub leb_int : ℤ → ℤ → Bool
leb_int (pos m) (pos n) = leb m n
leb_int (pos m) (negsuc n) = false
leb_int (negsuc m) (pos n) = true
leb_int (negsuc m) (negsuc n) = leb n m

unfoldable pub format_int : ℤ → Text
format_int (pos n) = format_uint n
format_int (negsuc n) = b'-' ∷ format_uint (suc n)

-- The value of the digits after a sign, or none past the range of int64.
unfoldable pub signed : Bool → Option ℕ → Option ℤ
signed negative none = none
signed true (some zero) = some (pos 0)
signed true (some (suc n)) = if ltb n (2 ^ 63) then some (negsuc n) else none
signed false (some n) = if ltb n (2 ^ 63) then some (pos n) else none

unfoldable pub parse_int : Text → Option ℤ
parse_int [] = none
parse_int (b ∷ s) =
    if b == b'-'
    then signed true (parse_uint s)
    else if b == b'+'
    then signed false (parse_uint s)
    else signed false (parse_uint (b ∷ s))

-- The range of int64.
abbrev pub IsInt64 : ℤ → Type 0
IsInt64 (pos n) = n < 2 ^ 63
IsInt64 (negsuc n) = n < 2 ^ 63

parse_int_minus : (s : Text) → parse_int (b'-' ∷ s) ≡ signed true (parse_uint s)
unfolding parse_int
parse_int_minus s = refl

parse_int_digit :
    (d : ℕ) (s : Text)
    → d < 10
    → parse_int ((b'0' + d) ∷ s) ≡ signed false (parse_uint ((b'0' + d) ∷ s))
unfolding parse_int
parse_int_digit d s h = ground arith

signed_pos : (n : ℕ) → n < 2 ^ 63 → signed false (some n) ≡ some (pos n)
unfolding signed
signed_pos n h = ground arith

signed_negsuc : (n : ℕ) → n < 2 ^ 63 → signed true (some (suc n)) ≡ some (negsuc n)
unfolding signed
signed_negsuc n h = ground arith

signed-IsInt64 : (negative : Bool) (o : Option ℕ) (v : ℤ) → signed negative o ≡ some v → IsInt64 v
unfolding signed
signed-IsInt64 negative none v h = absurd (ground arith)
signed-IsInt64 true (some zero) (pos n) h = ground arith
signed-IsInt64 true (some zero) (negsuc n) h = absurd (ground arith)
signed-IsInt64 true (some (suc n)) (pos m) h = absurd (ground arith)
signed-IsInt64 true (some (suc n)) (negsuc m) h = ground arith
signed-IsInt64 false (some n) (pos m) h = ground arith
signed-IsInt64 false (some n) (negsuc m) h = absurd (ground arith)

pub parse_int-format_int : (v : ℤ) → IsInt64 v → parse_int (format_int v) ≡ some v
unfolding format_int
parse_int-format_int (pos n) h =
    let (d, s, less, same) = format_uint-shape n in
    let back = ap (λ t. signed false (parse_uint t)) (sym same) in
    ap parse_int same
    ∙ parse_int_digit d s less
    ∙ back
    ∙ ap (signed false) (parse_uint-format_uint n)
    ∙ signed_pos n h
parse_int-format_int (negsuc n) h =
    parse_int_minus (format_uint (suc n))
    ∙ ap (signed true) (parse_uint-format_uint (suc n))
    ∙ signed_negsuc n h

-- What is read is in the range of int64.
pub parse_int-IsInt64 : (s : Text) (v : ℤ) → parse_int s ≡ some v → IsInt64 v
unfolding parse_int
parse_int-IsInt64 [] v h = absurd (ground arith)
parse_int-IsInt64 (b ∷ s) v h = elim (Bool-cases (b == b'-')) [
  | inl minus ↦ signed-IsInt64 true (parse_uint s) v (ground arith)
  | inr other ↦ elim (Bool-cases (b == b'+')) [
    | inl plus ↦ signed-IsInt64 false (parse_uint s) v (ground arith)
    | inr digit ↦ signed-IsInt64 false (parse_uint (b ∷ s)) v (ground arith)
  ]
]
