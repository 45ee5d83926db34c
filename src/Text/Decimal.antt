-- ===== src/Text/Decimal.antt =====
-- Decimal digits: `fmt.Sprintf("%d", n)` and `strconv.FormatInt` of a number that is not negative,
-- and the reading of digits that `strconv` shares.
use centi_log.Base.{
  ℕ, zero, suc, ◌+◌, ◌/◌, ◌%◌, ltb, [], ◌∷◌, if◌then◌else◌, Option, leb, none, some, ◌&&◌, ◌*◌, ◌-◌,
  Bool-cases, ap, arith, inl, inr, ltb→lt, refl, sym, true, ◌<◌, ◌∙◌, ◌≡◌, All, ◌≤◌,
}
use centi_log.Text.{Text}

digits_from : ℕ → ℕ → Text → Text
digits_from zero n acc = acc
digits_from (suc fuel) n acc =
    let more = digits_from fuel (n / 10) ((b'0' + n % 10) ∷ acc) in
    if ltb n 10 then (b'0' + n) ∷ acc else more

unfoldable pub format_uint : ℕ → Text
unfolding digits_from
format_uint n = digits_from (suc n) n []

-- The digits of `strconv.ParseUint(s, 10, …)`, on what is read so far.
unfoldable pub parse_digits : ℕ → Text → Option ℕ
parse_digits n [] = some n
parse_digits n (b ∷ s) =
    let rest = parse_digits (n * 10 + (b - b'0')) s in
    if leb b'0' b && leb b b'9' then rest else none

-- `strconv.ParseUint(s, 10, …)` without the bound of its size.
unfoldable pub parse_uint : Text → Option ℕ
parse_uint [] = none
parse_uint (b ∷ s) = parse_digits 0 (b ∷ s)

parse_digits-char :
    (n d : ℕ) (s : Text) → d < 10 → parse_digits n ((b'0' + d) ∷ s) ≡ parse_digits (n * 10 + d) s
unfolding parse_digits
parse_digits-char n d s h =
    let test : leb b'0' (b'0' + d) && leb (b'0' + d) b'9' ≡ true = ground arith in
    let value : n * 10 + (b'0' + d - b'0') ≡ n * 10 + d = omega arith in rw (test, value) refl

parse_digits-digits_from :
    (fuel n : ℕ) (acc : Text)
    → n < fuel
    → parse_digits 0 (digits_from fuel n acc) ≡ parse_digits n acc
unfolding digits_from
parse_digits-digits_from zero n acc h = absurd (omega arith)
parse_digits-digits_from (suc fuel) n acc h = elim (Bool-cases (ltb n 10)) [
  | inl small ↦
      let value : 0 * 10 + n ≡ n = omega arith in
      rw small (parse_digits-char 0 n acc (ltb→lt n 10 small) ∙ ap (λ k. parse_digits k acc) value)
  | inr large ↦
      let back : n / 10 * 10 + n % 10 ≡ n = omega arith in
      let less : n / 10 < fuel = ground arith in
      rw large (
        parse_digits-digits_from fuel (n / 10) ((b'0' + n % 10) ∷ acc) less
        ∙ parse_digits-char (n / 10) (n % 10) acc (omega arith)
        ∙ ap (λ k. parse_digits k acc) back)
]

digits_from-shape :
    (fuel n : ℕ) (acc : Text)
    → (d : ℕ) × (s : Text) × (d < 10) × (digits_from (suc fuel) n acc ≡ (b'0' + d) ∷ s)
unfolding digits_from
digits_from-shape zero n acc = elim (Bool-cases (ltb n 10)) [
  | inl small ↦ (n, acc, ltb→lt n 10 small, rw small refl)
  | inr large ↦ (n % 10, acc, omega arith, rw large refl)
]
digits_from-shape (suc fuel) n acc = elim (Bool-cases (ltb n 10)) [
  | inl small ↦ (n, acc, ltb→lt n 10 small, rw small refl)
  | inr large ↦
      let (d, s, less, same) = digits_from-shape fuel (n / 10) ((b'0' + n % 10) ∷ acc) in
      (d, s, less, rw large same)
]

-- A decimal starts with a digit.
pub format_uint-shape : (n : ℕ) → (d : ℕ) × (s : Text) × (d < 10) × (format_uint n ≡ (b'0' + d) ∷ s)
unfolding format_uint
format_uint-shape n = digits_from-shape n n []

pub parse_uint-format_uint : (n : ℕ) → parse_uint (format_uint n) ≡ some n
unfolding format_uint parse_uint parse_digits
parse_uint-format_uint n =
    let (d, s, less, same) = digits_from-shape n n [] in
    let whole = parse_digits-digits_from (suc n) n [] (omega arith) in
    rw same (sym (ap (parse_digits 0) same) ∙ whole)

abbrev pub IsDigitByte : ℕ → Type 0
IsDigitByte b = (b'0' ≤ b) × (b ≤ b'9')

digits_from-IsDigitByte :
    (fuel n : ℕ) (acc : Text) → All IsDigitByte acc → All IsDigitByte (digits_from fuel n acc)
unfolding digits_from
digits_from-IsDigitByte zero n acc h = h
digits_from-IsDigitByte (suc fuel) n acc h = elim (Bool-cases (ltb n 10)) [
  | inl small ↦ let less = ltb→lt n 10 small in rw small ((omega arith, omega arith), h)
  | inr large ↦ rw large (
      digits_from-IsDigitByte fuel (n / 10) ((b'0' + n % 10) ∷ acc) ((omega arith, omega arith), h))
]

pub format_uint-IsDigitByte : (n : ℕ) → All IsDigitByte (format_uint n)
unfolding format_uint
format_uint-IsDigitByte n = digits_from-IsDigitByte (suc n) n [] tt
