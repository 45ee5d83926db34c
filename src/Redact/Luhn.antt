-- ===== src/Redact/Luhn.antt =====
-- `passesLuhn`: which changes of a card number the checksum notices.
use mathlib.Core.Option
use mathlib.Core.List.{append_assoc, reverse-append, reverse-cons}
use centi_log.Base.{
  Bool, List, [], arith, false, none, not, reverse, some, ℕ, ◌++◌, ◌+◌, ◌<◌, ◌∷◌, ◌≡◌, ap, true,
  ◌%◌, ◌∙◌, Bool-cases, Option-cases, inl, inr, refl, ◌≢◌, ◌⊎◌,
}
use centi_log.Redact.{luhn_digits, luhn_sum, weight, passes_luhn, valid_digits}
use centi_log.Tailer.Lines.{behind}
use centi_log.Text.{Text}

luhn_digits-append :
    (pre post : Text)
    → luhn_digits (pre ++ post) ≡ elim (luhn_digits pre) [
      | none ↦ none
      | some ds ↦ Option.map (λ es. ds ++ es) (luhn_digits post)
    ]
unfolding luhn_digits
luhn_digits-append [] post = ground arith
luhn_digits-append (b ∷ pre) post = ground (arith, luhn_digits-append pre post)

luhn_sum-add :
    (sum : ℕ) (double : Bool) (ds : List ℕ) → luhn_sum sum double ds ≡ sum + luhn_sum 0 double ds
unfolding luhn_sum
luhn_sum-add sum double [] = omega arith
luhn_sum-add sum double (d ∷ ds) = omega (
  arith,
  luhn_sum-add (sum + weight double d) (not double) ds,
  luhn_sum-add (0 + weight double d) (not double) ds,
)

-- Whether the digit behind some digits counts double.
parity : Bool → List ℕ → Bool
parity double [] = double
parity double (d ∷ ds) = parity (not double) ds

luhn_sum-append :
    (double : Bool) (xs ys : List ℕ)
    → luhn_sum 0 double (xs ++ ys) ≡ luhn_sum 0 double xs + luhn_sum 0 (parity double xs) ys
unfolding luhn_sum parity
luhn_sum-append double [] ys = omega arith
luhn_sum-append double (x ∷ xs) ys = omega (
  arith,
  luhn_sum-append (not double) xs ys,
  luhn_sum-add (0 + weight double x) (not double) (xs ++ ys),
  luhn_sum-add (0 + weight double x) (not double) xs,
)

weight-lt : (double : Bool) (d : ℕ) → d < 10 → weight double d < 10
unfolding weight
weight-lt double d h = ground arith

-- No two digits weigh the same.
weight-injective :
    (double : Bool) (d e : ℕ) → d < 10 → e < 10 → weight double d ≡ weight double e → d ≡ e
unfolding weight
weight-injective double d e hd he same = ground arith

-- The sum around one digit, from the last digit on.
around : List ℕ → List ℕ → ℕ → ℕ
around xs ys d =
    luhn_sum 0 false (reverse ys)
    + (weight (parity false (reverse ys)) d
        + luhn_sum 0 (not (parity false (reverse ys))) (reverse xs))

luhn_sum-cons :
    (double : Bool) (d : ℕ) (ds : List ℕ)
    → luhn_sum 0 double (d ∷ ds) ≡ weight double d + luhn_sum 0 (not double) ds
unfolding luhn_sum
luhn_sum-cons double d ds = omega (arith, luhn_sum-add (0 + weight double d) (not double) ds)

reverse_around : (xs ys : List ℕ) (d : ℕ) → reverse (xs ++ d ∷ ys) ≡ reverse ys ++ d ∷ reverse xs
reverse_around xs ys d = simp (reverse-append, reverse-cons, append_assoc)

luhn_sum-around :
    (xs ys : List ℕ) (d : ℕ) → luhn_sum 0 false (reverse (xs ++ d ∷ ys)) ≡ around xs ys d
unfolding around
luhn_sum-around xs ys d = rw (reverse_around xs ys d) (
    luhn_sum-append false (reverse ys) (d ∷ reverse xs)
    ∙ ap (λ (n : ℕ). luhn_sum 0 false (reverse ys) + n)
        (luhn_sum-cons (parity false (reverse ys)) d (reverse xs)))

around-differ :
    (xs ys : List ℕ) (d e : ℕ)
    → d < 10
    → e < 10
    → around xs ys d % 10 ≡ 0
    → around xs ys e % 10 ≡ 0
    → d ≡ e
unfolding around
around-differ xs ys d e hd he pd pe =
    let double = parity false (reverse ys) in
    weight-injective double d e hd he (omega (arith, weight-lt double d hd, weight-lt double e he))

valid_digits-around :
    (xs ys : List ℕ) (d : ℕ) → valid_digits (xs ++ d ∷ ys) ≡ true → around xs ys d % 10 ≡ 0
unfolding valid_digits
valid_digits-around xs ys d h = ground (arith, luhn_sum-around xs ys d)

-- A digit character and its value.
abbrev IsDigitOf : ℕ → ℕ → Type 0
IsDigitOf b d = (b ≡ d + b'0') × (d < 10)

luhn_digits-digit :
    (b d : ℕ) (post : Text)
    → IsDigitOf b d
    → luhn_digits (b ∷ post) ≡ Option.map (λ ds. d ∷ ds) (luhn_digits post)
unfolding luhn_digits
luhn_digits-digit b d post digit = ground arith

digits_around :
    (pre post : Text) (b d : ℕ)
    → IsDigitOf b d
    → passes_luhn (pre ++ b ∷ post) ≡ true
    → (xs : List ℕ) × (ys : List ℕ) × (luhn_digits pre ≡ some xs)
      × (luhn_digits post ≡ some ys)
      × (valid_digits (xs ++ d ∷ ys) ≡ true)
unfolding passes_luhn
digits_around pre post b d digit h =
    let all = luhn_digits-append pre (b ∷ post) in
    let first = luhn_digits-digit b d post digit in
    elim (Option-cases (luhn_digits pre)) [
      | inl bad ↦ ground arith
      | inr (xs, left) ↦ elim (Option-cases (luhn_digits post)) [
        | inl bad ↦ ground arith
        | inr (ys, right) ↦ (xs, ys, left, right, ground arith)
      ]
    ]

-- One mistyped digit is always noticed: a candidate that passes no longer passes when one of its
-- digits is replaced by another digit.
pub passes_luhn_replaced_digit :
    (pre post : Text) (d e : ℕ)
    → d < 10
    → e < 10
    → d ≢ e
    → passes_luhn (pre ++ (d + b'0') ∷ post) ≡ true
    → passes_luhn (pre ++ (e + b'0') ∷ post) ≡ false
passes_luhn_replaced_digit pre post d e hd he differ h =
    elim (Bool-cases (passes_luhn (pre ++ (e + b'0') ∷ post))) [
      | inr fails ↦ fails
      | inl passes ↦
          let (xs, ys, left, right, valid) = digits_around pre post (d + b'0') d (refl, hd) h in
          let (xs', ys', left', right', valid') =
            digits_around pre post (e + b'0') e (refl, he) passes in
          let same_left : xs' ≡ xs = cc in
          let same_right : ys' ≡ ys = cc in
          let second : valid_digits (xs ++ e ∷ ys) ≡ true = rw (← same_left, ← same_right) valid' in
          absurd (
            differ (
              around-differ xs ys d e hd he (valid_digits-around xs ys d valid)
                (valid_digits-around xs ys e second)))
    ]

luhn_digits-separator :
    (b : ℕ) (post : Text) → (b ≡ b' ') ⊎ (b ≡ b'-') → luhn_digits (b ∷ post) ≡ luhn_digits post
unfolding luhn_digits
luhn_digits-separator b post h = ground arith

-- Blanks and hyphens between the digits do not matter.
pub passes_luhn-separator :
    (pre post : Text) (b : ℕ)
    → (b ≡ b' ') ⊎ (b ≡ b'-')
    → passes_luhn (pre ++ b ∷ post) ≡ passes_luhn (pre ++ post)
unfolding passes_luhn
passes_luhn-separator pre post b h = ground (
  arith,
  luhn_digits-append pre (b ∷ post),
  luhn_digits-append pre post,
  luhn_digits-separator b post h,
)

-- The sum around two neighbours.
around_two : List ℕ → List ℕ → ℕ → ℕ → ℕ
around_two xs ys d e =
    luhn_sum 0 false (reverse ys)
    + (weight (parity false (reverse ys)) e
        + (weight (not (parity false (reverse ys))) d
            + luhn_sum 0 (not (not (parity false (reverse ys)))) (reverse xs)))

reverse_around_two :
    (xs ys : List ℕ) (d e : ℕ) → reverse (xs ++ d ∷ e ∷ ys) ≡ reverse ys ++ e ∷ d ∷ reverse xs
reverse_around_two xs ys d e = simp (reverse-append, reverse-cons, append_assoc)

luhn_sum-around_two :
    (xs ys : List ℕ) (d e : ℕ)
    → luhn_sum 0 false (reverse (xs ++ d ∷ e ∷ ys)) ≡ around_two xs ys d e
unfolding around_two
luhn_sum-around_two xs ys d e =
    let p = parity false (reverse ys) in
    rw (reverse_around_two xs ys d e) (
      omega (
        arith,
        luhn_sum-append false (reverse ys) (e ∷ d ∷ reverse xs),
        luhn_sum-cons p e (d ∷ reverse xs),
        luhn_sum-cons (not p) d (reverse xs),
      ))

-- Two digits that are swapped change the sum, unless they are equal or 0 and 9.
weights_of_swap :
    (double : Bool) (d e n : ℕ)
    → d < 10
    → e < 10
    → (n + (weight double e + weight (not double) d)) % 10 ≡ 0
    → (n + (weight double d + weight (not double) e)) % 10 ≡ 0
    → (d ≡ e) ⊎ ((d ≡ 0) × (e ≡ 9)) ⊎ ((d ≡ 9) × (e ≡ 0))
unfolding weight
weights_of_swap true d e n hd he p q = ground arith
weights_of_swap false d e n hd he p q = ground arith

valid_digits-around_two :
    (xs ys : List ℕ) (d e : ℕ)
    → valid_digits (xs ++ d ∷ e ∷ ys) ≡ true
    → around_two xs ys d e % 10 ≡ 0
unfolding valid_digits
valid_digits-around_two xs ys d e h = ground (arith, luhn_sum-around_two xs ys d e)

swap_valid :
    (xs ys : List ℕ) (d e : ℕ)
    → d < 10
    → e < 10
    → valid_digits (xs ++ d ∷ e ∷ ys) ≡ true
    → valid_digits (xs ++ e ∷ d ∷ ys) ≡ true
    → (d ≡ e) ⊎ ((d ≡ 0) × (e ≡ 9)) ⊎ ((d ≡ 9) × (e ≡ 0))
unfolding around_two
swap_valid xs ys d e hd he p q =
    let double = parity false (reverse ys) in
    let others = luhn_sum 0 false (reverse ys) + luhn_sum 0 (not (not double)) (reverse xs) in
    let first = valid_digits-around_two xs ys d e p in
    let second = valid_digits-around_two xs ys e d q in
    weights_of_swap double d e others hd he (omega arith) (omega arith)

two_digits_around :
    (pre post : Text) (d e : ℕ)
    → d < 10
    → e < 10
    → passes_luhn (pre ++ (d + b'0') ∷ (e + b'0') ∷ post) ≡ true
    → (xs : List ℕ) × (ys : List ℕ) × (luhn_digits pre ≡ some xs)
      × (luhn_digits post ≡ some ys)
      × (valid_digits (xs ++ d ∷ e ∷ ys) ≡ true)
two_digits_around pre post d e hd he h =
    let (xs, rest, left, behind, valid) =
      digits_around pre ((e + b'0') ∷ post) (d + b'0') d (refl, hd) h in
    let second = luhn_digits-digit (e + b'0') e post (refl, he) in
    elim (Option-cases (luhn_digits post)) [
      | inl bad ↦ ground arith
      | inr (ys, right) ↦ (xs, ys, left, right, ground arith)
    ]

-- Two neighbouring digits that are swapped are noticed, unless they are 0 and 9: if a candidate
-- passes both before and after the swap, then they are equal or they are 0 and 9.
pub passes_luhn_swapped_digits :
    (pre post : Text) (d e : ℕ)
    → d < 10
    → e < 10
    → passes_luhn (pre ++ (d + b'0') ∷ (e + b'0') ∷ post) ≡ true
    → passes_luhn (pre ++ (e + b'0') ∷ (d + b'0') ∷ post) ≡ true
    → (d ≡ e) ⊎ ((d ≡ 0) × (e ≡ 9)) ⊎ ((d ≡ 9) × (e ≡ 0))
passes_luhn_swapped_digits pre post d e hd he h h' =
    let (xs, ys, left, right, valid) = two_digits_around pre post d e hd he h in
    let (xs', ys', left', right', valid') = two_digits_around pre post e d he hd h' in
    let same_left : xs' ≡ xs = cc in
    let same_right : ys' ≡ ys = cc in
    swap_valid xs ys d e hd he valid (rw (← same_left, ← same_right) valid')
