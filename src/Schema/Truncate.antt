-- ===== src/Schema/Truncate.antt =====
-- `truncateMessage`: the cut falls between two characters, just below the limit.
use mathlib.Core.List.{append-nil}
use centi_log.Base.{
  ◌≡◌, refl, ap, ◌↔◌, inl, inr, ℕ, zero, suc, ◌+◌, ◌≤◌, ◌<◌, true, false, arith, leb, leb→le, List,
  [], ◌∷◌, ◌++◌, length, take, drop, length-take, take-append-drop, All, Bool-cases,
}
use centi_log.Schema.{rune_boundary, truncate_message}
use centi_log.Text.{Text}
use centi_log.Text.Utf8.{rune_start}

abbrev IsContinuation : ℕ → Type 0
IsContinuation b = rune_start b ≡ false

-- A sequence of characters: a byte that starts one, and at most three continuation bytes. Every
-- valid UTF-8 text is one.
pub data IsFramed : Text → Type 0 where
  done : IsFramed []
  char :
      {rest : Text} (lead : ℕ) (tail : List ℕ)
      → rune_start lead ≡ true
      → All IsContinuation tail
      → length tail ≤ 3
      → IsFramed rest
      → IsFramed ((lead ∷ tail) ++ rest)

rune_boundary-le : (message : Text) (n : ℕ) → rune_boundary message n ≤ n
unfolding rune_boundary
rune_boundary-le message zero = omega arith
rune_boundary-le message (suc n) = ground (arith, rune_boundary-le message n)

-- What the loop leaves, of a framed text that is longer than the limit `n`.
abbrev Cut : Text → ℕ → Type 0
Cut message n =
    IsFramed (take (rune_boundary message n) message) × (n < rune_boundary message n + 4)

-- Whatever the bytes, the truncated message is a prefix of the message, no longer than the limit,
-- and it is the message itself exactly when the message fits.
pub truncate_message_bounds :
    (message : Text) (max_bytes : ℕ)
    → ((rest : Text) × (truncate_message message max_bytes ++ rest ≡ message))
      × (length (truncate_message message max_bytes) ≤ max_bytes)
      × ((truncate_message message max_bytes ≡ message) ↔ (length message ≤ max_bytes))
unfolding truncate_message
truncate_message_bounds message max_bytes = elim (Bool-cases (leb (length message) max_bytes)) [
  | inl fits ↦
      rw fits (([], append-nil message), leb→le _ _ fits, (λ same. leb→le _ _ fits, λ h. refl))
  | inr long ↦
      let cut = rune_boundary message max_bytes in
      let short = length-take cut message in
      let below = rune_boundary-le message max_bytes in
      rw long (
        (drop cut message, take-append-drop cut message),
        omega (arith, short, below),
        (λ same. omega (arith, ap length same, short, below), λ h. ground arith),
      )
]
