-- ===== src/Regex/Runs.antt =====
-- What a match means: the runs of an expression, and that the matcher finds only runs.
use centi_log.Base.{
  Bool, Bool-cases, Option, Option-cases, [], arith, inl, inr, length, refl, some, suc, true, zero,
  ℕ, ◌∷◌, ◌≡◌,
}
use centi_log.Regex.{
  empty, byte, seq, alt, star, group, boundary, Cursor, Re, advance, at_boundary, match, match_byte,
  match_star, set_group,
}
use centi_log.Sender.{run, second}
use centi_log.Text.{Text}

-- From a position, an expression can run to another one.
pub data Run : Re → Cursor → Cursor → Type 0 where
  nothing : {c : Cursor} → Run empty c c
  one :
      {p : ℕ → Bool} {c d : Cursor} (b : ℕ) (r : Text)
      → c.rest ≡ b ∷ r
      → p b ≡ true
      → d ≡ advance c b r
      → Run (byte p) c d
  both : {a b : Re} {c d e : Cursor} → Run a c d → Run b d e → Run (seq a b) c e
  left : {a b : Re} {c d : Cursor} → Run a c d → Run (alt a b) c d
  right : {a b : Re} {c d : Cursor} → Run b c d → Run (alt a b) c d
  stop : {a : Re} {c : Cursor} → Run (star a) c c
  more : {a : Re} {c d e : Cursor} → Run a c d → Run (star a) d e → Run (star a) c e
  grouped :
      {a : Re} {c d e : Cursor} (n : ℕ)
      → Run a c d
      → e ≡ set_group n c.index d
      → Run (group n a) c e
  edge : {c : Cursor} → at_boundary c ≡ true → Run boundary c c

-- A result of the matcher is a run whose end the continuation turned into that result.
abbrev pub Found : Re → Cursor → (Cursor → Option Cursor) → Cursor → Type 0
Found a c k r = (d : Cursor) × Run a c d × (k d ≡ some r)

match_byte_sound :
    (p : ℕ → Bool) (k : Cursor → Option Cursor) (c : Cursor) (rest : Text) (r : Cursor)
    → c.rest ≡ rest
    → match_byte p k c rest ≡ some r
    → Found (byte p) c k r
unfolding match_byte
match_byte_sound p k c [] r e h = cc
match_byte_sound p k c (b ∷ t) r e h = elim (Bool-cases (p b)) [
  | inl accepted ↦ (advance c b t, one b t e accepted refl, ground arith)
  | inr refused ↦ ground arith
]

match_star_sound :
    (a : Re)
    → ((c : Cursor) (k : Cursor → Option Cursor) (r : Cursor)
        → match a c k ≡ some r
        → Found a c k r)
    → (fuel : ℕ) (k : Cursor → Option Cursor) (c r : Cursor)
    → match_star fuel (match a) k c ≡ some r
    → Found (star a) c k r
unfolding match_star
match_star_sound a sound zero k c r h = (c, stop, h)
match_star_sound a sound (suc fuel) k c r h =
    elim (Option-cases (match a c (match_star fuel (match a) k))) [
      | inl missed ↦ (c, stop, ground arith)
      | inr (found, matched) ↦
          let (d, first, later) = sound c (match_star fuel (match a) k) found matched in
          let (e, others, ends) = match_star_sound a sound fuel k d found later in
          (e, more first others, ground arith)
    ]

pub match_sound :
    (a : Re) (c : Cursor) (k : Cursor → Option Cursor) (r : Cursor)
    → match a c k ≡ some r
    → Found a c k r
unfolding match
match_sound empty c k r h = (c, nothing, h)
match_sound (byte p) c k r h = match_byte_sound p k c c.rest r refl h
match_sound (seq a b) c k r h =
    let (d, first, later) = match_sound a c (λ c'. match b c' k) r h in
    let (e, second, ends) = match_sound b d k r later in (e, both first second, ends)
match_sound (alt a b) c k r h = elim (Option-cases (match a c k)) [
  | inl missed ↦ let (d, run, ends) = match_sound b c k r (ground arith) in (d, right run, ends)
  | inr (found, matched) ↦
      let (d, run, ends) = match_sound a c k found matched in (d, left run, ground arith)
]
match_sound (star a) c k r h = match_star_sound a (match_sound a) (length c.rest) k c r h
match_sound (group n a) c k r h =
    let (d, run, ends) = match_sound a c (λ c'. k (set_group n c.index c')) r h in
    (set_group n c.index d, grouped n run refl, ends)
match_sound boundary c k r h = elim (Bool-cases (at_boundary c)) [
  | inl inside ↦ (c, edge inside, ground arith)
  | inr outside ↦ ground arith
]
