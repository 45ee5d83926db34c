-- ===== src/Regex/Matches.antt =====
-- Where the matches of `find_all` lie in the text: in order, apart, and each of them a run.
use native.Mathlib.Numerals.{add-one}
use centi_log.Base.{
  [], arith, drop, get_or, length, some, suc, sym, zero, ℕ, ◌-◌, ◌∙◌, ◌∷◌, ◌≡◌, ◌≤◌, List, Option,
  Option-cases, inl, inr, ◌+◌, ◌<◌, none, refl,
}
use centi_log.Regex.{Cursor, advance, Match, Re, find_from, match_at, find_all}
use centi_log.Regex.Runs.{
  Run, match_sound, nothing, one, both, left, right, stop, more, grouped, edge,
}
use centi_log.Sender.{second}
use centi_log.Text.{Text}

-- The cursor stands in the text `s`.
pub record IsAt (s : Text) (c : Cursor) : Type 0 where
  pub rest : c.rest ≡ drop c.index s
  pub within : c.index ≤ length s
  pub behind : (b : ℕ) → c.before ≡ some b → get_or s (c.index - 1) 0 ≡ b

drop-cons :
    (s : Text) (i b : ℕ) (r : Text)
    → b ∷ r ≡ drop i s
    → (r ≡ drop (suc i) s) × (suc i ≤ length s) × (get_or s i 0 ≡ b)
drop-cons [] zero b r e = cc
drop-cons [] (suc i) b r e = cc
drop-cons (a ∷ s) zero b r e = ground arith
drop-cons (a ∷ s) (suc i) b r e = let (t, n, g) = drop-cons s i b r e in (t, omega arith, g)

advance-IsAt :
    (s : Text) (c : Cursor) (b : ℕ) (r : Text) → IsAt s c → c.rest ≡ b ∷ r → IsAt s (advance c b r)
advance-IsAt s c b r h e =
    let (t, n, g) = drop-cons s c.index b r (sym e ∙ h.rest) in
    record { rest = rw add-one t; within = omega arith; behind = λ a p. ground (arith, g) }

-- A run stays in the text, takes no byte back, and keeps the cursor in place.
pub Run-IsAt :
    {a : Re} {c d : Cursor} (s : Text) → Run a c d → IsAt s c → IsAt s d × (c.index ≤ d.index)
Run-IsAt {c} s nothing h = (h, omega arith)
Run-IsAt {c} s (one b r e accepted same) h = rw same (advance-IsAt s c b r h e, omega arith)
Run-IsAt s (both first second) h =
    let (at_d, le) = Run-IsAt s first h in
    let (at_e, le') = Run-IsAt s second at_d in (at_e, omega arith)
Run-IsAt s (left run) h = Run-IsAt s run h
Run-IsAt s (right run) h = Run-IsAt s run h
Run-IsAt s stop h = (h, omega arith)
Run-IsAt s (more first others) h =
    let (at_d, le) = Run-IsAt s first h in
    let (at_e, le') = Run-IsAt s others at_d in (at_e, omega arith)
Run-IsAt s (grouped n run same) h =
    let (at_d, le) = Run-IsAt s run h in
    rw same (record { rest = at_d.rest; within = at_d.within; behind = at_d.behind }, le)
Run-IsAt s (edge e) h = (h, omega arith)

-- A match of `re` in `s`.
pub record IsMatch (re : Re) (s : Text) (m : Match) : Type 0 where
  pub from : Cursor
  pub to : Cursor
  pub placed : IsAt s from
  pub run : Run re from to
  pub begins : from.index ≡ m.start
  pub ends : to.index ≡ m.end

-- Matches from a position on: each begins at or behind the end of the one before it.
abbrev pub InOrder : Re → Text → ℕ → List Match → Type 0
InOrder re s from [] = from ≤ length s
InOrder re s from (m ∷ ms) =
    (from ≤ m.start)
    × (m.start < m.end)
    × (m.end ≤ length s)
    × IsMatch re s m
    × InOrder re s m.end ms

InOrder-le :
    (re : Re) (s : Text) (i j : ℕ) (ms : List Match) → i ≤ j → InOrder re s j ms → InOrder re s i ms
InOrder-le re s i j [] le h = omega arith
InOrder-le re s i j (m ∷ ms) le (a, b, c, d, e) = (omega arith, b, c, d, e)

module _ (re : Re) (grows : (c d : Cursor) → Run re c d → c.index < d.index) (s : Text) where
  abbrev here : Option ℕ → ℕ → Text → Cursor
  here before index rest = record { before = before; index = index; rest = rest; groups = [] }

  matched_at :
      (before : Option ℕ) (index : ℕ) (rest : Text) (c : Cursor)
      → IsAt s (here before index rest)
      → match_at re before index rest ≡ some c
      → IsMatch re s (record { start = index; end = c.index; groups = c.groups })
        × (index < c.index)
        × (c.index ≤ length s)
  unfolding match_at
  matched_at before index rest c at_c found =
      let (d, run, same) = match_sound re (here before index rest) some c found in
      let end : d.index ≡ c.index = cc in
      let (at_d, le) = Run-IsAt s run at_c in
      let ahead = grows (here before index rest) d run in
      (
        record {
          from = here before index rest;
          to = d;
          placed = at_c;
          run = run;
          begins = refl;
          ends = end;
        },
        omega arith,
        omega (arith, at_d.within),
      )

  find_from-InOrder :
      (skip : ℕ) (before : Option ℕ) (index : ℕ) (rest : Text)
      → IsAt s (here before index rest)
      → skip ≤ length rest
      → index + length rest ≡ length s
      → InOrder re s (index + skip) (find_from re skip before index rest)
  unfolding find_from
  find_from-InOrder skip before index [] at_c le total = omega arith
  find_from-InOrder (suc k) before index (b ∷ r) at_c le total =
      let next = advance-IsAt s (here before index (b ∷ r)) b r at_c refl in
      InOrder-le re s (index + suc k) (index + 1 + k) _ (omega arith)
        (find_from-InOrder k (some b) (index + 1) r next (omega arith) (omega arith))
  find_from-InOrder zero before index (b ∷ r) at_c le total =
      let next = advance-IsAt s (here before index (b ∷ r)) b r at_c refl in
      elim (Option-cases (match_at re before index (b ∷ r))) [
        | inl missed ↦
            rw (missed, find_from)
              (InOrder-le re s (index + 0) (index + 1 + 0) _ (omega arith)
                (find_from-InOrder 0 (some b) (index + 1) r next (omega arith) (omega arith)))
        | inr (c, found) ↦
            let m = matched_at before index (b ∷ r) c at_c found in
            let ahead = m.1 in
            let inside = m.2 in
            rw (found, find_from)
              (
                omega arith,
                ahead,
                inside,
                m.0,
                InOrder-le re s c.index (index + 1 + (c.index - index - 1)) _ (omega arith) (
                    find_from-InOrder (c.index - index - 1) (some b) (index + 1) r next
                      (omega arith) (omega arith)),
              )
      ]

  -- The matches of `find_all` stand in the text in their order, none of them empty, none of them
  -- overlapping another one, and each is a run of the expression.
  pub find_all-InOrder : InOrder re s 0 (find_all re s)
  unfolding find_all
  find_all-InOrder = InOrder-le re s 0 (0 + 0) _ (omega arith) (
      find_from-InOrder 0 none 0 s
        (record { rest = refl; within = omega arith; behind = λ b e. cc }) (omega arith)
        (omega arith))
