-- ===== src/Regex/Endings.antt =====
-- Which byte a run ends behind.
use centi_log.Base.{Bool, arith, refl, some, suc, true, zero, ℕ, ◌<◌, ◌≡◌, ◌≤◌}
use centi_log.Regex.{byte, seq, Cursor, Re}
use centi_log.Regex.Build.{times, up_to}
use centi_log.Regex.Runs.{nothing, one, both, left, right, stop, more, grouped, edge, Run}
use centi_log.Sender.{run, second}

-- The byte before the cursor is one of a class.
abbrev pub EndsIn : (ℕ → Bool) → Cursor → Type 0
EndsIn p d = (b : ℕ) × (d.before ≡ some b) × (p b ≡ true)

pub Run-seq : {a b : Re} {c e : Cursor} → Run (seq a b) c e → (d : Cursor) × Run a c d × Run b d e
Run-seq (both {d} first second) = (d, first, second)

pub Run-byte : {p : ℕ → Bool} {c d : Cursor} → Run (byte p) c d → EndsIn p d × (c.index < d.index)
Run-byte (one b r e accepted same) = rw same ((b, refl, accepted), omega arith)

pub Run-index-le : {a : Re} {c d : Cursor} → Run a c d → c.index ≤ d.index
Run-index-le nothing = omega arith
Run-index-le (one b r e accepted same) = rw same (omega arith)
Run-index-le (both first second) = omega (arith, Run-index-le first, Run-index-le second)
Run-index-le (left run) = Run-index-le run
Run-index-le (right run) = Run-index-le run
Run-index-le stop = omega arith
Run-index-le (more first others) = omega (arith, Run-index-le first, Run-index-le others)
Run-index-le (grouped n run same) = rw same (Run-index-le run)
Run-index-le (edge e) = omega arith

module _ (p : ℕ → Bool) (a : Re) (ends : (c d : Cursor) → Run a c d → EndsIn p d) where
  pub Run-times : (n : ℕ) {c d : Cursor} → Run (times n a) c d → EndsIn p c → EndsIn p d
  unfolding times
  Run-times zero nothing h = h
  Run-times (suc n) (both {c} {d} first second) h = Run-times n second (ends c d first)

  pub Run-up_to : (n : ℕ) {c d : Cursor} → Run (up_to n a) c d → EndsIn p c → EndsIn p d
  unfolding up_to
  Run-up_to zero nothing h = h
  Run-up_to (suc n) (left (both {c} {d} first second)) h = Run-up_to n second (ends c d first)
  Run-up_to (suc n) (right nothing) h = h
