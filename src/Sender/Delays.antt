-- ===== src/Sender/Delays.antt =====
-- The delays of the sender: the backoff, and the header `Retry-After`.
use centi_log.Base.{
  Bool, true, not, ◌==◌, ◌||◌, length, err, ok, [], ◌∷◌, ℕ, ◌≡◌, ◌≤◌, suc, zero, List, Option,
  arith, if◌then◌else◌, ltb, min, some, ◌*◌, ◌/◌, ◌<◌, ◌^◌, Result, ap, refl, sym, ◌+◌, ◌∙◌,
}
use centi_log.Buffer.{claim_oldest}
use centi_log.Buffer.Claims.{claim}
use centi_log.Schema.{max_duration}
use centi_log.Sender.{
  answered, no_response, open_failed, request_failed, send_retry, Exchange, disposition_of, Round,
  SendResult, Sender, initial_retry_delay, maximum_retry_delay, next_retry_delay, parse_retry_after,
  parse_seconds, run, run_round, run_rounds, second, settle, run_claimed, send_batch,
}
use centi_log.Text.{Text}
use centi_log.Text.Decimal.{
  format_uint, format_uint-IsDigitByte, format_uint-shape, parse_uint, parse_uint-format_uint,
}
use centi_log.Text.Trimmed.{trim_space-digits}

-- The delay after as many failures in a row.
unfoldable backoff : ℕ → ℕ
backoff zero = initial_retry_delay
backoff (suc n) = next_retry_delay (backoff n)

backoff-min : (n : ℕ) → backoff n ≡ min (2 ^ n * second) maximum_retry_delay
unfolding backoff next_retry_delay
backoff-min zero = omega arith
backoff-min (suc n) = ground (arith, backoff-min n)

abbrev pub IsInRange : ℕ → Type 0
IsInRange delay = (initial_retry_delay ≤ delay) × (delay ≤ maximum_retry_delay)

settle-IsInRange :
    (s : Sender) (delay : ℕ) (claimed : Text) (round : Round) (result : SendResult)
    → IsInRange delay
    → IsInRange (settle s delay claimed round result).delay
unfolding settle next_retry_delay
settle-IsInRange s delay claimed round result h = ground arith

parse_seconds-digit :
    (d : ℕ) (s : Text) (n : ℕ)
    → d < 10
    → n < 2 ^ 63
    → parse_uint ((b'0' + d) ∷ s) ≡ some n
    → parse_seconds ((b'0' + d) ∷ s) ≡ some n
unfolding parse_seconds
parse_seconds-digit d s n small less h = ground arith

parse_seconds-format_uint : (n : ℕ) → n < 2 ^ 63 → parse_seconds (format_uint n) ≡ some n
parse_seconds-format_uint n h =
    let (d, s, small, shape) = format_uint-shape n in
    let read = ap parse_uint (sym shape) ∙ parse_uint-format_uint n in
    ap parse_seconds shape ∙ parse_seconds-digit d s n small h read

module _ (parse_time : Text → Option ℕ) where
  claimed-IsInRange :
      (s : Sender) (delay : ℕ) (round : Round) (claim : Result Text)
      → IsInRange delay
      → IsInRange (run_claimed parse_time s delay round claim).delay
  unfolding run_claimed
  claimed-IsInRange s delay round (err message) h = h
  claimed-IsInRange s delay round (ok []) h = h
  claimed-IsInRange s delay round (ok (b ∷ rest)) h =
      let (s', result) = send_batch parse_time s round.exchange round.now in
      settle-IsInRange s' delay (b ∷ rest) round result h

  round-IsInRange :
      (s : Sender) (delay : ℕ) (round : Round)
      → IsInRange delay
      → IsInRange (run_round parse_time s delay round).delay
  unfolding run_round
  round-IsInRange s delay round h =
      let (store, claim) = claim_oldest s.store round.claiming in
      claimed-IsInRange (record s { store = store }) delay round claim h

  run-IsInRange :
      (rounds : List Round) (s : Sender) (delay : ℕ)
      → IsInRange delay
      → IsInRange (run_rounds parse_time rounds s delay).1
  unfolding run_rounds
  run-IsInRange [] s delay h = h
  run-IsInRange (round ∷ rounds) s delay h =
      let turn = run_round parse_time s delay round in
      run-IsInRange rounds turn.sender turn.delay (round-IsInRange s delay round h)

  -- Whatever happens in a run, the delay for the next failure is between a second and a minute.
  pub run-delay : (rounds : List Round) (s : Sender) → IsInRange (run parse_time rounds s).1
  unfolding run
  run-delay rounds s = run-IsInRange rounds s initial_retry_delay (ground arith)

  -- A number of seconds in `Retry-After`, as the ingest server writes it, is the wait it asks for, or
  -- the longest duration where that would overflow.
  pub parse_retry_after-format_uint :
      (n now : ℕ)
      → n < 2 ^ 63
      → parse_retry_after parse_time (format_uint n) now
        ≡ some (if ltb (max_duration / second) n then max_duration else n * second)
  unfolding parse_retry_after
  parse_retry_after-format_uint n now h =
      let trimmed = trim_space-digits (format_uint n) (format_uint-IsDigitByte n) in
      rw (parse_retry_after, trimmed, parse_seconds-format_uint n h) refl

  -- The answer, if any, neither takes the batch, nor refuses it for good, nor asks for a wait.
  abbrev pub is_failure : Exchange → Bool
  is_failure (answered status date retry_after) =
      not (status == 202 || status == 400 || status == 413 || status == 429)
  is_failure open_failed = true
  is_failure request_failed = true
  is_failure no_response = true

  -- There is a batch to claim, and its delivery fails.
  abbrev pub Fails : Sender → Round → Type 0
  Fails s round =
      ((b : ℕ) × (rest : Text) × ((claim_oldest s.store round.claiming).1 ≡ ok (b ∷ rest)))
      × (is_failure round.exchange ≡ true)

  -- So it goes in each of the rounds, one after the other.
  abbrev pub AllFail : List Round → Sender → ℕ → Type 0
  AllFail [] s delay = Unit
  AllFail (round ∷ rounds) s delay =
      Fails s round
      × AllFail rounds (run_round parse_time s delay round).sender
          (run_round parse_time s delay round).delay

  send_batch-retry :
      (s : Sender) (e : Exchange) (now : ℕ)
      → is_failure e ≡ true
      → (send_batch parse_time s e now).1.disposition ≡ send_retry
  unfolding send_batch disposition_of
  send_batch-retry s open_failed now h = refl
  send_batch-retry s request_failed now h = refl
  send_batch-retry s no_response now h = refl
  send_batch-retry s (answered status date retry_after) now h = ground arith

  settle_retry :
      (s : Sender) (delay : ℕ) (claimed : Text) (round : Round) (result : SendResult)
      → result.disposition ≡ send_retry
      → let turn = settle s delay claimed round result in
        (turn.delay ≡ next_retry_delay delay) × (turn.waited ≡ some delay)
  unfolding settle
  settle_retry s delay claimed round result h = ground arith

  run_claimed_retry :
      (s : Sender) (delay : ℕ) (round : Round) (claim : Result Text) (b : ℕ) (rest : Text)
      → claim ≡ ok (b ∷ rest)
      → is_failure round.exchange ≡ true
      → let turn = run_claimed parse_time s delay round claim in
        (turn.delay ≡ next_retry_delay delay) × (turn.waited ≡ some delay)
  unfolding run_claimed
  run_claimed_retry s delay round (err message) b rest there h = absurd (ground arith)
  run_claimed_retry s delay round (ok []) b rest there h = absurd (ground arith)
  run_claimed_retry s delay round (ok (c ∷ more)) b rest there h =
      let sent = send_batch parse_time s round.exchange round.now in
      settle_retry sent.0 delay (c ∷ more) round sent.1
        (send_batch-retry s round.exchange round.now h)

  run_round_retry :
      (s : Sender) (delay : ℕ) (round : Round)
      → Fails s round
      → let turn = run_round parse_time s delay round in
        (turn.delay ≡ next_retry_delay delay) × (turn.waited ≡ some delay)
  unfolding run_round
  run_round_retry s delay round ((b, rest, there), h) =
      let (store, claim) = claim_oldest s.store round.claiming in
      run_claimed_retry (record s { store = store }) delay round claim b rest there h

  run_rounds-backoff :
      (rounds : List Round) (s : Sender) (n delay : ℕ)
      → delay ≡ backoff n
      → AllFail rounds s delay
      → (run_rounds parse_time rounds s delay).1 ≡ backoff (n + length rounds)
  unfolding run_rounds backoff
  run_rounds-backoff [] s n delay at h =
      let same : n + 0 ≡ n = omega arith in at ∙ ap backoff (sym same)
  run_rounds-backoff (round ∷ rounds) s n delay at (fails, h) =
      let turn = run_round parse_time s delay round in
      let raised : turn.delay ≡ backoff (suc n) =
        (run_round_retry s delay round fails).0 ∙ ap next_retry_delay at in
      let same : suc n + length rounds ≡ n + suc (length rounds) = omega arith in
      run_rounds-backoff rounds turn.sender (suc n) turn.delay raised h ∙ ap backoff same

  -- Where the sender, since it started, has claimed a batch in each of any number of rounds, and each
  -- time had no answer or one with a status other than 202, 400, 413 and 429, a further such round is
  -- followed by a wait of one second doubled as often as there were rounds before, up to one minute.
  pub run-backoff :
      (rounds : List Round) (s : Sender) (next : Round)
      → AllFail rounds s initial_retry_delay
      → Fails (run parse_time rounds s).0 next
      → let (sender, delay) = run parse_time rounds s in
        (run_round parse_time sender delay next).waited
        ≡ some (min (2 ^ length rounds * second) maximum_retry_delay)
  unfolding run backoff
  run-backoff rounds s next h fails =
      let (sender, delay) = run parse_time rounds s in
      let start : 0 + length rounds ≡ length rounds = omega arith in
      (run_round_retry sender delay next fails).1
      ∙ ap some (
          run_rounds-backoff rounds s 0 initial_retry_delay refl h
          ∙ ap backoff start
          ∙ backoff-min (length rounds))
