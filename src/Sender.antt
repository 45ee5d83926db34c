-- ===== src/Sender.antt =====
-- cmd/agent/sender.go, the sender: batches to the ingest server, one at a time, with a delay after a
-- failure. `http.ParseTime` is a parameter. What the network, the disk and the clock do at one round
-- is a `Round`; a run is as long as its rounds, which end when the context is cancelled.
pub mod Delays
pub mod Deliveries
mod Tests
use centi_log.Base.{
  ℕ, List, [], ◌∷◌, Option, none, some, ok, err, if◌then◌else◌, leb, ltb, min, not, ◌&&◌, ◌*◌, ◌-◌,
  ◌/◌, ◌==◌, ◌^◌, ◌||◌, Result,
}
use centi_log.Buffer.{BatchStore, Disk, claim_oldest, delete_claim, move_to_failed, unclaim}
use centi_log.Buffer.Claims.{claim}
use centi_log.Schema.{max_duration}
use centi_log.Text.{Text, trim_space}
use centi_log.Text.Decimal.{parse_uint}

abbrev pub second : ℕ
second = 1_000_000_000

abbrev pub initial_retry_delay : ℕ
initial_retry_delay = second

abbrev pub maximum_retry_delay : ℕ
maximum_retry_delay = 60 * second

abbrev pub sender_poll_delay : ℕ
sender_poll_delay = second

-- `sendDisposition`
pub data SendDisposition : Type 0 where
  send_succeeded send_retry send_rate_limited send_failed : SendDisposition

-- `sendResult`; `retry_after` is none where `hasRetry` is false.
pub record SendResult : Type 0 where
  pub disposition : SendDisposition
  pub retry_after : Option ℕ

-- `Sender`. `last_clock_warning` is zero before the first warning.
pub record Sender : Type 0 where
  pub store : BatchStore
  pub last_clock_warning : ℕ

-- How the request fares: it cannot be made or gets no answer, or the status of the answer with its
-- headers `Date` and `Retry-After`.
pub data Exchange : Type 0 where
  open_failed request_failed no_response : Exchange
  answered : ℕ → Text → Text → Exchange

-- `nextRetryDelay`
unfoldable pub next_retry_delay : ℕ → ℕ
next_retry_delay delay =
    if leb (maximum_retry_delay / 2) delay then maximum_retry_delay else delay * 2

-- `strconv.ParseInt(s, 10, 64)`, where it gives no error and no negative number.
unfoldable pub parse_seconds : Text → Option ℕ
parse_seconds [] = none
parse_seconds (b ∷ s) =
    let within : ℕ → Option ℕ = λ n. if ltb n (2 ^ 63) then some n else none in
    let zero_only : ℕ → Option ℕ = λ n. if n == 0 then some n else none in
    if b == b'+'
    then elim (parse_uint s) [ none ↦ none | some n ↦ within n ]
    else if b == b'-'
    then elim (parse_uint s) [ none ↦ none | some n ↦ zero_only n ]
    else elim (parse_uint (b ∷ s)) [ none ↦ none | some n ↦ within n ]

-- `difference` in `checkServerClock`: the distance, at most the longest duration. Where the server is
-- ahead by more than that, Go's negation overflows and leaves a negative number, which is below the
-- three seconds, as the zero here is.
unfoldable pub clock_difference : ℕ → ℕ → ℕ
clock_difference now server =
    if ltb server now
    then min (now - server) max_duration
    else if ltb max_duration (server - now)
    then 0
    else server - now

module _ (parse_time : Text → Option ℕ) where
  -- `parseRetryAfter`; the answer is none where the source's is false.
  unfoldable pub parse_retry_after : Text → ℕ → Option ℕ
  parse_retry_after value now = elim (parse_seconds (trim_space value)) [
    | some seconds ↦
        some (if ltb (max_duration / second) seconds then max_duration else seconds * second)
    | none ↦ elim (parse_time value) [
      | none ↦ none
      | some time ↦ some (min (time - now) max_duration)
    ]
  ]

  -- `checkServerClock`
  unfoldable pub check_server_clock : Sender → Text → ℕ → Sender
  check_server_clock s date now = elim date [
    | [] ↦ s
    | b ∷ rest ↦ elim (parse_time (b ∷ rest)) [
      | none ↦ s
      | some server ↦
          if leb (clock_difference now server) (3 * second)
            || (not (s.last_clock_warning == 0) && ltb (now - s.last_clock_warning) (60 * second))
          then s
          else record s { last_clock_warning = now }
    ]
  ]

  -- The `switch` on the status in `sendBatch`.
  unfoldable pub disposition_of : ℕ → Text → ℕ → SendResult
  disposition_of status retry_after now =
      if status == 202
      then record { disposition = send_succeeded; retry_after = none }
      else if status == 400 || status == 413
      then record { disposition = send_failed; retry_after = none }
      else if status == 429
      then record {
        disposition = send_rate_limited;
        retry_after = parse_retry_after retry_after now;
      }
      else record { disposition = send_retry; retry_after = none }

  -- `sendBatch`
  unfoldable pub send_batch : Sender → Exchange → ℕ → Sender × SendResult
  send_batch s open_failed now = (s, record { disposition = send_retry; retry_after = none })
  send_batch s request_failed now = (s, record { disposition = send_retry; retry_after = none })
  send_batch s no_response now = (s, record { disposition = send_retry; retry_after = none })
  send_batch s (answered status date retry_after) now =
      (check_server_clock s date now, disposition_of status retry_after now)

-- What happens outside in one round of `Run`: at the claim, at the request, and at what is done with
-- the batch afterwards.
pub record Round : Type 0 where
  pub claiming : Disk
  pub exchange : Exchange
  pub now : ℕ
  pub settling : Disk
  pub unclaiming : Disk

-- A round's end: the sender, the delay that the next failure takes, and the wait, if any.
pub record Turn : Type 0 where
  pub sender : Sender
  pub delay : ℕ
  pub waited : Option ℕ

-- `_ = sender.store.Unclaim(claimedPath)`
unfoldable pub give_back : Sender → Text → Disk → Sender
give_back s claimed disk = record s { store = (unclaim s.store claimed disk).0 }

-- The `switch` on the disposition in `Run`.
unfoldable pub settle : Sender → ℕ → Text → Round → SendResult → Turn
settle s delay claimed round result =
    let retried : Turn = record {
      sender = give_back s claimed round.unclaiming;
      delay = next_retry_delay delay;
      waited = some delay;
    } in
    elim result.disposition [
      | send_succeeded ↦
          let (store, done) = delete_claim s.store claimed round.settling in
          elim done [
            | ok unit ↦ record {
              sender = record s { store = store };
              delay = initial_retry_delay;
              waited = none;
            }
            | err message ↦ retried
          ]
      | send_failed ↦
          let (store, done) = move_to_failed s.store claimed round.settling in
          elim done [
            | ok unit ↦ record { sender = record s { store = store }; delay = delay; waited = none }
            | err message ↦ retried
          ]
      | send_rate_limited ↦ elim result.retry_after [
        | none ↦ retried
        | some wait ↦ record {
          sender = give_back s claimed round.unclaiming;
          delay = delay;
          waited = some wait;
        }
      ]
      | send_retry ↦ retried
    ]

module _ (parse_time : Text → Option ℕ) where
  -- One round of the loop of `Run`, from what `ClaimOldest` answers on.
  unfoldable pub run_claimed : Sender → ℕ → Round → Result Text → Turn
  run_claimed s delay round (err message) = record {
    sender = s;
    delay = delay;
    waited = some sender_poll_delay;
  }
  run_claimed s delay round (ok []) = record {
    sender = s;
    delay = delay;
    waited = some sender_poll_delay;
  }
  run_claimed s delay round (ok (b ∷ rest)) =
      let (s', result) = send_batch parse_time s round.exchange round.now in
      settle s' delay (b ∷ rest) round result

  -- One round of the loop of `Run`.
  unfoldable pub run_round : Sender → ℕ → Round → Turn
  run_round s delay round =
      let (store, claim) = claim_oldest s.store round.claiming in
      run_claimed (record s { store = store }) delay round claim

  -- The loop of `Run` from a delay on.
  unfoldable pub run_rounds : List Round → Sender → ℕ → Sender × ℕ
  run_rounds [] s delay = (s, delay)
  run_rounds (round ∷ rounds) s delay =
      let turn = run_round s delay round in run_rounds rounds turn.sender turn.delay

  -- `Run`
  unfoldable pub run : List Round → Sender → Sender × ℕ
  run rounds s = run_rounds rounds s initial_retry_delay
