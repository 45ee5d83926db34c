-- ===== src/Sender/Tests.antt =====
-- Delays at concrete numbers.
use centi_log.Base.{
  ℕ, [], ◌∷◌, none, ◌≡◌, arith, Option, min, true, ◌*◌, ◌^◌, refl, some, if◌then◌else◌, ltb, ◌/◌,
}
use centi_log.Buffer.{
  Disk, Batch, name_lt, pending_of, put_in_order, total_size, claim_first, claim_oldest,
  enforce_limit, evict, pending_batches, rename, trim_suffix, unclaim,
}
use centi_log.Buffer.Pending.{pending_total}
use centi_log.Dict.{erase, lookup, insert}
use centi_log.Schema.{max_duration}
use centi_log.Sender.{
  answered, no_response, Round, Sender, maximum_retry_delay, second, run, run_round, give_back,
  run_claimed, run_rounds, send_batch, settle, parse_retry_after,
}
use centi_log.Sender.Delays.{run-backoff, parse_retry_after-format_uint}
use centi_log.Sender.Deliveries.{Delivered, run_round-Delivered}
use centi_log.Text.{Text, codes, has_prefix, has_suffix, text_eq}
use centi_log.Text.Decimal.{format_uint}

abbrev no_time : Text → Option ℕ
no_time value = none

abbrev working : Disk
working = record { lists = true; removes = λ name. true; renames = λ name. true }

abbrev empty_sender : Sender
empty_sender = record {
  store = record { files = []; failed = []; max_bytes = 1_000_000 };
  last_clock_warning = 0;
}

abbrev refused : Round
refused = record {
  claiming = working;
  exchange = no_response;
  now = 5;
  settling = working;
  unclaiming = working;
}

abbrev batch_of : ℕ → Batch
batch_of size = record { logs = []; size = size }

abbrev loaded_sender : Sender
loaded_sender = record {
  store = record {
    files = (codes "b.json.gz", batch_of 30) ∷ (codes "a.json.gz", batch_of 20) ∷ [];
    failed = [];
    max_bytes = 60;
  };
  last_clock_warning = 0;
}

abbrev answer : ℕ → Round
answer status = record refused { exchange = answered status [] [] }

sending : Unit {0}
unfolding codes text_eq lookup erase has_suffix has_prefix pending_of put_in_order name_lt
    pending_total total_size
sending = tt

run_round-Delivered_example :
    Delivered loaded_sender.store
      (run_round no_time loaded_sender second (answer 413)).sender.store
      (answered 413 [] [])
      (codes "a.json.gz")
      (batch_of 20)
      (codes "a.json.gz")
unfolding sending
run_round-Delivered_example =
    run_round-Delivered no_time loaded_sender second (answer 413) (codes "a.json.gz") (batch_of 20)
      ((codes "b.json.gz", batch_of 30) ∷ []) (codes "a.json.gz") refl (λ name. refl) refl refl refl
      refl (refl, (refl, tt)) refl (omega arith)

-- The second of two failures, on the same batch.
run-backoff_example :
    let out = run no_time (refused ∷ []) loaded_sender in
    (run_round no_time out.0 out.1 refused).waited ≡ some (min (2 ^ 1 * second) maximum_retry_delay)
unfolding sending claim_oldest pending_batches claim_first run run_rounds run_round run_claimed
    settle send_batch give_back unclaim rename insert enforce_limit evict trim_suffix
run-backoff_example =
    run-backoff no_time (refused ∷ []) loaded_sender refused (((_, _, refl), refl), tt)
      ((_, _, refl), refl)

parse_retry_after-format_uint_example :
    parse_retry_after no_time (format_uint 60) 7
    ≡ some (if ltb (max_duration / second) 60 then max_duration else 60 * second)
parse_retry_after-format_uint_example = parse_retry_after-format_uint no_time 60 7 (omega arith)
