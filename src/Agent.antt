-- ===== src/Agent.antt =====
-- cmd/agent/agent.go, the agent: from the lines of a poll to batches on disk and committed offsets.
-- It is over any parser, such as `parse_line`. What happens outside at one line (the clock, the draw,
-- how the batch is written if it is, whether the offsets are saved) is a `Tick`, and a poll has one
-- for each line.
pub mod Loops
pub mod Accounts
pub mod Persists
pub mod Persisted
pub mod Polls
pub mod Flushes
pub mod Main
pub mod Ends
pub mod Runs
mod Tests
use centi_log.Base.{
  ℕ, Bool, List, [], ◌∷◌, Option, Result, ok, err, none, some, ◌++◌, ◌+◌, if◌then◌else◌, length,
  ltb, ◌==◌,
}
use centi_log.Buffer.{BatchStore, Disk, Write, pending_count, write_batch}
use centi_log.Config.{Config}
use centi_log.Dict.{Dict, insert}
use centi_log.Processor.{
  kept, filtered_by_level, filtered_by_sampling, Moment, process_detailed, Verdict,
}
use centi_log.Schema.{Log}
use centi_log.Stacks.{StackAssembler, add, flush, flush_idle, new_stacks}
use centi_log.Tailer.{FileLine, FileConfig, Opened, Tailer, commit_offsets, read_new_lines}
use centi_log.Text.{Text, Unicode}

-- `Agent`. `pending_batch` is the name of a batch that is written and whose offsets are not
-- committed, and empty where there is none.
pub record Agent : Type 0 where
  pub config : Config
  pub tailer : Tailer
  pub stacks : StackAssembler
  pub store : BatchStore
  pub batch : List Log
  pub batch_offsets : Dict ℕ
  pub pending_batch : Text
  pub level_count : ℕ
  pub sampling_count : ℕ

-- `NewAgent`, on what `NewTailer` and `NewBatchStore` return.
unfoldable pub new_agent : Config → Result Tailer → Result BatchStore → Result Agent
new_agent config (err message) store = err message
new_agent config (ok tailer) (err message) = err message
new_agent config (ok tailer) (ok store) = ok (record {
  config = config;
  tailer = tailer;
  stacks = new_stacks;
  store = store;
  batch = [];
  batch_offsets = [];
  pending_batch = [];
  level_count = 0;
  sampling_count = 0;
})

-- What happens outside while one line is processed.
pub record Tick : Type 0 where
  pub clock : ℕ
  pub draw : ℕ
  pub write : Write
  pub disk : Disk
  pub saved : Bool

-- The errors that reach the caller: of the store, of the offsets, and of the watched files.
pub data Failure : Type 0 where
  not_written : Text → Failure
  not_committed : Failure
  not_read : Text → Failure

-- `commitOffsets`
unfoldable pub commit_batch_offsets : Agent → Bool → Agent × Option Failure
commit_batch_offsets a saved = elim a.batch_offsets [
  | [] ↦ (a, none)
  | e ∷ rest ↦ elim (commit_offsets a.tailer a.batch_offsets saved) [
    | none ↦ (a, some not_committed)
    | some t ↦ (record a { tailer = t; batch_offsets = [] }, none)
  ]
]

-- The end of `flushBatch`, once the batch is written.
unfoldable pub finish_batch : Agent → Bool → Agent × List Log × Option Failure
finish_batch a saved =
    let (a', failure) = commit_batch_offsets a saved in
    elim failure [
      | some e ↦ (a', [], some e)
      | none ↦ (record a' { batch = []; pending_batch = [] }, a'.batch, none)
    ]

-- `if agent.pendingBatch == "" { … }`
unfoldable pub ensure_written : Agent → Write → Disk → Agent × Option Failure
ensure_written a write disk = elim a.pending_batch [
  | b ∷ rest ↦ (a, none)
  | [] ↦
      let (s, result) = write_batch a.store a.batch write disk in
      elim result [
        | err message ↦ (record a { store = s }, some (not_written message))
        | ok name ↦ (record a { store = s; pending_batch = name }, none)
      ]
]

-- `flushBatch`
unfoldable pub flush_batch : Agent → Tick → Agent × List Log × Option Failure
flush_batch a tick = elim a.batch [
  | [] ↦ let (a', failure) = commit_batch_offsets a tick.saved in (a', [], failure)
  | log ∷ logs ↦
      let (a', failure) = ensure_written a tick.write tick.disk in
      elim failure [ some e ↦ (a', [], some e) | none ↦ finish_batch a' tick.saved ]
]

-- `DrainFilterCounts`
unfoldable pub drain_filter_counts : Agent → Agent × ℕ × ℕ
drain_filter_counts a =
    (record a { level_count = 0; sampling_count = 0 }, a.level_count, a.sampling_count)

-- `PendingBatchCount`
unfoldable pub pending_batch_count : Agent → Disk → Result ℕ
pending_batch_count a disk = pending_count a.store disk

-- What a poll has done so far: the agent, how many lines it processed, the records that are
-- persisted, and the first error.
pub record Progress : Type 0 where
  pub agent : Agent
  pub ticks : ℕ
  pub logs : List Log
  pub first_err : Option Failure

-- `if err != nil && pollErr == nil { pollErr = err }`
abbrev pub first_of : Option Failure → Option Failure → Option Failure
first_of none later = later
first_of (some e) later = some e

-- `processLine`, from the verdict on.
unfoldable pub receive : Agent → FileLine → Tick → Verdict → Agent × List Log × Option Failure
receive a line tick filtered_by_level = (
  record a {
    batch_offsets = insert line.file.path line.end_offset a.batch_offsets;
    level_count = a.level_count + 1;
  },
  [],
  none,
)
receive a line tick filtered_by_sampling = (
  record a {
    batch_offsets = insert line.file.path line.end_offset a.batch_offsets;
    sampling_count = a.sampling_count + 1;
  },
  [],
  none,
)
receive a line tick (kept log) =
    let a' : Agent = record a {
      batch_offsets = insert line.file.path line.end_offset a.batch_offsets;
      batch = a.batch ++ log ∷ [];
    } in
    if ltb (length a'.batch) a.config.batch_size then (a', [], none) else flush_batch a' tick

abbrev pub moment_of : ℕ → Tick → Moment
moment_of now tick = record { now = now; clock = tick.clock; draw = tick.draw }

module _ (u : Unicode) (parse : FileLine → ℕ → Log) where
  -- `processLine`
  unfoldable pub process_line : Agent → FileLine → ℕ → Tick → Agent × List Log × Option Failure
  process_line a line now tick =
      receive a line tick (process_detailed u a.config (moment_of now tick) (parse line now))
