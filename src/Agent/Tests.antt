-- ===== src/Agent/Tests.antt =====
-- The agent at concrete batches, and the theorems at them.
use centi_log.Base.{ℕ, [], ◌∷◌, ok, err, ◌≡◌, refl, Bool, List, false, true, ◌⊎◌, ◌++◌}
use centi_log.Agent.{Agent, Tick, commit_batch_offsets, flush_batch, receive}
use centi_log.Agent.Flushes.{
  Flushed, Uncommitted, Unwritten, flush_batch-outcomes, outcome, receive-lost,
}
use centi_log.Agent.Main.{Visit}
use centi_log.Buffer.{written, BatchStore, Disk, Write}
use centi_log.Config.{Config}
use centi_log.Dict.{erase, insert, lookup}
use centi_log.Processor.{kept}
use centi_log.Schema.{Log}
use centi_log.Stacks.{new_stacks}
use centi_log.Tailer.{readable, FileConfig, FileLine, commit_all, commit_offsets, commit_one}
use centi_log.Text.{Text, codes, text_eq}

abbrev watched : FileConfig
watched = record { path = codes "a.log"; format = codes "text"; time_zone = codes "Local" }

abbrev settings : Config
settings = record {
  host = codes "h1";
  env = codes "prod";
  max_buffer_size_mb = 1;
  batch_size = 2;
  flush_interval = 5;
  min_level = codes "info";
  sampling = [];
  files = watched ∷ [];
}

abbrev log_of : Text → Log
log_of message = record {
  timestamp = 3_000_000;
  service = codes "web";
  host = codes "h1";
  env = codes "prod";
  level = codes "info";
  message = message;
  trace_id = [];
  attributes = [];
  redacted = false;
  ingested_at = 3_000_000;
  retention_days = 30;
}

abbrev working : Disk
working = record { lists = true; removes = λ name. true; renames = λ name. true }

abbrev tick_of : Write → Bool → Tick
tick_of write saved = record {
  clock = 4_000_000;
  draw = 0;
  write = write;
  disk = working;
  saved = saved;
}

abbrev empty_store : BatchStore
empty_store = record { files = []; failed = []; max_bytes = 1_000_000 }

abbrev agent_of : List Log → Text → Agent
agent_of batch pending_batch = record {
  config = settings;
  tailer = record { files = watched ∷ []; offsets = []; read_offsets = (codes "a.log", 20) ∷ [] };
  stacks = new_stacks;
  store = empty_store;
  batch = batch;
  batch_offsets = (codes "a.log", 10) ∷ [];
  pending_batch = pending_batch;
  level_count = 0;
  sampling_count = 0;
}

abbrev line_of : Text → FileLine
line_of text = record { file = watched; text = text; end_offset = 15 }

committing : Unit {0}
unfolding commit_batch_offsets commit_offsets commit_all commit_one lookup insert erase text_eq
    codes
committing = tt

flush_batch-outcomes_example :
    let a = agent_of (log_of (codes "m") ∷ []) [] in
    let tick = tick_of (written (codes "b.json.gz") 9) true in
    let r = flush_batch a tick in
    ((message : Text) × ((outcome a tick).1 ≡ err message) × Unwritten a r message)
    ⊎ ((name : Text) × ((outcome a tick).1 ≡ ok name)
        × (r.0.store ≡ (outcome a tick).0)
        × (Uncommitted a tick.saved r name ⊎ Flushed a tick.saved r))
flush_batch-outcomes_example =
    flush_batch-outcomes (agent_of (log_of (codes "m") ∷ []) [])
      (tick_of (written (codes "b.json.gz") 9) true) (log_of (codes "m")) [] refl refl

-- The second record is on disk nowhere: its batch has room for a third, and the next flush reports both.
abbrev roomy : Agent
roomy = record (agent_of (log_of (codes "m") ∷ []) (codes "b.json.gz")) {
  config = record settings { batch_size = 3 };
}

receive-lost_example :
    let tick = tick_of (written (codes "c.json.gz") 9) true in
    let r = receive roomy (line_of (codes "n")) tick (kept (log_of (codes "n"))) in
    let q = flush_batch r.0 tick in
    (r.1 ++ q.1 ≡ log_of (codes "m") ∷ log_of (codes "n") ∷ [])
    × (q.0.batch ≡ [])
    × (q.0.store ≡ empty_store)
unfolding committing
receive-lost_example =
    let tick = tick_of (written (codes "c.json.gz") 9) true in
    receive-lost roomy (line_of (codes "n")) tick tick (log_of (codes "n")) b'b' (codes ".json.gz")
      refl refl refl

abbrev parse_plain : FileLine → ℕ → Log
parse_plain line now = log_of line.text

-- A turn whose file has one whole line, and the end of the run.
abbrev one_line : Visit
one_line = record {
  now = 4_000_000;
  world = λ n. tick_of (written (codes "b.json.gz") 9) true;
  opened = λ path. readable 12 (codes "web started\n") true;
  last = tick_of (written (codes "c.json.gz") 9) true;
}

abbrev log_line : FileLine → ℕ → Log
log_line line now = log_of line.text
