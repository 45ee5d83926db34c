-- ===== src/Agent/Loops.antt =====
-- cmd/agent/agent.go, the loops of `Poll` and `Flush`. `world` has a tick for each line of a poll.
use centi_log.Base.{ℕ, [], ◌∷◌, none, some, List, Option, if◌then◌else◌, ◌++◌, ◌+◌, ◌==◌}
use centi_log.Agent.{
  not_read, Agent, Progress, Tick, commit_batch_offsets, first_of, flush_batch, process_line,
}
use centi_log.Dict.{insert}
use centi_log.Schema.{Log}
use centi_log.Stacks.{add, flush, flush_idle}
use centi_log.Tailer.{FileConfig, FileLine, Opened, read_new_lines}
use centi_log.Text.{Text, Unicode}

module _ (u : Unicode) (parse : FileLine → ℕ → Log) (now : ℕ) (world : ℕ → Tick) where
  -- One call of `processLine` in `Poll`, and what the caller does with its results.
  unfoldable pub poll_line : FileLine → Progress → Progress
  poll_line line p =
      let (a, persisted, failure) = process_line u parse p.agent line now (world p.ticks) in
      record {
        agent = a;
        ticks = p.ticks + 1;
        logs = p.logs ++ persisted;
        first_err = first_of p.first_err failure;
      }

  unfoldable pub poll_all : List FileLine → Progress → Progress
  poll_all [] p = p
  poll_all (line ∷ lines) p = poll_all lines (poll_line line p)

  -- `processLine` of a line that was held back, if there was one.
  unfoldable pub poll_pending : Option FileLine → Progress → Progress
  poll_pending none p = p
  poll_pending (some line) p = poll_line line p

  -- The loop over the files that were reset.
  unfoldable pub poll_resets : List Text → Progress → Progress
  poll_resets [] p = p
  poll_resets (path ∷ paths) p =
      let (stacks, pending) = flush p.agent.stacks path in
      let a : Agent = record p.agent {
        stacks = stacks;
        batch_offsets = insert path 0 p.agent.batch_offsets;
      } in
      let rewound : Option FileLine = elim pending [
        | none ↦ none
        | some line ↦ some (record line { end_offset = 0 })
      ] in
      poll_resets paths (poll_pending rewound (record p { agent = a }))

  -- The loop over the new lines.
  unfoldable pub poll_lines : List FileLine → Progress → Progress
  poll_lines [] p = p
  poll_lines (line ∷ lines) p =
      let (stacks, completed) = add p.agent.stacks line now in
      let a : Agent = record p.agent { stacks = stacks } in
      poll_lines lines (poll_all completed (record p { agent = a }))

  -- The loop that flushes what has been idle.
  unfoldable pub poll_idle : ℕ → List FileConfig → Progress → Progress
  poll_idle idle_for [] p = p
  poll_idle idle_for (file ∷ files) p =
      let (stacks, pending) = flush_idle p.agent.stacks file.path now idle_for in
      let a : Agent = record p.agent { stacks = stacks } in
      poll_idle idle_for files (poll_pending pending (record p { agent = a }))

  -- `if len(agent.batch) == 0 { … }` at the end of `Poll`.
  unfoldable pub poll_commit : Progress → Progress
  poll_commit p = elim p.agent.batch [
    | log ∷ logs ↦ p
    | [] ↦
        let (a, failure) = commit_batch_offsets p.agent (world p.ticks).saved in
        record p { agent = a; first_err = first_of p.first_err failure }
  ]

  -- `Poll`, where `opened` says what the watched files hold.
  unfoldable pub poll : Agent → (Text → Opened) → Progress
  poll a opened =
      let (tailer, lines, resets, failure) = read_new_lines a.tailer opened in
      let start : Progress = record {
        agent = record a { tailer = tailer };
        ticks = 0;
        logs = [];
        first_err = elim failure [ none ↦ none | some message ↦ some (not_read message) ];
      } in
      let idle_for =
        if a.config.flush_interval == 0 then 5_000_000_000 else a.config.flush_interval in
      poll_commit (poll_idle idle_for a.config.files (poll_lines lines (poll_resets resets start)))

  -- The loop of `Flush`, which stops at the first error.
  unfoldable pub flush_files : List FileConfig → Progress → Progress
  flush_files [] p = p
  flush_files (file ∷ files) p =
      let (stacks, pending) = flush p.agent.stacks file.path in
      let a : Agent = record p.agent { stacks = stacks } in
      let p' = poll_pending pending (record p { agent = a }) in
      let later = flush_files files p' in elim p'.first_err [ some e ↦ p' | none ↦ later ]

  -- `Flush`
  unfoldable pub flush_agent : Agent → Progress
  flush_agent a =
      let p =
        flush_files a.config.files (record { agent = a; ticks = 0; logs = []; first_err = none }) in
      elim p.first_err [
        | some e ↦ p
        | none ↦
            let (a', persisted, failure) = flush_batch p.agent (world p.ticks) in
            record {
              agent = a';
              ticks = p.ticks + 1;
              logs = p.logs ++ persisted;
              first_err = failure;
            }
      ]
