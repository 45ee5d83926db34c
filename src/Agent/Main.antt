-- ===== src/Agent/Main.antt =====
-- cmd/agent/main.go: the loop of the agent's program around its polls, and its last flush. `Visit` is
-- what happens outside during one turn of the loop; the turns are those of the ticker.
use centi_log.Base.{ℕ, List, [], ◌∷◌, ◌++◌, ◌+◌, length}
use centi_log.Agent.{Agent, Tick, flush_batch, drain_filter_counts}
use centi_log.Agent.Loops.{poll, flush_agent}
use centi_log.Schema.{Log}
use centi_log.Tailer.{FileLine, Opened}
use centi_log.Text.{Text, Unicode}

pub record Visit : Type 0 where
  pub now : ℕ
  pub world : ℕ → Tick
  pub opened : Text → Opened
  pub last : Tick

-- What `logBuffered` and `logFilterCounts` say of a turn.
pub record Report : Type 0 where
  pub buffered : ℕ
  pub level : ℕ
  pub sampling : ℕ

module _ (u : Unicode) (parse : FileLine → ℕ → Log) where
  -- `processAvailable`: the agent, the records that are persisted, and what is logged.
  unfoldable pub process_available : Agent → Visit → Agent × List Log × Report
  process_available a visit =
      let p = poll u parse visit.now visit.world a visit.opened in
      let (flushed, buffered, failure) = flush_batch p.agent visit.last in
      let (drained, level, sampling) = drain_filter_counts flushed in
      (
        drained,
        p.logs ++ buffered,
        record { buffered = length p.logs + length buffered; level = level; sampling = sampling },
      )

  -- The end of `runAgent`, when the context is done.
  unfoldable pub shut_down : Agent → Visit → Agent × List Log × Report
  shut_down a visit =
      let p = flush_agent u parse visit.now visit.world a in
      let (drained, level, sampling) = drain_filter_counts p.agent in
      (drained, p.logs, record { buffered = length p.logs; level = level; sampling = sampling })

  -- The turns of `runAgent`, the one before its loop too, and its end.
  unfoldable pub run_agent : List Visit → Visit → Agent → Agent × List Log × List Report
  run_agent [] end a = let (b, logs, report) = shut_down a end in (b, logs, report ∷ [])
  run_agent (visit ∷ visits) end a =
      let (b, logs, report) = process_available a visit in
      let (c, later, reports) = run_agent visits end b in (c, logs ++ later, report ∷ reports)
