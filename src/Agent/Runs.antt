-- ===== src/Agent/Runs.antt =====
-- What a whole run of the agent's program reports.
use centi_log.Base.{ℕ, List, [], ◌∷◌, ◌+◌}
use centi_log.Agent.{Agent}
use centi_log.Agent.Ends.{lines_at_end}
use centi_log.Agent.Loops.{poll}
use centi_log.Agent.Main.{Report, Visit, process_available}
use centi_log.Agent.Persists.{Persists}
use centi_log.Schema.{Log}
use centi_log.Tailer.{FileLine}
use centi_log.Text.{Unicode}

-- The records that were logged as buffered.
abbrev pub total_buffered : List Report → ℕ
total_buffered [] = 0
total_buffered (report ∷ reports) = report.buffered + total_buffered reports

-- The lines that were logged as filtered, by their level or by sampling.
abbrev pub total_filtered : List Report → ℕ
total_filtered [] = 0
total_filtered (report ∷ reports) = report.level + report.sampling + total_filtered reports

module _ (u : Unicode) (parse : FileLine → ℕ → Log) where
  -- The lines that a turn, and a run, process.
  abbrev pub lines_of_turn : Agent → Visit → ℕ
  lines_of_turn a visit = (poll u parse visit.now visit.world a visit.opened).ticks

  unfoldable pub lines_of_run : List Visit → Visit → Agent → ℕ
  lines_of_run [] end a = lines_at_end u parse end.now end.world a
  lines_of_run (visit ∷ visits) end a =
      lines_of_turn a visit + lines_of_run visits end (process_available u parse a visit).0
