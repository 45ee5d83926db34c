-- ===== src/Agent/Polls.antt =====
-- The loops of `Poll`: each line is kept or counted by a filter, and what is reported has been written.
use mathlib.Core.List.{append_assoc, append-nil}
use mathlib.Core.Path.{subst}
use centi_log.Base.{
  ℕ, List, [], ◌∷◌, none, some, ◌++◌, ◌≡◌, inl, inr, All, Option, Bool-cases, ap, length, ltb, refl,
  sym, ◌∙◌, arith, if◌then◌else◌, ◌==◌, ◌+◌,
}
use centi_log.Agent.{Agent, Tick, Progress, Failure, not_read, process_line, moment_of, receive}
use centi_log.Agent.Accounts.{
  Grows, IsKept, flush_batch-batch, filtered_count, flush-count, commit-count, accounted,
  flush-config, Grows-refl, Grows-trans, commit-batch, commit-config, filled,
}
use centi_log.Agent.Loops.{
  poll, poll_all, poll_commit, poll_idle, poll_line, poll_lines, poll_pending, poll_resets,
}
use centi_log.Agent.Persisted.{commit-batching, flush_batch-Flushes}
use centi_log.Agent.Persists.{Persists, at_rest, batching, came_in}
use centi_log.Config.{Config}
use centi_log.Dict.{insert, Dict}
use centi_log.Processor.{
  kept, filtered_by_level, filtered_by_sampling, Verdict, Moment, process_detailed,
}
use centi_log.Schema.{Log}
use centi_log.Stacks.{StackAssembler, add, flush, flush_idle}
use centi_log.Tailer.{FileLine, FileConfig, Opened, read_new_lines}
use centi_log.Text.{Unicode, Text}

-- One line: what it reports and the batch, which agree with the old batch and what was kept, by the
-- steps of `Persists`; and it was kept, or counted by a filter.
record Accounts (u : Unicode) (parse : FileLine → ℕ → Log) (a : Agent)
    (r : Agent × List Log × Option Failure) : Type 0 where
  more : List Log
  same_config : r.0.config ≡ a.config
  extends : r.1 ++ r.0.batch ≡ a.batch ++ more
  all_kept : All (IsKept u parse a.config) more
  steps : Persists (IsKept u parse a.config) (batching a) r.1 more (batching r.0)
  counted : 1 + filtered_count a ≡ length more + filtered_count r.0

receive-Accounts :
    (u : Unicode) (parse : FileLine → ℕ → Log) (a : Agent) (line : FileLine) (tick : Tick)
    (m : Moment) (v : Verdict)
    → process_detailed u a.config m (parse line m.now) ≡ v
    → Accounts u parse a (receive a line tick v)
unfolding receive
receive-Accounts u parse a line tick m filtered_by_level h = record {
  more = [];
  same_config = refl;
  extends = sym (append-nil a.batch);
  all_kept = tt;
  steps = at_rest (batching a);
  counted = omega arith;
}
receive-Accounts u parse a line tick m filtered_by_sampling h = record {
  more = [];
  same_config = refl;
  extends = sym (append-nil a.batch);
  all_kept = tt;
  steps = at_rest (batching a);
  counted = omega arith;
}
receive-Accounts u parse a line tick m (kept log) h =
    elim (Bool-cases (ltb (length (a.batch ++ log ∷ [])) a.config.batch_size)) [
      | inl short ↦ rw short (record {
        more = log ∷ [];
        same_config = refl;
        extends = refl;
        all_kept = ((m, line, h), tt);
        steps = came_in log (m, line, h) (at_rest (batching (filled a line log)));
        counted = refl;
      })
      | inr full ↦ rw full (record {
        more = log ∷ [];
        same_config = flush-config (filled a line log) tick;
        extends = flush_batch-batch (filled a line log) tick;
        all_kept = ((m, line, h), tt);
        steps =
            came_in log (m, line, h)
              (flush_batch-Flushes (IsKept u parse a.config) (filled a line log) tick);
        counted = omega (arith, flush-count (filled a line log) tick);
      })
    ]

abbrev pub with_stacks : Progress → StackAssembler → Dict ℕ → Progress
with_stacks p stacks offsets = record p {
  agent = record p.agent { stacks = stacks; batch_offsets = offsets };
}

abbrev rewound : Option FileLine → Option FileLine
rewound none = none
rewound (some line) = some (record line { end_offset = 0 })

module _ (u : Unicode) (parse : FileLine → ℕ → Log) (now : ℕ) (world : ℕ → Tick)
    (config : Config) where
  abbrev pub Follows : Progress → Progress → Type 0
  Follows = Grows u parse config

  abbrev Has : Progress → Type 0
  Has p = p.agent.config ≡ config

  poll_line-Follows :
      (line : FileLine) (p : Progress) → Has p → Follows p (poll_line u parse now world line p)
  unfolding poll_line process_line
  poll_line-Follows line p same =
      let tick = world p.ticks in
      let m = moment_of now tick in
      let one =
        receive-Accounts u parse p.agent line tick m
          (process_detailed u p.agent.config m (parse line now)) refl in
      let r = process_line u parse p.agent line now tick in
      record {
        more = one.more;
        same_config = one.same_config;
        extends =
            append_assoc p.logs r.1 r.0.batch
            ∙ ap (λ l. p.logs ++ l) one.extends
            ∙ sym (append_assoc p.logs p.agent.batch one.more);
        all_kept = subst (λ c. All (IsKept u parse c) one.more) same one.all_kept;
        emitted = r.1;
        emits = refl;
        steps =
            subst (λ c. Persists (IsKept u parse c) (batching p.agent) r.1 one.more (batching r.0))
              same one.steps;
        counted = omega (arith, one.counted);
      }

  -- A step, and what follows it.
  pub then_Follows : (p q r : Progress) → Has p → Follows p q → (Has q → Follows q r) → Follows p r
  then_Follows p q r same first later =
      Grows-trans u parse config p q r first (later (first.same_config ∙ same))

  poll_all-Follows :
      (lines : List FileLine) (p : Progress)
      → Has p
      → Follows p (poll_all u parse now world lines p)
  unfolding poll_all
  poll_all-Follows [] p same = Grows-refl u parse config p
  poll_all-Follows (line ∷ lines) p same =
      let q = poll_line u parse now world line p in
      then_Follows p q (poll_all u parse now world lines q) same (poll_line-Follows line p same)
        (poll_all-Follows lines q)

  pub with_stacks-Follows :
      (p : Progress) (stacks : StackAssembler) (offsets : Dict ℕ)
      → Follows p (with_stacks p stacks offsets)
  with_stacks-Follows p stacks offsets = record {
    more = [];
    same_config = refl;
    extends = sym (append-nil (accounted u parse config p));
    all_kept = tt;
    emitted = [];
    emits = sym (append-nil p.logs);
    steps = at_rest (batching p.agent);
    counted = omega arith;
  }

  pub poll_pending-Follows :
      (pending : Option FileLine) (p : Progress)
      → Has p
      → Follows p (poll_pending u parse now world pending p)
  unfolding poll_pending
  poll_pending-Follows none p same = Grows-refl u parse config p
  poll_pending-Follows (some line) p same = poll_line-Follows line p same

  poll_lines-Follows :
      (lines : List FileLine) (p : Progress)
      → Has p
      → Follows p (poll_lines u parse now world lines p)
  unfolding poll_lines
  poll_lines-Follows [] p same = Grows-refl u parse config p
  poll_lines-Follows (line ∷ lines) p same =
      let (stacks, completed) = add p.agent.stacks line now in
      let q = with_stacks p stacks p.agent.batch_offsets in
      let r = poll_all u parse now world completed q in
      then_Follows p r (poll_lines u parse now world lines r) same
        (then_Follows p q r same (with_stacks-Follows p stacks p.agent.batch_offsets)
          (poll_all-Follows completed q))
        (poll_lines-Follows lines r)

  poll_resets-Follows :
      (paths : List Text) (p : Progress) → Has p → Follows p (poll_resets u parse now world paths p)
  unfolding poll_resets
  poll_resets-Follows [] p same = Grows-refl u parse config p
  poll_resets-Follows (path ∷ paths) p same =
      let (stacks, pending) = flush p.agent.stacks path in
      let q = with_stacks p stacks (insert path 0 p.agent.batch_offsets) in
      let r = poll_pending u parse now world (rewound pending) q in
      then_Follows p r (poll_resets u parse now world paths r) same
        (then_Follows p q r same
          (with_stacks-Follows p stacks (insert path 0 p.agent.batch_offsets))
          (poll_pending-Follows (rewound pending) q))
        (poll_resets-Follows paths r)

  poll_idle-Follows :
      (idle_for : ℕ) (files : List FileConfig) (p : Progress)
      → Has p
      → Follows p (poll_idle u parse now world idle_for files p)
  unfolding poll_idle
  poll_idle-Follows idle_for [] p same = Grows-refl u parse config p
  poll_idle-Follows idle_for (file ∷ files) p same =
      let (stacks, pending) = flush_idle p.agent.stacks file.path now idle_for in
      let q = with_stacks p stacks p.agent.batch_offsets in
      let r = poll_pending u parse now world pending q in
      then_Follows p r (poll_idle u parse now world idle_for files r) same
        (then_Follows p q r same (with_stacks-Follows p stacks p.agent.batch_offsets)
          (poll_pending-Follows pending q))
        (poll_idle-Follows idle_for files r)

  poll_commit-fields :
      (p : Progress)
      → let q = poll_commit u parse now world p in
        (q.agent.config ≡ p.agent.config) × (q.logs ++ q.agent.batch ≡ p.logs ++ p.agent.batch)
  unfolding poll_commit
  poll_commit-fields p =
      let saved = (world p.ticks).saved in
      ground (arith, commit-batch p.agent saved, commit-config p.agent saved)

  poll_commit-rest :
      (p : Progress)
      → let q = poll_commit u parse now world p in
        (q.logs ≡ p.logs)
        × (q.ticks ≡ p.ticks)
        × (filtered_count q.agent ≡ filtered_count p.agent)
        × (batching q.agent ≡ batching p.agent)
  unfolding poll_commit
  poll_commit-rest p =
      let saved = (world p.ticks).saved in
      ground (arith, commit-count p.agent saved, commit-batching p.agent saved)

  poll_commit-Follows : (p : Progress) → Follows p (poll_commit u parse now world p)
  poll_commit-Follows p =
      let (config_kept, logs_kept) = poll_commit-fields p in
      let (same_logs, same_ticks, same_count, same_batching) = poll_commit-rest p in
      record {
        more = [];
        same_config = config_kept;
        extends = logs_kept ∙ sym (append-nil (accounted u parse config p));
        all_kept = tt;
        emitted = [];
        emits = same_logs ∙ sym (append-nil p.logs);
        steps =
            subst (λ w. Persists (IsKept u parse config) (batching p.agent) [] [] w)
              (sym same_batching) (at_rest (batching p.agent));
        counted = omega (arith, same_ticks, same_count);
      }

-- From one agent to another, over a number of lines of which some were reported as filtered: what is
-- reported as persisted and the batch that is left are the batch before, followed by records that the
-- processor kept, by the steps of `Persists`; and each line was kept, or counted by a filter.
pub record Ran (u : Unicode) (parse : FileLine → ℕ → Log) (before after : Agent) (logs : List Log)
    (lines filtered : ℕ) : Type 0 where
  pub more : List Log
  pub same_config : after.config ≡ before.config
  pub extends : logs ++ after.batch ≡ before.batch ++ more
  pub all_kept : All (IsKept u parse before.config) more
  pub steps : Persists (IsKept u parse before.config) (batching before) logs more (batching after)
  pub counted : lines + filtered_count before ≡ length more + filtered + filtered_count after

pub poll-Ran :
    (u : Unicode) (parse : FileLine → ℕ → Log) (now : ℕ) (world : ℕ → Tick) (a : Agent)
    (opened : Text → Opened)
    → let p = poll u parse now world a opened in Ran u parse a p.agent p.logs p.ticks 0
unfolding poll
poll-Ran u parse now world a opened =
    let (tailer, lines, resets, failure) = read_new_lines a.tailer opened in
    let c = a.config in
    let start : Progress = record {
      agent = record a { tailer = tailer };
      ticks = 0;
      logs = [];
      first_err = elim failure [ none ↦ none | some message ↦ some (not_read message) ];
    } in
    let idle_for = if c.flush_interval == 0 then 5_000_000_000 else c.flush_interval in
    let q = poll_resets u parse now world resets start in
    let r = poll_lines u parse now world lines q in
    let s = poll_idle u parse now world idle_for c.files r in
    let follows = then_Follows u parse now world c in
    let all =
      follows start s (poll_commit u parse now world s) refl
        (follows start r s refl
          (follows start q r refl (poll_resets-Follows u parse now world c resets start refl)
            (poll_lines-Follows u parse now world c lines q))
          (poll_idle-Follows u parse now world c idle_for c.files r))
        (λ same. poll_commit-Follows u parse now world c s) in
    record {
      more = all.more;
      same_config = all.same_config;
      extends = all.extends;
      all_kept = all.all_kept;
      steps =
          subst
            (λ l.
              Persists (IsKept u parse c) (batching a) l all.more
                (batching (poll_commit u parse now world s).agent))
            (sym all.emits) all.steps;
      counted = omega (arith, all.counted);
    }
