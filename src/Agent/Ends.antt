-- ===== src/Agent/Ends.antt =====
-- What a last flush of the agent reports.
use mathlib.Core.List.{append_assoc, append-nil}
use mathlib.Core.Path.{subst}
use centi_log.Base.{
  ℕ, List, [], ◌∷◌, ◌++◌, ◌≡◌, none, some, refl, sym, ap, ◌∙◌, inl, inr, arith, Option-cases,
}
use centi_log.Agent.{Agent, Tick, Progress, Failure, flush_batch}
use centi_log.Agent.Accounts.{
  filtered_count, flush-count, Grows-refl, flush-config, flush_batch-batch, IsKept,
}
use centi_log.Agent.Loops.{flush_files, poll_pending, flush_agent}
use centi_log.Agent.Persisted.{flush_batch-Flushes}
use centi_log.Agent.Persists.{Persists, Persists-trans, batching}
use centi_log.Agent.Polls.{
  Follows, poll_pending-Follows, then_Follows, with_stacks, with_stacks-Follows, Ran,
}
use centi_log.Config.{Config}
use centi_log.Schema.{Log}
use centi_log.Stacks.{flush}
use centi_log.Tailer.{FileLine, FileConfig}
use centi_log.Text.{Unicode}

module _ (u : Unicode) (parse : FileLine → ℕ → Log) (now : ℕ) (world : ℕ → Tick) where
  flush_files_stopped :
      (file : FileConfig) (files : List FileConfig) (p : Progress) (e : Failure)
      → let (stacks, pending) = flush p.agent.stacks file.path in
        let q =
          poll_pending u parse now world pending (with_stacks p stacks p.agent.batch_offsets) in
        q.first_err ≡ some e → flush_files u parse now world (file ∷ files) p ≡ q
  unfolding flush_files
  flush_files_stopped file files p e h = ground arith

  flush_files_on :
      (file : FileConfig) (files : List FileConfig) (p : Progress)
      → let (stacks, pending) = flush p.agent.stacks file.path in
        let q =
          poll_pending u parse now world pending (with_stacks p stacks p.agent.batch_offsets) in
        q.first_err ≡ none
        → flush_files u parse now world (file ∷ files) p ≡ flush_files u parse now world files q
  unfolding flush_files
  flush_files_on file files p h = ground arith

  module _ (config : Config) where
    flush_files-Follows :
        (files : List FileConfig) (p : Progress)
        → p.agent.config ≡ config
        → Follows u parse now world config p (flush_files u parse now world files p)
    flush_files-Follows [] p same = unfold flush_files in Grows-refl u parse config p
    flush_files-Follows (file ∷ files) p same =
        let stacks = (flush p.agent.stacks file.path).0 in
        let pending = (flush p.agent.stacks file.path).1 in
        let mid = with_stacks p stacks p.agent.batch_offsets in
        let q = poll_pending u parse now world pending mid in
        let first =
          then_Follows u parse now world config p mid q same
            (with_stacks-Follows u parse now world config p stacks p.agent.batch_offsets)
            (poll_pending-Follows u parse now world config pending mid) in
        elim (Option-cases q.first_err) [
          | inr (e, failed) ↦
              subst (Follows u parse now world config p)
                (sym (flush_files_stopped file files p e failed)) first
          | inl fine ↦
              subst (Follows u parse now world config p) (sym (flush_files_on file files p fine)) (
                then_Follows u parse now world config p q (flush_files u parse now world files q)
                  same first (flush_files-Follows files q))
        ]

  flush_agent_stopped :
      (a : Agent) (e : Failure)
      → let p =
          flush_files u parse now world a.config.files
            (record { agent = a; ticks = 0; logs = []; first_err = none }) in
        p.first_err ≡ some e → flush_agent u parse now world a ≡ p
  unfolding flush_agent
  flush_agent_stopped a e h = ground arith

  flush_agent_done :
      (a : Agent)
      → let p =
          flush_files u parse now world a.config.files
            (record { agent = a; ticks = 0; logs = []; first_err = none }) in
        let r = flush_batch p.agent (world p.ticks) in
        p.first_err ≡ none
        → ((flush_agent u parse now world a).agent ≡ r.0)
          × ((flush_agent u parse now world a).logs ≡ p.logs ++ r.1)
  unfolding flush_agent
  flush_agent_done a h = (ground arith, ground arith)

  flushed_steps :
      (a : Agent) (tick : Tick) (p : Progress)
      (files : Follows u parse now world a.config
        (record { agent = a; ticks = 0; logs = []; first_err = none })
        p)
      → (flush_agent u parse now world a).agent ≡ (flush_batch p.agent tick).0
      → (flush_agent u parse now world a).logs ≡ p.logs ++ (flush_batch p.agent tick).1
      → Persists
          (IsKept u parse a.config)
          (batching a)
          (flush_agent u parse now world a).logs
          files.more
          (batching (flush_agent u parse now world a).agent)
  flushed_steps a tick p files agent_is logs_are =
      let K = IsKept u parse a.config in
      let both : Persists K (batching a) (files.emitted ++ (flush_batch p.agent tick).1)
          (files.more ++ []) (batching (flush_batch p.agent tick).0) =
        Persists-trans K files.steps (flush_batch-Flushes K p.agent tick) in
      let same : (flush_agent u parse now world a).logs
          ≡ files.emitted ++ (flush_batch p.agent tick).1 =
        logs_are ∙ ap (λ l. l ++ (flush_batch p.agent tick).1) files.emits in
      subst
        (λ l.
          Persists K (batching a) l files.more (batching (flush_agent u parse now world a).agent))
        (sym same)
        (subst
          (λ l.
            Persists K (batching a) (files.emitted ++ (flush_batch p.agent tick).1) l
              (batching (flush_agent u parse now world a).agent))
          (append-nil files.more)
          (subst
            (λ b.
              Persists K (batching a) (files.emitted ++ (flush_batch p.agent tick).1)
                (files.more ++ []) (batching b))
            (sym agent_is) both))

  -- The lines that `Flush` processes.
  abbrev pub lines_at_end : Agent → ℕ
  lines_at_end a =
      (flush_files u parse now world a.config.files
        (record { agent = a; ticks = 0; logs = []; first_err = none })).ticks

  pub flush_agent-Ran :
      (a : Agent)
      → let p = flush_agent u parse now world a in Ran u parse a p.agent p.logs (lines_at_end a) 0
  flush_agent-Ran a =
      let start : Progress = record { agent = a; ticks = 0; logs = []; first_err = none } in
      let p = flush_files u parse now world a.config.files start in
      let files = flush_files-Follows a.config a.config.files start refl in
      elim (Option-cases p.first_err) [
        | inr (e, failed) ↦
            subst (λ (q : Progress). Ran u parse a q.agent q.logs (lines_at_end a) 0)
              (sym (flush_agent_stopped a e failed))
              (record {
                more = files.more;
                same_config = files.same_config;
                extends = files.extends;
                all_kept = files.all_kept;
                steps =
                    subst
                      (λ l.
                        Persists (IsKept u parse a.config) (batching a) l files.more
                          (batching p.agent))
                      (sym files.emits) files.steps;
                counted = omega (arith, files.counted);
              })
        | inl fine ↦
            let tick = world p.ticks in
            let (agent_is, logs_are) = flush_agent_done a fine in
            record {
              more = files.more;
              same_config =
                  ap (λ (b : Agent). b.config) agent_is
                  ∙ flush-config p.agent tick
                  ∙ files.same_config;
              extends =
                  ap (λ l. l ++ (flush_agent u parse now world a).agent.batch) logs_are
                  ∙ ap (λ (b : Agent). (p.logs ++ (flush_batch p.agent tick).1) ++ b.batch) agent_is
                  ∙ append_assoc p.logs (flush_batch p.agent tick).1
                      (flush_batch p.agent tick).0.batch
                  ∙ ap (λ l. p.logs ++ l) (flush_batch-batch p.agent tick)
                  ∙ files.extends;
              all_kept = files.all_kept;
              steps = flushed_steps a tick p files agent_is logs_are;
              counted =
                  let count = flush-count p.agent tick in
                  let after = ap filtered_count agent_is in
                  omega (arith, files.counted, count, after);
            }
      ]
