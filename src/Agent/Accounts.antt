-- ===== src/Agent/Accounts.antt =====
-- What a flush and a poll do to the batch: what they report, what they leave, and what came in.
use mathlib.Core.List.{append_assoc, append-nil}
use centi_log.Base.{
  Bool, List, [], ◌∷◌, none, some, ◌++◌, ◌≡◌, inl, inr, arith, List-cases, Option-cases, ◌∙◌, All,
  All-append, length, length-append, ◌+◌, Option, ap, refl, sym, ℕ,
}
use centi_log.Agent.{
  Agent, Tick, Progress, Failure, commit_batch_offsets, ensure_written, finish_batch, flush_batch,
}
use centi_log.Agent.Persists.{Persists, Persists-trans, at_rest, batching}
use centi_log.Config.{Config}
use centi_log.Dict.{insert}
use centi_log.Ingest.{logs}
use centi_log.Processor.{kept, Moment, process_detailed}
use centi_log.Schema.{Log}
use centi_log.Tailer.{FileLine}
use centi_log.Text.{Unicode}

-- The agent with a record more in its batch.
abbrev pub filled : Agent → FileLine → Log → Agent
filled a line log = record a {
  batch_offsets = insert line.file.path line.end_offset a.batch_offsets;
  batch = a.batch ++ log ∷ [];
}

-- How many lines the filters have counted.
abbrev pub filtered_count : Agent → ℕ
filtered_count a = a.level_count + a.sampling_count

module _ (a : Agent) (saved : Bool) where
  pub commit-batch : (commit_batch_offsets a saved).0.batch ≡ a.batch
  unfolding commit_batch_offsets
  commit-batch = ground arith

  pub commit-config : (commit_batch_offsets a saved).0.config ≡ a.config
  unfolding commit_batch_offsets
  commit-config = ground arith

  pub commit-count : filtered_count (commit_batch_offsets a saved).0 ≡ filtered_count a
  unfolding commit_batch_offsets
  commit-count = ground arith

  pub finish_done :
      (commit_batch_offsets a saved).1 ≡ none
      → finish_batch a saved ≡ (
        record (commit_batch_offsets a saved).0 { batch = []; pending_batch = [] },
        (commit_batch_offsets a saved).0.batch,
        none,
      )
  unfolding finish_batch
  finish_done done = ground arith

  pub finish_failed :
      (e : Failure)
      → (commit_batch_offsets a saved).1 ≡ some e
      → finish_batch a saved ≡ ((commit_batch_offsets a saved).0, [], some e)
  unfolding finish_batch
  finish_failed e failed = ground arith

  finish-batch : (finish_batch a saved).1 ++ (finish_batch a saved).0.batch ≡ a.batch
  finish-batch = elim (Option-cases (commit_batch_offsets a saved).1) [
    | inl done ↦
        rw (finish_done done) (append-nil (commit_batch_offsets a saved).0.batch ∙ commit-batch)
    | inr (e, failed) ↦ rw (finish_failed e failed) commit-batch
  ]

  finish-config : (finish_batch a saved).0.config ≡ a.config
  unfolding finish_batch
  finish-config = ground (arith, commit-config)

  finish-count : filtered_count (finish_batch a saved).0 ≡ filtered_count a
  unfolding finish_batch
  finish-count = ground (arith, commit-count)

module _ (a : Agent) (tick : Tick) where
  ensure-count : filtered_count (ensure_written a tick.write tick.disk).0 ≡ filtered_count a
  unfolding ensure_written
  ensure-count = ground arith

  ensure-batch : (ensure_written a tick.write tick.disk).0.batch ≡ a.batch
  unfolding ensure_written
  ensure-batch = ground arith

  ensure-config : (ensure_written a tick.write tick.disk).0.config ≡ a.config
  unfolding ensure_written
  ensure-config = ground arith

  pub flush_empty :
      a.batch ≡ []
      → flush_batch a tick
        ≡ ((commit_batch_offsets a tick.saved).0, [], (commit_batch_offsets a tick.saved).1)
  unfolding flush_batch
  flush_empty empty = ground arith

  pub flush_failed :
      (log : Log) (logs : List Log) (e : Failure)
      → a.batch ≡ log ∷ logs
      → (ensure_written a tick.write tick.disk).1 ≡ some e
      → flush_batch a tick ≡ ((ensure_written a tick.write tick.disk).0, [], some e)
  unfolding flush_batch
  flush_failed log logs e batch failed = ground arith

  pub flush_done :
      (log : Log) (logs : List Log)
      → a.batch ≡ log ∷ logs
      → (ensure_written a tick.write tick.disk).1 ≡ none
      → flush_batch a tick ≡ finish_batch (ensure_written a tick.write tick.disk).0 tick.saved
  unfolding flush_batch
  flush_done log logs batch done = ground arith

  -- A statement about a flush, from each of its ways.
  flush_cases :
      (P : Agent × List Log × Option Failure → Type 0)
      → (a.batch ≡ []
          → P ((commit_batch_offsets a tick.saved).0, [], (commit_batch_offsets a tick.saved).1))
      → ((e : Failure) → P ((ensure_written a tick.write tick.disk).0, [], some e))
      → P (finish_batch (ensure_written a tick.write tick.disk).0 tick.saved)
      → P (flush_batch a tick)
  flush_cases P none_there failed done = elim (List-cases a.batch) [
    | inl empty ↦ rw (flush_empty empty) (none_there empty)
    | inr (log, logs, batch) ↦ elim (Option-cases (ensure_written a tick.write tick.disk).1) [
      | inl fine ↦ rw (flush_done log logs batch fine) done
      | inr (e, wrong) ↦ rw (flush_failed log logs e batch wrong) (failed e)
    ]
  ]

  -- Flushing reports the batch and clears it, or keeps it and reports nothing; so the records that
  -- it reports, followed by the batch that is left, are the batch.
  pub flush_batch-batch : (flush_batch a tick).1 ++ (flush_batch a tick).0.batch ≡ a.batch
  flush_batch-batch =
      flush_cases (λ r. r.1 ++ r.0.batch ≡ a.batch) (λ empty. commit-batch a tick.saved)
        (λ e. ensure-batch)
        (finish-batch (ensure_written a tick.write tick.disk).0 tick.saved ∙ ensure-batch)

  pub flush-config : (flush_batch a tick).0.config ≡ a.config
  flush-config =
      flush_cases (λ r. r.0.config ≡ a.config) (λ empty. commit-config a tick.saved)
        (λ e. ensure-config)
        (finish-config (ensure_written a tick.write tick.disk).0 tick.saved ∙ ensure-config)

  pub flush-count : filtered_count (flush_batch a tick).0 ≡ filtered_count a
  flush-count =
      flush_cases (λ r. filtered_count r.0 ≡ filtered_count a) (λ empty. commit-count a tick.saved)
        (λ e. ensure-count)
        (finish-count (ensure_written a tick.write tick.disk).0 tick.saved ∙ ensure-count)

-- A progress after another: what was persisted or in the batch still is, in that order, followed by
-- records that the processor kept, each of a line; what is reported went through the steps of `Persists`;
-- and each line since then was kept, or counted by a filter.
module _ (u : Unicode) (parse : FileLine → ℕ → Log) (config : Config) where
  abbrev pub IsKept : Log → Type 0
  IsKept log =
      (m : Moment) × (line : FileLine) × (process_detailed u config m (parse line m.now) ≡ kept log)

  abbrev pub accounted : Progress → List Log
  accounted p = p.logs ++ p.agent.batch

  pub record Grows (p p' : Progress) : Type 0 where
    pub more : List Log
    pub same_config : p'.agent.config ≡ p.agent.config
    pub extends : accounted p' ≡ accounted p ++ more
    pub all_kept : All IsKept more
    pub emitted : List Log
    pub emits : p'.logs ≡ p.logs ++ emitted
    pub steps : Persists IsKept (batching p.agent) emitted more (batching p'.agent)
    pub counted :
        p'.ticks + filtered_count p.agent ≡ p.ticks + length more + filtered_count p'.agent

  pub Grows-refl : (p : Progress) → Grows p p
  Grows-refl p = record {
    more = [];
    same_config = refl;
    extends = sym (append-nil (accounted p));
    all_kept = tt;
    emitted = [];
    emits = sym (append-nil p.logs);
    steps = at_rest (batching p.agent);
    counted = omega arith;
  }

  pub Grows-trans : (p q r : Progress) → Grows p q → Grows q r → Grows p r
  Grows-trans p q r g h = record {
    more = g.more ++ h.more;
    same_config = h.same_config ∙ g.same_config;
    extends =
        h.extends ∙ ap (λ l. l ++ h.more) g.extends ∙ append_assoc (accounted p) g.more h.more;
    all_kept = All-append IsKept g.more h.more g.all_kept h.all_kept;
    emitted = g.emitted ++ h.emitted;
    emits = h.emits ∙ ap (λ l. l ++ h.emitted) g.emits ∙ append_assoc p.logs g.emitted h.emitted;
    steps = Persists-trans IsKept g.steps h.steps;
    counted = omega (arith, g.counted, h.counted, length-append g.more h.more);
  }
