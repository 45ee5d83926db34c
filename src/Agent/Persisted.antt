-- ===== src/Agent/Persisted.antt =====
-- A flush as steps of the batch: what it reports is on disk.
use mathlib.Core.List.{append-nil}
use mathlib.Core.Path.{subst}
use centi_log.Base.{
  ℕ, Bool, List, [], ◌∷◌, some, ok, err, ◌++◌, ◌≡◌, inl, inr, Option, Option-cases, Result-cases,
  List-cases, arith, ap, sym, ◌∙◌,
}
use centi_log.Agent.{
  Agent, Tick, Failure, commit_batch_offsets, finish_batch, flush_batch, not_written,
}
use centi_log.Agent.Accounts.{finish_done, finish_failed, flush_empty, flush_failed, flush_done}
use centi_log.Agent.Flushes.{ensure_err, ensure_ok, ensure_pending, outcome}
use centi_log.Agent.Persists.{
  Batching, Persists, at_rest, batching, not_on_disk, on_disk, reported, reported_later,
}
use centi_log.Ingest.{logs}
use centi_log.Schema.{Log}
use centi_log.Text.{Text}

pub commit-batching :
    (a : Agent) (saved : Bool) → batching (commit_batch_offsets a saved).0 ≡ batching a
unfolding commit_batch_offsets
commit-batching a saved = ground arith

-- What a flush makes of the batch, with nothing that came in.
abbrev Flushes : (Log → Type 0) → Agent → Agent × List Log × Option Failure → Type 0
Flushes K a r = Persists K (batching a) r.1 [] (batching r.0)

-- The state once a batch is reported.
abbrev cleared : Batching → Batching
cleared v = record v { batch = []; pending = [] }

module _ (K : Log → Type 0) (a : Agent) (saved : Bool) where
  -- The end of a flush, from what can come before it in each of its ways.
  finish-cases :
      (v : Batching)
      → Persists K v [] [] (batching a)
      → Persists K v a.batch [] (cleared (batching a))
      → Persists K v (finish_batch a saved).1 [] (batching (finish_batch a saved).0)
  finish-cases v kept_batch reported_batch = elim (Option-cases (commit_batch_offsets a saved).1) [
    | inr (e, failed) ↦
        rw (finish_failed a saved e failed)
          (subst (λ w. Persists K v [] [] w) (sym (commit-batching a saved)) kept_batch)
    | inl done ↦ rw (finish_done a saved done) (
        subst (λ (w : Batching). Persists K v w.batch [] (cleared w))
          (sym (commit-batching a saved)) reported_batch)
  ]

module _ (K : Log → Type 0) (a : Agent) (tick : Tick) where
  whole :
      (w : Batching)
      → Persists K (batching a) (a.batch ++ []) [] w
      → Persists K (batching a) a.batch [] w
  whole w = subst (λ l. Persists K (batching a) l [] w) (append-nil a.batch)

  flush_pending-Flushes :
      (log : Log) (logs : List Log) (b : ℕ) (rest : Text)
      → a.batch ≡ log ∷ logs
      → a.pending_batch ≡ b ∷ rest
      → Flushes K a (flush_batch a tick)
  flush_pending-Flushes log logs b rest batch there =
      let ensured = ensure_pending a tick b rest there in
      let same : flush_batch a tick ≡ finish_batch a tick.saved =
        flush_done a tick log logs batch (ap (λ r. r.1) ensured)
        ∙ ap (λ r. finish_batch r.0 tick.saved) ensured in
      subst (Flushes K a) (sym same) (
        finish-cases K a tick.saved (batching a) (at_rest (batching a)) (
          whole (cleared (batching a))
            (reported_later b rest there (at_rest (cleared (batching a))))))

  flush_unwritten-Flushes :
      (log : Log) (logs : List Log) (message : Text)
      → a.batch ≡ log ∷ logs
      → a.pending_batch ≡ []
      → (outcome a tick).1 ≡ err message
      → Flushes K a (flush_batch a tick)
  flush_unwritten-Flushes log logs message batch clean failed =
      let ensured = ensure_err a tick message clean failed in
      let stored : Agent = record a { store = (outcome a tick).0 } in
      let same : flush_batch a tick ≡ (stored, [], some (not_written message)) =
        flush_failed a tick log logs (not_written message) batch (ap (λ r. r.1) ensured)
        ∙ ap (λ r. (r.0, [], some (not_written message))) ensured in
      subst (Flushes K a) (sym same) (
        not_on_disk tick.write tick.disk (outcome a tick).0 message clean
          (ap (λ r. ((outcome a tick).0, r)) failed) (at_rest (batching stored)))

  flush_written-Flushes :
      (log : Log) (logs : List Log) (name : Text)
      → a.batch ≡ log ∷ logs
      → a.pending_batch ≡ []
      → (outcome a tick).1 ≡ ok name
      → Flushes K a (flush_batch a tick)
  flush_written-Flushes log logs name batch clean written_as =
      let ensured = ensure_ok a tick name clean written_as in
      let stored : Agent = record a { store = (outcome a tick).0; pending_batch = name } in
      let wrote : outcome a tick ≡ ((outcome a tick).0, ok name) =
        ap (λ r. ((outcome a tick).0, r)) written_as in
      let same : flush_batch a tick ≡ finish_batch stored tick.saved =
        flush_done a tick log logs batch (ap (λ r. r.1) ensured)
        ∙ ap (λ r. finish_batch r.0 tick.saved) ensured in
      subst (Flushes K a) (sym same) (
        finish-cases K stored tick.saved (batching a)
          (on_disk tick.write tick.disk (outcome a tick).0 name clean wrote
            (at_rest (batching stored)))
          (whole (cleared (batching stored)) (
            reported tick.write tick.disk (outcome a tick).0 name clean wrote
              (at_rest (cleared (batching stored))))))

  -- Whatever fails, a flush reports only a batch that it has written or that has been on disk before.
  pub flush_batch-Flushes : Flushes K a (flush_batch a tick)
  flush_batch-Flushes = elim (List-cases a.batch) [
    | inl empty ↦ rw (flush_empty a tick empty) (
        subst (λ w. Persists K (batching a) [] [] w) (sym (commit-batching a tick.saved))
          (at_rest (batching a)))
    | inr (log, logs, batch) ↦ elim (List-cases a.pending_batch) [
      | inr (b, rest, there) ↦ flush_pending-Flushes log logs b rest batch there
      | inl clean ↦ elim (Result-cases (outcome a tick).1) [
        | inl (name, written_as) ↦ flush_written-Flushes log logs name batch clean written_as
        | inr (message, failed) ↦ flush_unwritten-Flushes log logs message batch clean failed
      ]
    ]
  ]
