-- ===== src/Agent/Flushes.antt =====
-- How a batch, the store and the offsets move together when the agent flushes.
use mathlib.Core.List.{append-nil}
use mathlib.Core.Path.{subst}
use centi_log.Base.{
  ℕ, Bool, List, [], ◌∷◌, none, some, ok, err, ◌++◌, ◌≡◌, inl, inr, Option, Option-cases, Result,
  arith, length, refl, ◌⊎◌, List-cases, ap, false, ltb, sym, ◌∙◌, ◌≢◌, Result-cases, Bool-cases,
  true,
}
use centi_log.Agent.{
  Agent, Tick, Failure, not_written, not_committed, commit_batch_offsets, ensure_written,
  finish_batch, flush_batch, receive,
}
use centi_log.Agent.Accounts.{
  commit-batch, filled, finish_done, finish_failed, flush_empty, flush_done, flush_failed,
}
use centi_log.Buffer.{BatchStore, write_batch}
use centi_log.Ingest.{logs}
use centi_log.Processor.{kept}
use centi_log.Regex.Build.{is}
use centi_log.Schema.{Log}
use centi_log.Tailer.{FileLine, commit_offsets}
use centi_log.Text.{Text}

commit_failed :
    (a : Agent) (saved : Bool) (e : Failure)
    → (commit_batch_offsets a saved).1 ≡ some e
    → ((commit_batch_offsets a saved).0 ≡ a)
      × (e ≡ not_committed)
      × (commit_offsets a.tailer a.batch_offsets saved ≡ none)
unfolding commit_batch_offsets
commit_failed a saved e h = ground arith

-- The offsets of the batch are those that the tailer has saved, if there are any, and no more wait.
abbrev pub Committed : Agent → Bool → Agent → Type 0
Committed a saved b =
    (b.batch_offsets ≡ [])
    × (((a.batch_offsets ≡ []) × (b.tailer ≡ a.tailer))
        ⊎ (commit_offsets a.tailer a.batch_offsets saved ≡ some b.tailer))

commit_done-Committed :
    (a : Agent) (saved : Bool)
    → (commit_batch_offsets a saved).1 ≡ none
    → Committed a saved (commit_batch_offsets a saved).0
unfolding commit_batch_offsets
commit_done-Committed a saved h = elim (List-cases a.batch_offsets) [
  | inl empty ↦ (ground arith, inl (empty, ground arith))
  | inr (e, rest, some_there) ↦ (ground arith, inr (ground arith))
]

commit-store :
    (a : Agent) (saved : Bool)
    → ((commit_batch_offsets a saved).0.store ≡ a.store)
      × ((commit_batch_offsets a saved).0.pending_batch ≡ a.pending_batch)
unfolding commit_batch_offsets
commit-store a saved = ground arith

module _ (a : Agent) (tick : Tick) where
  abbrev pub outcome : BatchStore × Result Text
  outcome = write_batch a.store a.batch tick.write tick.disk

  pub ensure_err :
      (message : Text)
      → a.pending_batch ≡ []
      → outcome.1 ≡ err message
      → ensure_written a tick.write tick.disk
        ≡ (record a { store = outcome.0 }, some (not_written message))
  unfolding ensure_written
  ensure_err message clean h = ground arith

  pub ensure_ok :
      (name : Text)
      → a.pending_batch ≡ []
      → outcome.1 ≡ ok name
      → ensure_written a tick.write tick.disk
        ≡ (record a { store = outcome.0; pending_batch = name }, none)
  unfolding ensure_written
  ensure_ok name clean h = ground arith

  pub ensure_pending :
      (b : ℕ) (rest : Text)
      → a.pending_batch ≡ b ∷ rest
      → ensure_written a tick.write tick.disk ≡ (a, none)
  unfolding ensure_written
  ensure_pending b rest h = ground arith

-- The write failed: everything but the store is as it was, and nothing is reported.
abbrev pub Unwritten : Agent → Agent × List Log × Option Failure → Text → Type 0
Unwritten a r message =
    (r.2 ≡ some (not_written message))
    × (r.1 ≡ [])
    × (r.0.tailer ≡ a.tailer)
    × (r.0.batch ≡ a.batch)
    × (r.0.batch_offsets ≡ a.batch_offsets)
    × (r.0.pending_batch ≡ [])

-- The batch is written but its offsets are not saved: it stays, and its name is remembered.
abbrev pub Uncommitted : Agent → Bool → Agent × List Log × Option Failure → Text → Type 0
Uncommitted a saved r name =
    (commit_offsets a.tailer a.batch_offsets saved ≡ none)
    × (r.2 ≡ some not_committed)
    × (r.1 ≡ [])
    × (r.0.tailer ≡ a.tailer)
    × (r.0.batch ≡ a.batch)
    × (r.0.batch_offsets ≡ a.batch_offsets)
    × (r.0.pending_batch ≡ name)

-- The batch is written and its offsets are saved: it is reported and cleared.
abbrev pub Flushed : Agent → Bool → Agent × List Log × Option Failure → Type 0
Flushed a saved r =
    Committed a saved r.0
    × (r.2 ≡ none)
    × (r.1 ≡ a.batch)
    × (r.0.batch ≡ [])
    × (r.0.pending_batch ≡ [])

finish-outcomes :
    (a : Agent) (saved : Bool)
    → let r = finish_batch a saved in
      (r.0.store ≡ a.store) × (Uncommitted a saved r a.pending_batch ⊎ Flushed a saved r)
finish-outcomes a saved = elim (Option-cases (commit_batch_offsets a saved).1) [
  | inl done ↦ rw (finish_done a saved done) (
    (commit-store a saved).0,
    inr (commit_done-Committed a saved done, refl, commit-batch a saved, refl, refl),
  )
  | inr (e, failed) ↦
      let (same, is, unsaved) = commit_failed a saved e failed in
      rw (finish_failed a saved e failed) (
        ap (λ x. x.store) same,
        inl (
          unsaved,
          ap some is,
          refl,
          ap (λ x. x.tailer) same,
          ap (λ x. x.batch) same,
          ap (λ x. x.batch_offsets) same,
          ap (λ x. x.pending_batch) same,
        ),
      )
]

-- A flush of a batch of which nothing is on disk yet has three outcomes. If it cannot be written,
-- the offsets stay and nothing is reported or dropped. Otherwise the store is the one with the batch
-- written; and either the tailer cannot save the offsets of the batch, and they stay with the batch and
-- the name it was written under, or they are those that the tailer has saved, if there are any, and
-- exactly the batch is reported and cleared.
pub flush_batch-outcomes :
    (a : Agent) (tick : Tick) (log : Log) (logs : List Log)
    → a.batch ≡ log ∷ logs
    → a.pending_batch ≡ []
    → let r = flush_batch a tick in
      ((message : Text) × ((outcome a tick).1 ≡ err message) × Unwritten a r message)
      ⊎ ((name : Text) × ((outcome a tick).1 ≡ ok name)
          × (r.0.store ≡ (outcome a tick).0)
          × (Uncommitted a tick.saved r name ⊎ Flushed a tick.saved r))
flush_batch-outcomes a tick log logs batch clean = elim (Result-cases (outcome a tick).1) [
  | inl (name, written_as) ↦
      let ensured = ensure_ok a tick name clean written_as in
      let stored : Agent = record a { store = (outcome a tick).0; pending_batch = name } in
      let same : flush_batch a tick ≡ finish_batch stored tick.saved =
        flush_done a tick log logs batch (ap (λ r. r.1) ensured)
        ∙ ap (λ r. finish_batch r.0 tick.saved) ensured in
      let (store, ways) = finish-outcomes stored tick.saved in
      inr (
        name,
        written_as,
        ap (λ r. r.0.store) same ∙ store,
        subst (λ r. Uncommitted a tick.saved r name ⊎ Flushed a tick.saved r) (sym same) ways,
      )
  | inr (message, failed) ↦
      let ensured = ensure_err a tick message clean failed in
      let stored : Agent = record a { store = (outcome a tick).0 } in
      let same : flush_batch a tick ≡ (stored, [], some (not_written message)) =
        flush_failed a tick log logs (not_written message) batch (ap (λ r. r.1) ensured)
        ∙ ap (λ r. (r.0, [], some (not_written message))) ensured in
      inl (
        message,
        failed,
        subst (λ r. Unwritten a r message) (sym same) (refl, refl, refl, refl, refl, clean),
      )
]

append_not_empty : (logs : List Log) (log : Log) → logs ++ log ∷ [] ≢ []
append_not_empty [] log h = cc
append_not_empty (x ∷ logs) log h = cc

module _ (a : Agent) (tick : Tick) (b : ℕ) (rest : Text)
    (pending : a.pending_batch ≡ b ∷ rest) where
  -- A flush that saves the offsets of a batch with a name reports all of it, and writes nothing.
  flush_pending :
      a.batch ≢ []
      → (commit_batch_offsets a tick.saved).1 ≡ none
      → let r = flush_batch a tick in (r.1 ≡ a.batch) × (r.0.batch ≡ []) × (r.0.store ≡ a.store)
  flush_pending there done = elim (List-cases a.batch) [
    | inl empty ↦ absurd (there empty)
    | inr (x, xs, batch) ↦
        let ensured = ensure_pending a tick b rest pending in
        let same : flush_batch a tick ≡ finish_batch a tick.saved =
          flush_done a tick x xs batch (ap (λ r. r.1) ensured)
          ∙ ap (λ r. finish_batch r.0 tick.saved) ensured in
        let all = same ∙ finish_done a tick.saved done in
        (
          ap (λ r. r.1) all ∙ commit-batch a tick.saved,
          ap (λ r. r.0.batch) all,
          ap (λ r. r.0.store) all ∙ (commit-store a tick.saved).0,
        )
  ]

receive_full :
    (a : Agent) (line : FileLine) (tick : Tick) (log : Log)
    → ltb (length (a.batch ++ log ∷ [])) a.config.batch_size ≡ false
    → receive a line tick (kept log) ≡ flush_batch (filled a line log) tick
unfolding receive
receive_full a line tick log full = ground arith

receive_room :
    (a : Agent) (line : FileLine) (tick : Tick) (log : Log)
    → ltb (length (a.batch ++ log ∷ [])) a.config.batch_size ≡ true
    → receive a line tick (kept log) ≡ (filled a line log, [], none)
unfolding receive
receive_room a line tick log room = ground arith

flush_nothing :
    (a : Agent) (tick : Tick)
    → a.batch ≡ []
    → let r = flush_batch a tick in (r.1 ≡ []) × (r.0.batch ≡ []) × (r.0.store ≡ a.store)
flush_nothing a tick empty =
    let all = flush_empty a tick empty in
    (
      ap (λ r. r.1) all,
      ap (λ r. r.0.batch) all ∙ commit-batch a tick.saved ∙ empty,
      ap (λ r. r.0.store) all ∙ (commit-store a tick.saved).0,
    )

-- Where a batch is on disk whose offsets could not be saved, a record that is added to it afterwards is
-- lost once they can be saved: whether the record fills the batch, so that it is flushed at once, or the
-- next flush comes later, both together report the batch with the record as persisted and leave the
-- agent without it, and the store is as it was.
pub receive-lost :
    (a : Agent) (line : FileLine) (tick later : Tick) (log : Log) (b : ℕ) (rest : Text)
    → a.pending_batch ≡ b ∷ rest
    → (commit_batch_offsets (filled a line log) tick.saved).1 ≡ none
    → (commit_batch_offsets (filled a line log) later.saved).1 ≡ none
    → let r = receive a line tick (kept log) in
      let q = flush_batch r.0 later in
      (r.1 ++ q.1 ≡ a.batch ++ log ∷ []) × (q.0.batch ≡ []) × (q.0.store ≡ a.store)
receive-lost a line tick later log b rest pending done done_later =
    let f = filled a line log in
    let there = append_not_empty a.batch log in
    elim (Bool-cases (ltb (length (a.batch ++ log ∷ [])) a.config.batch_size)) [
      | inr full ↦
          let (reported, cleared, kept_store) = flush_pending f tick b rest pending there done in
          let (nothing, empty, same) = flush_nothing (flush_batch f tick).0 later cleared in
          rw (receive_full a line tick log full) (
            ap (λ l. (flush_batch f tick).1 ++ l) nothing
                ∙ append-nil (flush_batch f tick).1
                ∙ reported,
            empty,
            same ∙ kept_store,
          )
      | inl room ↦
          rw (receive_room a line tick log room)
            (flush_pending f later b rest pending there done_later)
    ]
