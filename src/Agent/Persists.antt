-- ===== src/Agent/Persists.antt =====
-- How the records of a batch come to be on disk: the steps between two states of the agent's batch, its
-- store of batches, and the name of a batch that is on disk and not yet reported.
use mathlib.Core.List.{append_assoc}
use mathlib.Core.Path.{subst}
use centi_log.Base.{List, [], ◌∷◌, ◌++◌, ◌≡◌, ok, err, sym, ℕ}
use centi_log.Agent.{Agent}
use centi_log.Buffer.{BatchStore, Disk, Write, write_batch}
use centi_log.Schema.{Log}
use centi_log.Text.{Text}

pub record Batching : Type 0 where
  pub store : BatchStore
  pub batch : List Log
  pub pending : Text

abbrev pub batching : Agent → Batching
batching a = record { store = a.store; batch = a.batch; pending = a.pending_batch }

-- From one state to another, with the records that are reported as persisted, and those that came in:
-- one comes into the batch; a batch without a name cannot be written; it is written and gets a name, or
-- is reported at once; or a batch with a name, which is on disk, is reported. No other step reports.
pub data Persists (K : Log → Type 0) : Batching → List Log → List Log → Batching → Type 0 where
  at_rest : (v : Batching) → Persists K v [] [] v
  came_in :
      {v w : Batching} {logs more : List Log} (log : Log)
      → K log
      → Persists K (record v { batch = v.batch ++ log ∷ [] }) logs more w
      → Persists K v logs (log ∷ more) w
  not_on_disk :
      {v w : Batching} {logs more : List Log} (write : Write) (disk : Disk) (s : BatchStore)
      (message : Text)
      → v.pending ≡ []
      → write_batch v.store v.batch write disk ≡ (s, err message)
      → Persists K (record v { store = s }) logs more w
      → Persists K v logs more w
  on_disk :
      {v w : Batching} {logs more : List Log} (write : Write) (disk : Disk) (s : BatchStore)
      (name : Text)
      → v.pending ≡ []
      → write_batch v.store v.batch write disk ≡ (s, ok name)
      → Persists K (record v { store = s; pending = name }) logs more w
      → Persists K v logs more w
  reported :
      {v w : Batching} {logs more : List Log} (write : Write) (disk : Disk) (s : BatchStore)
      (name : Text)
      → v.pending ≡ []
      → write_batch v.store v.batch write disk ≡ (s, ok name)
      → Persists K (record { store = s; batch = []; pending = [] }) logs more w
      → Persists K v (v.batch ++ logs) more w
  reported_later :
      {v w : Batching} {logs more : List Log} (b : ℕ) (rest : Text)
      → v.pending ≡ b ∷ rest
      → Persists K (record v { batch = []; pending = [] }) logs more w
      → Persists K v (v.batch ++ logs) more w

pub Persists-trans :
    (K : Log → Type 0) {v w x : Batching} {logs more later added : List Log}
    → Persists K v logs more w
    → Persists K w later added x
    → Persists K v (logs ++ later) (more ++ added) x
Persists-trans K (at_rest v) q = q
Persists-trans K (came_in log k p) q = came_in log k (Persists-trans K p q)
Persists-trans K (not_on_disk write disk s message free h p) q =
    not_on_disk write disk s message free h (Persists-trans K p q)
Persists-trans K (on_disk write disk s name free h p) q =
    on_disk write disk s name free h (Persists-trans K p q)
Persists-trans K {x = x} {later = later} {added = added}
      (reported {v} {w} {logs} {more} write disk s name free h p) q =
    subst (λ l. Persists K v l (more ++ added) x) (sym (append_assoc v.batch logs later))
      (reported write disk s name free h (Persists-trans K p q))
Persists-trans K {x = x} {later = later} {added = added}
      (reported_later {v} {w} {logs} {more} b rest there p) q =
    subst (λ l. Persists K v l (more ++ added) x) (sym (append_assoc v.batch logs later))
      (reported_later b rest there (Persists-trans K p q))
