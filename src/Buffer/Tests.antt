-- ===== src/Buffer/Tests.antt =====
-- A store of two batches, and the theorems at it.
use centi_log.Base.{ℕ, [], ◌∷◌, none, some, ok, ◌≡◌, refl, arith, true, ◌≤◌, false}
use centi_log.Buffer.{
  Batch, BatchStore, Disk, written, claim_first, claim_oldest, enforce_limit, evict, name_lt,
  pending_batches, pending_count, pending_of, put_in_order, recover_all, recover_claims,
  recover_one, rename, total_size, trim_suffix, unclaim, write_batch,
}
use centi_log.Buffer.Claims.{claim}
use centi_log.Buffer.Limit.{enforce_limit-le, enforce_limit-other}
use centi_log.Buffer.Order.{claim_oldest-least}
use centi_log.Buffer.Pending.{pending_total}
use centi_log.Buffer.Returns.{unclaim-claim_oldest}
use centi_log.Dict.{HasUniqueKeys, erase, insert, lookup}
use centi_log.Text.{codes, has_prefix, has_suffix, text_eq}

abbrev working : Disk
working = record { lists = true; removes = λ name. true; renames = λ name. true }

abbrev batch_of : ℕ → Batch
batch_of size = record { logs = []; size = size }

abbrev store_of : ℕ → BatchStore
store_of max_bytes = record {
  files =
      (codes "b.json.gz", batch_of 30)
      ∷ (codes "a.json.gz", batch_of 20)
      ∷ (codes "offsets.json", batch_of 5)
      ∷ [];
  failed = [];
  max_bytes = max_bytes;
}

storing : Unit {0}
unfolding codes text_eq lookup erase insert has_suffix has_prefix pending_of put_in_order name_lt
    pending_total total_size evict enforce_limit pending_batches claim_oldest claim_first rename
    write_batch pending_count recover_claims recover_all recover_one trim_suffix
storing = tt

-- The oldest goes first; a batch is written although it alone is too large, and then removed.
limited :
    ((enforce_limit (store_of 40) working).files
      ≡ (codes "b.json.gz", batch_of 30) ∷ (codes "offsets.json", batch_of 5) ∷ [])
    × ((write_batch (store_of 60) [] (written (codes "c.json.gz") 70) working).0.files
        ≡ (codes "offsets.json", batch_of 5) ∷ [])
    × (pending_count (store_of 60) working ≡ ok 2)
unfolding storing
limited = (refl, refl, refl)

-- A claim is recovered under its own name.
recovered :
    recover_claims
      (record { files = (codes "a.json.gz.sending", batch_of 20) ∷ []; failed = []; max_bytes = 9 })
      working
      (λ name. codes "1")
      (codes "a.json.gz.sending" ∷ [])
    ≡ ok (record { files = (codes "a.json.gz", batch_of 20) ∷ []; failed = []; max_bytes = 9 })
unfolding storing
recovered = refl

store-HasUniqueKeys : HasUniqueKeys (store_of 40).files
unfolding storing
store-HasUniqueKeys = (refl, (refl, (refl, tt)))

enforce_limit-le_example : pending_total (enforce_limit (store_of 40) working).files ≤ 40
enforce_limit-le_example =
    enforce_limit-le (store_of 40) working refl (λ name. refl) store-HasUniqueKeys

unclaim-claim_oldest_example :
    let r = claim_oldest (store_of 50) working in
    (r.1 ≡ ok (claim (codes "a.json.gz")))
    × (lookup (codes "a.json.gz") r.0.files ≡ none)
    × (lookup (claim (codes "a.json.gz")) r.0.files ≡ some (batch_of 20))
    × (lookup (codes "b.json.gz") (unclaim r.0 (claim (codes "a.json.gz")) working).0.files
        ≡ lookup (codes "b.json.gz") (store_of 50).files)
unfolding storing
unclaim-claim_oldest_example =
    unclaim-claim_oldest (store_of 50) (codes "a.json.gz") (batch_of 20)
      ((codes "b.json.gz", batch_of 30) ∷ []) working (codes "b.json.gz") refl (λ name. refl) refl
      store-HasUniqueKeys refl (omega arith)

claim_oldest-least_example :
    ((claim_oldest (store_of 50) working).1 ≡ ok (claim (codes "a.json.gz")))
    × (name_lt (codes "b.json.gz") (codes "a.json.gz") ≡ false)
unfolding storing
claim_oldest-least_example =
    claim_oldest-least (store_of 50) working (codes "a.json.gz") (codes "b.json.gz") (batch_of 20)
      (batch_of 30) ((codes "b.json.gz", batch_of 30) ∷ []) refl (λ name. refl) refl
      store-HasUniqueKeys refl refl

enforce_limit-other_example :
    lookup (codes "offsets.json") (enforce_limit (store_of 40) working).files ≡ some (batch_of 5)
unfolding storing
enforce_limit-other_example =
    enforce_limit-other (store_of 40) working (codes "offsets.json") store-HasUniqueKeys refl
