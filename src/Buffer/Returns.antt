-- ===== src/Buffer/Returns.antt =====
-- What becomes of a claimed batch: it is given back, deleted, or moved to the failed ones.
use centi_log.Base.{◌∷◌, ◌++◌, ◌≡◌, none, some, ok, true, arith, if◌then◌else◌, ◌≤◌, ap, ◌∙◌}
use centi_log.Buffer.{
  Batch, BatchStore, Disk, batch_suffix, claim_oldest, claim_suffix, delete_claim, enforce_limit,
  move_to_failed, pending_of, rename, trim_suffix, unclaim,
}
use centi_log.Buffer.Claims.{
  claim, claimed_store, claim-has_suffix, claim_oldest-first, claimed-found, given_back-lookup,
  given_back-pending_total, lookup-rename, oldest-found, oldest-gone, trim_suffix-claim,
}
use centi_log.Buffer.Limit.{enforce_limit-within}
use centi_log.Buffer.Pending.{pending_total}
use centi_log.Dict.{Dict, HasUniqueKeys, erase, insert, lookup, lookup-erase}
use centi_log.Text.{Text, has_suffix, text_eq}
use centi_log.Text.Equality.{text_eq_iff}

unclaim_found :
    (s : BatchStore) (claimed : Text) (b : Batch) (disk : Disk)
    → has_suffix claimed (batch_suffix ++ claim_suffix) ≡ true
    → lookup claimed s.files ≡ some b
    → disk.renames claimed ≡ true
    → unclaim s claimed disk ≡ (
      enforce_limit
          (record s { files = rename claimed (trim_suffix claimed claim_suffix) s.files })
          disk,
      ok tt,
    )
unfolding unclaim
unclaim_found s claimed b disk suffix found renames = ground arith

delete_found :
    (s : BatchStore) (claimed : Text) (b : Batch) (disk : Disk)
    → lookup claimed s.files ≡ some b
    → disk.removes claimed ≡ true
    → delete_claim s claimed disk ≡ (record s { files = erase claimed s.files }, ok tt)
unfolding delete_claim
delete_found s claimed b disk found removes = ground arith

move_found :
    (s : BatchStore) (claimed : Text) (b : Batch) (disk : Disk)
    → has_suffix (trim_suffix claimed claim_suffix) batch_suffix ≡ true
    → lookup claimed s.files ≡ some b
    → disk.renames claimed ≡ true
    → move_to_failed s claimed disk ≡ (
      record s {
        files = erase claimed s.files;
        failed = insert (trim_suffix claimed claim_suffix) b s.failed;
      },
      ok tt,
    )
unfolding move_to_failed
move_found s claimed b disk suffix found renames = ground arith

module _ (s : BatchStore) (n : Text) (b : Batch) (rest : Dict Batch) (disk : Disk)
    (lists : disk.lists ≡ true) (renames : (x : Text) → disk.renames x ≡ true)
    (oldest : pending_of s.files ≡ (n, b) ∷ rest) (unique : HasUniqueKeys s.files)
    (free : lookup (claim n) s.files ≡ none) where
  abbrev claimed_now : BatchStore
  claimed_now = claimed_store s n b rest disk lists renames oldest unique

  abbrev pub returned_store : BatchStore
  returned_store = record s { files = rename (claim n) n claimed_now.files }

  pub unclaim-returned :
      (after : Disk)
      → after.renames (claim n) ≡ true
      → pending_total s.files ≤ s.max_bytes
      → unclaim claimed_now (claim n) after ≡ (returned_store, ok tt)
  unclaim-returned after works within =
      let (found, suffix) = oldest-found s n b rest disk lists renames oldest unique in
      let (there, unique') = claimed-found s n b rest disk lists renames oldest unique in
      let small : pending_total returned_store.files ≤ s.max_bytes =
        ground (arith, given_back-pending_total s n b rest disk lists renames oldest unique free) in
      unclaim_found claimed_now (claim n) b after (claim-has_suffix n ∙ suffix) there works
      ∙ ap
          (λ to. (
            enforce_limit (record s { files = rename (claim n) to claimed_now.files }) after,
            ok tt,
          ))
          (trim_suffix-claim n)
      ∙ ap (λ t. (t, ok tt)) (enforce_limit-within returned_store after small)

  pub delete_claim-deleted :
      (after : Disk)
      → after.removes (claim n) ≡ true
      → delete_claim claimed_now (claim n) after
        ≡ (record s { files = erase (claim n) claimed_now.files }, ok tt)
  delete_claim-deleted after works =
      delete_found claimed_now (claim n) b after
        (claimed-found s n b rest disk lists renames oldest unique).0 works

  pub move_to_failed-moved :
      (after : Disk)
      → after.renames (claim n) ≡ true
      → move_to_failed claimed_now (claim n) after ≡ (
        record s { files = erase (claim n) claimed_now.files; failed = insert n b s.failed },
        ok tt,
      )
  move_to_failed-moved after works =
      let (found, suffix) = oldest-found s n b rest disk lists renames oldest unique in
      let trimmed = trim_suffix-claim n in
      move_found claimed_now (claim n) b after
        (ap (λ name. has_suffix name batch_suffix) trimmed ∙ suffix)
        (claimed-found s n b rest disk lists renames oldest unique).0 works
      ∙ ap
          (λ name. (
            record s { files = erase (claim n) claimed_now.files; failed = insert name b s.failed },
            ok tt,
          ))
          trimmed

  pub erased-lookup :
      (x : Text)
      → lookup x (erase (claim n) claimed_now.files)
        ≡ (if text_eq x n then none else lookup x s.files)
  erased-lookup x =
      let (found, suffix) = oldest-found s n b rest disk lists renames oldest unique in
      let gone = lookup-erase x (claim n) claimed_now.files in
      let moved = lookup-rename x n (claim n) b s.files found in
      ground (arith, text_eq_iff x n, text_eq_iff x (claim n))

-- Claiming the oldest batch and giving it back leaves every file of the store as it was, while the
-- pending batches are within the limit, no earlier claim of that batch is left over, and the renamings
-- succeed.
pub unclaim-claim_oldest :
    (s : BatchStore) (n : Text) (b : Batch) (rest : Dict Batch) (disk : Disk) (x : Text)
    → disk.lists ≡ true
    → ((y : Text) → disk.renames y ≡ true)
    → pending_of s.files ≡ (n, b) ∷ rest
    → HasUniqueKeys s.files
    → lookup (claim n) s.files ≡ none
    → pending_total s.files ≤ s.max_bytes
    → let r = claim_oldest s disk in
      (r.1 ≡ ok (claim n))
      × (lookup n r.0.files ≡ none)
      × (lookup (claim n) r.0.files ≡ some b)
      × (lookup x (unclaim r.0 (claim n) disk).0.files ≡ lookup x s.files)
unclaim-claim_oldest s n b rest disk x lists renames oldest unique free within =
    let r = claim_oldest s disk in
    let (found, suffix) = oldest-found s n b rest disk lists renames oldest unique in
    let now = claim_oldest-first s n b rest disk lists renames oldest unique in
    let back =
      ap (λ q. (unclaim q.0 (claim n) disk).0) now
      ∙ ap (λ q. q.0)
          (unclaim-returned s n b rest disk lists renames oldest unique free disk
            (renames (claim n)) within) in
    (
      ap (λ q. q.1) now,
      ap (λ q. lookup n q.0.files) now ∙ oldest-gone s n b rest disk lists renames oldest unique,
      ap (λ q. lookup (claim n) q.0.files) now
          ∙ (claimed-found s n b rest disk lists renames oldest unique).0,
      ap (λ t. lookup x t.files) back
          ∙ given_back-lookup s n b rest disk lists renames oldest unique free x,
    )
