-- ===== src/Buffer/Claims.antt =====
-- Claiming the oldest batch, and giving it back.
use mathlib.Core.List.{reverse-append}
use centi_log.Base.{
  ◌∷◌, ◌++◌, ◌≡◌, none, some, ok, inl, inr, true, false, arith, if◌then◌else◌, refl, ◌+◌, ap,
  length, length-append, take, take-length, ◌-◌, ◌∙◌, Bool-cases,
}
use centi_log.Buffer.{
  Batch, BatchStore, Disk, batch_suffix, claim_suffix, rename, trim_suffix, claim_first,
  claim_oldest, pending_batches, pending_of,
}
use centi_log.Buffer.Pending.{
  own_size, pending_total, pending_total-cons, pending_total-erase, pending_total-erase_absent,
  lookup-pending_of,
}
use centi_log.Dict.{
  Dict, HasUniqueKeys, erase, erase-HasUniqueKeys, insert, insert-HasUniqueKeys, lookup,
  lookup-erase, lookup-insert,
}
use centi_log.Text.{Text, codes, has_prefix, has_suffix, text_eq}
use centi_log.Text.Equality.{text_eq_iff, text_eq_refl}

-- The name of a claimed batch.
abbrev pub claim : Text → Text
claim n = n ++ claim_suffix

pub claim-not_pending : (n : Text) → has_suffix (claim n) batch_suffix ≡ false
unfolding has_suffix has_prefix codes
claim-not_pending n = rw (reverse-append n claim_suffix) refl

pub claim-has_suffix :
    (n : Text) → has_suffix (claim n) (batch_suffix ++ claim_suffix) ≡ has_suffix n batch_suffix
unfolding has_suffix has_prefix codes
claim-has_suffix n = rw (reverse-append n claim_suffix) refl

claim-is_claimed : (n : Text) → has_suffix (claim n) claim_suffix ≡ true
unfolding has_suffix has_prefix codes
claim-is_claimed n = rw (reverse-append n claim_suffix) refl

pub trim_suffix-claim : (n : Text) → trim_suffix (claim n) claim_suffix ≡ n
unfolding codes trim_suffix
trim_suffix-claim n =
    let size : length (claim n) - length claim_suffix ≡ length n =
      omega (arith, length-append n claim_suffix) in
    rw (claim-is_claimed n) (ap (λ k. take k (claim n)) size ∙ take-length n claim_suffix)

pub lookup-rename :
    (x from to : Text) (b : Batch) (files : Dict Batch)
    → lookup from files ≡ some b
    → lookup x (rename from to files)
      ≡ (if text_eq x to then some b else if text_eq x from then none else lookup x files)
unfolding rename
lookup-rename x from to b files found =
    ground (arith, lookup-insert x to b (erase from files), lookup-erase x from files)

rename_found :
    (from to : Text) (b : Batch) (files : Dict Batch)
    → lookup from files ≡ some b
    → rename from to files ≡ insert to b (erase from files)
unfolding rename
rename_found from to b files found = ground arith

pub rename-HasUniqueKeys :
    (from to : Text) (b : Batch) (files : Dict Batch)
    → lookup from files ≡ some b
    → HasUniqueKeys files
    → HasUniqueKeys (rename from to files)
rename-HasUniqueKeys from to b files found unique =
    rw (rename_found from to b files found)
      (insert-HasUniqueKeys to b (erase from files) (erase-HasUniqueKeys from files unique))

-- Renaming to a name that is not taken moves the bytes.
pub rename-pending_total :
    (from to : Text) (b : Batch) (files : Dict Batch)
    → HasUniqueKeys files
    → lookup from files ≡ some b
    → lookup to files ≡ none
    → own_size from b + pending_total (rename from to files) ≡ own_size to b + pending_total files
unfolding insert
rename-pending_total from to b files unique found free =
    let rest = erase from files in
    let absent : lookup to rest ≡ none = ground (arith, lookup-erase to from files) in
    let put = pending_total-cons to b (erase to rest) in
    let kept = pending_total-erase_absent to rest absent in
    let taken = pending_total-erase from b files unique found in
    rw (rename_found from to b files found) (omega arith)

listed :
    (s : BatchStore) (disk : Disk)
    → disk.lists ≡ true
    → pending_batches s disk ≡ ok (pending_of s.files)
unfolding pending_batches
listed s disk lists = ground arith

claim_oldest_ok :
    (s : BatchStore) (disk : Disk) (batches : Dict Batch)
    → pending_batches s disk ≡ ok batches
    → claim_oldest s disk ≡ ((claim_first s disk batches).0, ok (claim_first s disk batches).1)
unfolding claim_oldest
claim_oldest_ok s disk batches h = ground arith

module _ (s : BatchStore) (n : Text) (b : Batch) (rest : Dict Batch) (disk : Disk)
    (lists : disk.lists ≡ true) (renames : (x : Text) → disk.renames x ≡ true)
    (oldest : pending_of s.files ≡ (n, b) ∷ rest) (unique : HasUniqueKeys s.files) where
  abbrev pub claimed_store : BatchStore
  claimed_store = record s { files = rename n (claim n) s.files }

  first : claim_first s disk ((n, b) ∷ rest) ≡ (claimed_store, claim n)
  unfolding claim_first
  first = rw (renames n) refl

  pub claim_oldest-first : claim_oldest s disk ≡ (claimed_store, ok (claim n))
  claim_oldest-first =
      claim_oldest_ok s disk ((n, b) ∷ rest) (listed s disk lists ∙ ap ok oldest)
      ∙ ap (λ r. (r.0, ok r.1)) first

  pub oldest-found : (lookup n s.files ≡ some b) × (has_suffix n batch_suffix ≡ true)
  unfolding lookup
  oldest-found =
      let head : lookup n (pending_of s.files) ≡ some b =
        ap (lookup n) oldest ∙ ap (λ t. if t then some b else lookup n rest) (text_eq_refl n) in
      let same = lookup-pending_of n s.files unique in ground arith

  -- What the store holds while the batch is claimed.
  pub claimed-found :
      (lookup (claim n) claimed_store.files ≡ some b) × HasUniqueKeys claimed_store.files
  claimed-found =
      let (found, suffix) = oldest-found in
      (
        lookup-rename (claim n) n (claim n) b s.files found
            ∙ ap
                (λ t.
                  if t
                  then some b
                  else if text_eq (claim n) n
                  then none
                  else lookup (claim n) s.files)
                (text_eq_refl (claim n)),
        rename-HasUniqueKeys n (claim n) b s.files found unique,
      )

  claim-other : text_eq n (claim n) ≡ false
  claim-other =
      let (found, suffix) = oldest-found in
      let not_there = claim-not_pending n in
      elim (Bool-cases (text_eq n (claim n))) [
        | inl same ↦
            let path : n ≡ claim n = (text_eq_iff n (claim n)).0 same in
            let clash = ap (λ x. has_suffix x batch_suffix) path in cc
        | inr differ ↦ differ
      ]

  pub oldest-gone : lookup n claimed_store.files ≡ none
  oldest-gone =
      let (found, suffix) = oldest-found in
      lookup-rename n n (claim n) b s.files found
      ∙ ap (λ t. if t then some b else if text_eq n n then none else lookup n s.files) claim-other
      ∙ ap (λ t. if t then none else lookup n s.files) (text_eq_refl n)

  module _ (free : lookup (claim n) s.files ≡ none) where
    -- Renaming the claimed batch back gives every file as it was.
    pub given_back-lookup :
        (x : Text) → lookup x (rename (claim n) n claimed_store.files) ≡ lookup x s.files
    given_back-lookup x =
        let (found, suffix) = oldest-found in
        let once = lookup-rename x n (claim n) b s.files found in
        let twice = lookup-rename x (claim n) n b claimed_store.files claimed-found.0 in
        ground (arith, text_eq_iff x n, text_eq_iff x (claim n))

    pub given_back-pending_total :
        pending_total (rename (claim n) n claimed_store.files) ≡ pending_total s.files
    given_back-pending_total =
        let (found, suffix) = oldest-found in
        let (there, unique') = claimed-found in
        let gone = oldest-gone in
        let out = rename-pending_total n (claim n) b s.files unique found free in
        let back = rename-pending_total (claim n) n b claimed_store.files unique' there gone in
        let nothing : own_size (claim n) b ≡ 0 =
          ap (λ t. if t then b.size else 0) (claim-not_pending n) in
        omega (arith, out, back)
