-- ===== src/Buffer/Limit.antt =====
-- The limit on the bytes of the pending batches.
use mathlib.Core.Path.{subst}
use centi_log.Base.{
  ℕ, [], ◌∷◌, ◌≡◌, none, some, inl, inr, Bool-cases, arith, false, leb, refl, true, ◌-◌, ◌≤◌, ap,
  if◌then◌else◌, sym, ◌∙◌,
}
use centi_log.Buffer.{
  Batch, BatchStore, Disk, batch_suffix, enforce_limit, evict, pending_batches, pending_of,
  total_size,
}
use centi_log.Buffer.Pending.{
  lookup-pending_of, own_size, pending_of-HasUniqueKeys, pending_total, pending_total-erase,
}
use centi_log.Dict.{Dict, HasUniqueKeys, erase, erase-HasUniqueKeys, lookup, lookup-erase}
use centi_log.Text.{Text, has_suffix, text_eq}
use centi_log.Text.Equality.{text_eq_iff, text_eq_refl}

-- A list of pending batches, each of them a file that counts.
abbrev Covers : Dict Batch → Dict Batch → Type 0
Covers batches files =
    (n : Text) (b : Batch)
    → lookup n batches ≡ some b
    → (lookup n files ≡ some b) × (has_suffix n batch_suffix ≡ true)

pending_of-Covers : (files : Dict Batch) → HasUniqueKeys files → Covers (pending_of files) files
pending_of-Covers files unique n b found =
    let same = lookup-pending_of n files unique in ground arith

Covers-head :
    (name : Text) (batch : Batch) (rest files : Dict Batch)
    → Covers ((name, batch) ∷ rest) files
    → (lookup name files ≡ some batch) × (has_suffix name batch_suffix ≡ true)
unfolding lookup
Covers-head name batch rest files covers = covers name batch (rw (text_eq_refl name) refl)

Covers-tail :
    (name : Text) (batch : Batch) (rest files : Dict Batch)
    → lookup name rest ≡ none
    → Covers ((name, batch) ∷ rest) files
    → Covers rest files
unfolding lookup
Covers-tail name batch rest files fresh covers n b found =
    let differ : text_eq n name ≡ false = ground (arith, text_eq_iff n name) in
    covers n b (rw differ found)

Covers-erase :
    (name : Text) (rest files : Dict Batch)
    → lookup name rest ≡ none
    → Covers rest files
    → Covers rest (erase name files)
Covers-erase name rest files fresh covers n b found =
    let differ : text_eq n name ≡ false = ground (arith, text_eq_iff n name) in
    let (there, suffix) = covers n b found in (rw (lookup-erase n name files, differ) there, suffix)

module _ (disk : Disk) (max_bytes : ℕ) where
  evict-le :
      (batches files : Dict Batch) (total : ℕ)
      → ((n : Text) → disk.removes n ≡ true)
      → HasUniqueKeys files
      → HasUniqueKeys batches
      → Covers batches files
      → total ≡ total_size batches
      → total ≡ pending_total files
      → pending_total (evict disk max_bytes total batches files) ≤ max_bytes
  unfolding evict total_size
  evict-le [] files total removes unique unique' covers sum whole = omega arith
  evict-le ((name, batch) ∷ rest) files total removes unique (fresh, unique') covers sum whole =
      elim (Bool-cases (leb total max_bytes)) [
        | inl within ↦ rw within (ground arith)
        | inr over ↦
            let (there, suffix) = Covers-head name batch rest files covers in
            let left = pending_total-erase name batch files unique there in
            let counted : own_size name batch ≡ batch.size = rw suffix refl in
            let tail = Covers-tail name batch rest files fresh covers in
            rw (over, removes name)
              (evict-le rest (erase name files) (total - batch.size) removes
                (erase-HasUniqueKeys name files unique) unique'
                (Covers-erase name rest files fresh tail) (omega arith) (omega arith))
      ]

  evict-absent :
      (batches files : Dict Batch) (total : ℕ) (n : Text)
      → lookup n batches ≡ none
      → lookup n (evict disk max_bytes total batches files) ≡ lookup n files
  unfolding evict lookup
  evict-absent [] files total n absent = refl
  evict-absent ((name, batch) ∷ rest) files total n absent =
      elim (Bool-cases (leb total max_bytes)) [
        | inl within ↦ rw within refl
        | inr over ↦
            let differ : text_eq n name ≡ false = ground arith in
            let later : lookup n rest ≡ none = ground arith in
            elim (Bool-cases (disk.removes name)) [
              | inl gone ↦
                  rw (over, gone)
                    (evict-absent rest (erase name files) (total - batch.size) n later
                      ∙ lookup-erase n name files
                      ∙ ap (λ t. if t then none else lookup n files) differ)
              | inr stays ↦ rw (over, stays) (evict-absent rest files total n later)
            ]
      ]

  evict-within :
      (batches files : Dict Batch) (total : ℕ)
      → total ≤ max_bytes
      → evict disk max_bytes total batches files ≡ files
  unfolding evict
  evict-within [] files total within = refl
  evict-within ((name, batch) ∷ rest) files total within =
      let test : leb total max_bytes ≡ true = ground arith in rw test refl

evicted : BatchStore → Disk → Dict Batch
evicted s disk =
    evict disk s.max_bytes (total_size (pending_of s.files)) (pending_of s.files) s.files

enforced :
    (s : BatchStore) (disk : Disk)
    → disk.lists ≡ true
    → enforce_limit s disk ≡ record s { files = evicted s disk }
unfolding enforce_limit pending_batches evicted
enforced s disk lists = ground arith

not_enforced : (s : BatchStore) (disk : Disk) → disk.lists ≡ false → enforce_limit s disk ≡ s
unfolding enforce_limit pending_batches
not_enforced s disk unlisted = ground arith

-- If the directory can be listed and its files removed, then after the limit is enforced the pending
-- batches together are within it.
pub enforce_limit-le :
    (s : BatchStore) (disk : Disk)
    → disk.lists ≡ true
    → ((n : Text) → disk.removes n ≡ true)
    → HasUniqueKeys s.files
    → pending_total (enforce_limit s disk).files ≤ s.max_bytes
unfolding evicted
enforce_limit-le s disk lists removes unique =
    let batches = pending_of s.files in
    let small =
      evict-le disk s.max_bytes batches s.files (total_size batches) removes unique
        (pending_of-HasUniqueKeys s.files unique) (pending_of-Covers s.files unique) refl
        (unfold pending_total in refl) in
    subst (λ t. pending_total t.files ≤ s.max_bytes) (sym (enforced s disk lists)) small

-- Enforcing the limit changes nothing while the pending batches are within it.
pub enforce_limit-within :
    (s : BatchStore) (disk : Disk) → pending_total s.files ≤ s.max_bytes → enforce_limit s disk ≡ s
unfolding evicted pending_total
enforce_limit-within s disk within = elim (Bool-cases disk.lists) [
  | inl lists ↦
      enforced s disk lists
      ∙ ap (λ files. record s { files = files })
          (evict-within disk s.max_bytes (pending_of s.files) s.files
            (total_size (pending_of s.files)) within)
  | inr unlisted ↦ not_enforced s disk unlisted
]

-- Enforcing the limit never touches a file that is not pending, such as a claimed batch.
pub enforce_limit-other :
    (s : BatchStore) (disk : Disk) (n : Text)
    → HasUniqueKeys s.files
    → has_suffix n batch_suffix ≡ false
    → lookup n (enforce_limit s disk).files ≡ lookup n s.files
unfolding evicted
enforce_limit-other s disk n unique other =
    let absent : lookup n (pending_of s.files) ≡ none =
      lookup-pending_of n s.files unique ∙ ap (λ t. if t then lookup n s.files else none) other in
    elim (Bool-cases disk.lists) [
      | inl lists ↦
          ap (λ t. lookup n t.files) (enforced s disk lists)
          ∙ evict-absent disk s.max_bytes (pending_of s.files) s.files
              (total_size (pending_of s.files)) n absent
      | inr unlisted ↦ ap (λ t. lookup n t.files) (not_enforced s disk unlisted)
    ]
