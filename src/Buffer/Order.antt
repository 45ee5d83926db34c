-- ===== src/Buffer/Order.antt =====
-- The order of the pending batches, and which of them is claimed.
use mathlib.Core.Path.{subst}
use centi_log.Base.{
  [], ◌∷◌, ◌≡◌, none, some, ok, inl, inr, true, false, All, Bool-cases, ap, arith, if◌then◌else◌,
  refl, ◌∙◌,
}
use centi_log.Buffer.{
  Batch, BatchStore, Disk, batch_suffix, claim_oldest, name_lt, pending_of, put_in_order,
}
use centi_log.Buffer.Claims.{claim, claim_oldest-first}
use centi_log.Buffer.Pending.{lookup-pending_of}
use centi_log.Dict.{Dict, HasUniqueKeys, lookup}
use centi_log.Text.{Text, has_suffix, text_eq}
use centi_log.Text.Equality.{text_eq_iff}

name_lt-asym : (a b : Text) → name_lt a b ≡ true → name_lt b a ≡ false
unfolding name_lt
name_lt-asym a [] h = ground arith
name_lt-asym [] (y ∷ b) h = refl
name_lt-asym (x ∷ a) (y ∷ b) h = ground (arith, name_lt-asym a b)

-- Not being below passes on.
name_lt_trans : (a b c : Text) → name_lt b a ≡ false → name_lt c b ≡ false → name_lt c a ≡ false
unfolding name_lt
name_lt_trans [] b c h k = refl
name_lt_trans (x ∷ a) [] c h k = ground arith
name_lt_trans (x ∷ a) (y ∷ b) [] h k = ground arith
name_lt_trans (x ∷ a) (y ∷ b) (z ∷ c) h k = ground (arith, name_lt_trans a b c)

abbrev NotBelow : Text → Text × Batch → Type 0
NotBelow n e = name_lt e.0 n ≡ false

abbrev IsSorted : Dict Batch → Type 0
IsSorted [] = Unit
IsSorted (e ∷ rest) = All (NotBelow e.0) rest × IsSorted rest

put_in_order-All :
    (P : Text × Batch → Type 0) (e : Text × Batch) (l : Dict Batch)
    → P e
    → All P l
    → All P (put_in_order e l)
unfolding put_in_order
put_in_order-All P e [] one all = (one, tt)
put_in_order-All P e (f ∷ l) one (head, all) = elim (Bool-cases (name_lt f.0 e.0)) [
  | inl before ↦ rw before (head, put_in_order-All P e l one all)
  | inr after ↦ rw after (one, (head, all))
]

NotBelow-All :
    (a b : Text) (l : Dict Batch) → name_lt b a ≡ false → All (NotBelow b) l → All (NotBelow a) l
NotBelow-All a b [] h all = tt
NotBelow-All a b (e ∷ l) h (head, all) = (name_lt_trans a b e.0 h head, NotBelow-All a b l h all)

put_in_order-IsSorted :
    (e : Text × Batch) (l : Dict Batch) → IsSorted l → IsSorted (put_in_order e l)
unfolding put_in_order
put_in_order-IsSorted e [] sorted = (tt, tt)
put_in_order-IsSorted e (f ∷ l) (least, sorted) = elim (Bool-cases (name_lt f.0 e.0)) [
  | inl before ↦ rw before (
    put_in_order-All (NotBelow f.0) e l (name_lt-asym f.0 e.0 before) least,
    put_in_order-IsSorted e l sorted,
  )
  | inr after ↦ rw after ((after, NotBelow-All e.0 f.0 l after least), (least, sorted))
]

pending_of-IsSorted : (files : Dict Batch) → IsSorted (pending_of files)
unfolding pending_of
pending_of-IsSorted [] = tt
pending_of-IsSorted ((n, b) ∷ files) = elim (Bool-cases (has_suffix n batch_suffix)) [
  | inl pending ↦
      rw pending (put_in_order-IsSorted (n, b) (pending_of files) (pending_of-IsSorted files))
  | inr other ↦ rw other (pending_of-IsSorted files)
]

name_lt_irrefl : (n : Text) → name_lt n n ≡ false
unfolding name_lt
name_lt_irrefl [] = refl
name_lt_irrefl (x ∷ n) = ground (arith, name_lt_irrefl n)

All-lookup :
    (n m : Text) (c : Batch) (l : Dict Batch)
    → All (NotBelow n) l
    → lookup m l ≡ some c
    → name_lt m n ≡ false
unfolding lookup
All-lookup n m c [] all found = absurd (ground arith)
All-lookup n m c ((k, b) ∷ l) (head, all) found = elim (Bool-cases (text_eq m k)) [
  | inl here ↦ let same : m ≡ k = (text_eq_iff m k).0 here in rw same head
  | inr other ↦ All-lookup n m c l all (ground arith)
]

-- While the directory works, what is claimed is the first of the pending batches by name: no pending
-- batch has a name below that of the one that is claimed.
pub claim_oldest-least :
    (s : BatchStore) (disk : Disk) (n m : Text) (b c : Batch) (rest : Dict Batch)
    → disk.lists ≡ true
    → ((x : Text) → disk.renames x ≡ true)
    → pending_of s.files ≡ (n, b) ∷ rest
    → HasUniqueKeys s.files
    → lookup m s.files ≡ some c
    → has_suffix m batch_suffix ≡ true
    → ((claim_oldest s disk).1 ≡ ok (claim n)) × (name_lt m n ≡ false)
claim_oldest-least s disk n m b c rest lists renames oldest unique found suffix =
    let there : lookup m (pending_of s.files) ≡ some c =
      lookup-pending_of m s.files unique
      ∙ ap (λ t. if t then lookup m s.files else none) suffix
      ∙ found in
    let least : All (NotBelow n) ((n, b) ∷ rest) =
      (name_lt_irrefl n, (subst IsSorted oldest (pending_of-IsSorted s.files)).0) in
    (
      ap (λ r. r.1) (claim_oldest-first s n b rest disk lists renames oldest unique),
      All-lookup n m c ((n, b) ∷ rest) least (subst (λ l. lookup m l ≡ some c) oldest there),
    )
