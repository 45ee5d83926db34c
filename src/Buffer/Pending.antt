-- ===== src/Buffer/Pending.antt =====
-- The pending batches of the directory: each file with the suffix is there once, under its name.
use centi_log.Base.{
  ℕ, [], ◌∷◌, ◌≡◌, none, some, inl, inr, Bool-cases, ap, arith, if◌then◌else◌, refl, ◌+◌, ◌∙◌, sym,
}
use centi_log.Buffer.{Batch, batch_suffix, pending_of, put_in_order, total_size}
use centi_log.Dict.{Dict, HasUniqueKeys, erase, lookup}
use centi_log.Text.{Text, has_suffix, text_eq}
use centi_log.Text.Equality.{text_eq_iff}

put_in_order-lookup :
    (n k : Text) (b : Batch) (l : Dict Batch)
    → lookup k l ≡ none
    → lookup n (put_in_order (k, b) l) ≡ (if text_eq n k then some b else lookup n l)
unfolding put_in_order lookup
put_in_order-lookup n k b [] absent = ground arith
put_in_order-lookup n k b ((j, c) ∷ l) absent =
    ground (arith, put_in_order-lookup n k b l, text_eq_iff n j, text_eq_iff n k, text_eq_iff k j)

put_in_order-HasUniqueKeys :
    (k : Text) (b : Batch) (l : Dict Batch)
    → lookup k l ≡ none
    → HasUniqueKeys l
    → HasUniqueKeys (put_in_order (k, b) l)
unfolding put_in_order lookup
put_in_order-HasUniqueKeys k b [] absent unique = (refl, tt)
put_in_order-HasUniqueKeys k b ((j, c) ∷ l) absent (fresh, unique) = ground (
  arith,
  put_in_order-HasUniqueKeys k b l,
  put_in_order-lookup j k b l,
  text_eq_iff j k,
  text_eq_iff k j,
)

-- A pending batch is a file of the directory whose name has the suffix.
pub lookup-pending_of :
    (n : Text) (files : Dict Batch)
    → HasUniqueKeys files
    → lookup n (pending_of files) ≡ (if has_suffix n batch_suffix then lookup n files else none)
unfolding pending_of lookup
lookup-pending_of n [] unique = ground arith
lookup-pending_of n ((k, b) ∷ files) (fresh, unique) =
    let rest = lookup-pending_of n files unique in
    let own = lookup-pending_of k files unique in
    let put = put_in_order-lookup n k b (pending_of files) in ground (arith, text_eq_iff n k)

pub pending_of-HasUniqueKeys :
    (files : Dict Batch) → HasUniqueKeys files → HasUniqueKeys (pending_of files)
unfolding pending_of
pending_of-HasUniqueKeys [] unique = tt
pending_of-HasUniqueKeys ((k, b) ∷ files) (fresh, unique) =
    let rest = pending_of-HasUniqueKeys files unique in
    let own = lookup-pending_of k files unique in
    ground (arith, put_in_order-HasUniqueKeys k b (pending_of files))

put_in_order-total_size :
    (k : Text) (b : Batch) (l : Dict Batch)
    → total_size (put_in_order (k, b) l) ≡ b.size + total_size l
unfolding put_in_order total_size
put_in_order-total_size k b [] = refl
put_in_order-total_size k b ((j, c) ∷ l) = ground (arith, put_in_order-total_size k b l)

-- The bytes of all pending batches.
unfoldable pub pending_total : Dict Batch → ℕ
pending_total files = total_size (pending_of files)

-- What a file counts for.
abbrev pub own_size : Text → Batch → ℕ
own_size k b = if has_suffix k batch_suffix then b.size else 0

pub pending_total-cons :
    (k : Text) (b : Batch) (files : Dict Batch)
    → pending_total ((k, b) ∷ files) ≡ own_size k b + pending_total files
unfolding pending_total pending_of
pending_total-cons k b files = ground (arith, put_in_order-total_size k b (pending_of files))

pub pending_total-erase_absent :
    (k : Text) (files : Dict Batch)
    → lookup k files ≡ none
    → pending_total (erase k files) ≡ pending_total files
unfolding erase lookup
pending_total-erase_absent k [] absent = refl
pending_total-erase_absent k ((j, c) ∷ files) absent = ground (
  arith,
  pending_total-erase_absent k files,
  pending_total-cons j c files,
  pending_total-cons j c (erase k files),
)

some-injective : (b c : Batch) → some b ≡ some c → b ≡ c
some-injective b c h = cc

pub pending_total-erase :
    (k : Text) (b : Batch) (files : Dict Batch)
    → HasUniqueKeys files
    → lookup k files ≡ some b
    → own_size k b + pending_total (erase k files) ≡ pending_total files
unfolding erase lookup
pending_total-erase k b [] unique found = cc
pending_total-erase k b ((j, c) ∷ files) (fresh, unique) found = elim (Bool-cases (text_eq k j)) [
  | inl here ↦
      let same : k ≡ j = (text_eq_iff k j).0 here in
      let absent : lookup k files ≡ none = ap (λ x. lookup x files) same ∙ fresh in
      let at_head : some c ≡ some b =
        ap (λ t. if t then some c else lookup k files) (sym here) ∙ found in
      let there : c ≡ b = some-injective c b at_head in
      let counted : own_size j c ≡ own_size k b =
        ap (λ n. own_size n c) (sym same) ∙ ap (own_size k) there in
      let gone = pending_total-erase_absent k files absent in
      let whole = pending_total-cons j c files in rw here (omega arith)
  | inr other ↦
      let found' : lookup k files ≡ some b =
        ap (λ t. if t then some c else lookup k files) (sym other) ∙ found in
      let rest = pending_total-erase k b files unique found' in
      let shorter = pending_total-cons j c (erase k files) in
      let whole = pending_total-cons j c files in rw other (omega arith)
]
