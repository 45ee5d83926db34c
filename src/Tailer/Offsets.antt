-- ===== src/Tailer/Offsets.antt =====
-- `CommitOffsets`: which offset every file has afterwards.
use centi_log.Base.{
  Option-cases, arith, false, if◌then◌else◌, inl, inr, ltb, none, some, ℕ, ◌≡◌, ◌≤◌, Bool-cases, [],
  max, ◌∷◌, sym, ◌∙◌, Bool, refl,
}
use centi_log.Dict.{Dict, lookup, lookup-insert, lookup-insert_self, HasUniqueKeys}
use centi_log.Tailer.{Tailer, commit_one, offset_of, commit_all, commit_offsets}
use centi_log.Text.{Text, text_eq}
use centi_log.Text.Equality.{text_eq_iff, text_eq_refl}

-- The offset of a file after a commit of `safe`: a file that was read again from its beginning goes
-- back, and any other goes forward or stays.
abbrev pub committed : Tailer → Dict ℕ → Text → ℕ
committed t safe_offsets path = elim (lookup path safe_offsets) [
  | none ↦ offset_of path t.offsets
  | some safe ↦
      if ltb (offset_of path t.read_offsets) (offset_of path t.offsets)
      then safe
      else max (offset_of path t.offsets) safe
]

commit_one-other :
    (t : Tailer) (path other : Text) (safe : ℕ) (candidate candidate' : Dict ℕ)
    → text_eq other path ≡ false
    → commit_one t path safe candidate ≡ some candidate'
    → offset_of other candidate' ≡ offset_of other candidate
unfolding commit_one
commit_one-other t path other safe candidate candidate' differ h =
    ground (arith, lookup-insert other path safe candidate)

commit_one_self :
    (t : Tailer) (path : Text) (safe : ℕ) (candidate candidate' : Dict ℕ)
    → commit_one t path safe candidate ≡ some candidate'
    → offset_of path candidate ≡ offset_of path t.offsets
    → (offset_of path candidate' ≡ (
        if ltb (offset_of path t.read_offsets) (offset_of path t.offsets)
        then safe
        else max (offset_of path t.offsets) safe))
      × (safe ≤ offset_of path t.read_offsets)
unfolding commit_one
commit_one_self t path safe candidate candidate' h same =
    ground (arith, lookup-insert_self path safe candidate)

commit_all-absent :
    (t : Tailer) (safe_offsets candidate final : Dict ℕ) (path : Text)
    → lookup path safe_offsets ≡ none
    → commit_all t safe_offsets candidate ≡ some final
    → offset_of path final ≡ offset_of path candidate
unfolding commit_all lookup
commit_all-absent t [] candidate final path absent h = ground arith
commit_all-absent t ((p, safe) ∷ rest) candidate final path absent h =
    elim (Option-cases (commit_one t p safe candidate)) [
      | inl invalid ↦ ground arith
      | inr (candidate', valid) ↦
          let other : text_eq path p ≡ false = ground arith in
          let behind : lookup path rest ≡ none = ground arith in
          let later : commit_all t rest candidate' ≡ some final = ground arith in
          commit_all-absent t rest candidate' final path behind later
          ∙ commit_one-other t p path safe candidate candidate' other valid
    ]

committed-cons :
    (t : Tailer) (p : Text) (safe : ℕ) (rest : Dict ℕ) (path : Text) {n : ℕ}
    → text_eq path p ≡ false
    → n ≡ committed t rest path
    → n ≡ committed t ((p, safe) ∷ rest) path
unfolding lookup
committed-cons t p safe rest path there h = rw (there, committed) h

committed_self :
    (t : Tailer) (p : Text) (safe : ℕ) (rest : Dict ℕ)
    → committed t ((p, safe) ∷ rest) p ≡ (
        if ltb (offset_of p t.read_offsets) (offset_of p t.offsets)
        then safe
        else max (offset_of p t.offsets) safe)
unfolding lookup
committed_self t p safe rest = rw (text_eq_refl p, committed)

commit_all-offset_of :
    (t : Tailer) (safe_offsets candidate final : Dict ℕ) (path : Text)
    → HasUniqueKeys safe_offsets
    → commit_all t safe_offsets candidate ≡ some final
    → offset_of path candidate ≡ offset_of path t.offsets
    → offset_of path final ≡ committed t safe_offsets path
unfolding commit_all
commit_all-offset_of t [] candidate final path unique h same = unfold lookup in ground arith
commit_all-offset_of t ((p, safe) ∷ rest) candidate final path (fresh, unique) h same =
    elim (Option-cases (commit_one t p safe candidate)) [
      | inl invalid ↦ ground arith
      | inr (candidate', valid) ↦
          let later : commit_all t rest candidate' ≡ some final = ground arith in
          elim (Bool-cases (text_eq path p)) [
            | inl here ↦
                let at_p : path ≡ p = (text_eq_iff path p).0 here in
                let kept = commit_all-absent t rest candidate' final p fresh later in
                let step = commit_one_self t p safe candidate candidate' valid (rw at_p at same) in
                rw at_p (kept ∙ step.0 ∙ sym (committed_self t p safe rest))
            | inr there ↦ committed-cons t p safe rest path there (
                commit_all-offset_of t rest candidate' final path unique later
                  (commit_one-other t p path safe candidate candidate' there valid ∙ same))
          ]
    ]

-- A commit that succeeds moves the offset of every file as `committed` says, and changes neither
-- the watched files nor the offsets up to which they were read.
pub commit_offsets-offset_of :
    (t t' : Tailer) (safe_offsets : Dict ℕ) (saved : Bool) (path : Text)
    → HasUniqueKeys safe_offsets
    → commit_offsets t safe_offsets saved ≡ some t'
    → (offset_of path t'.offsets ≡ committed t safe_offsets path)
      × (t'.files ≡ t.files)
      × (t'.read_offsets ≡ t.read_offsets)
unfolding commit_offsets
commit_offsets-offset_of t t' safe_offsets saved path unique h =
    elim (Option-cases (commit_all t safe_offsets t.offsets)) [
      | inl invalid ↦ ground arith
      | inr (candidate, valid) ↦
          let all =
            commit_all-offset_of t safe_offsets t.offsets candidate path unique valid refl in
          ground arith
    ]

commit_one-within :
    (t : Tailer) (path : Text) (safe : ℕ) (candidate candidate' : Dict ℕ)
    → commit_one t path safe candidate ≡ some candidate'
    → safe ≤ offset_of path t.read_offsets
unfolding commit_one
commit_one-within t path safe candidate candidate' h = ground arith

commit_all-within :
    (t : Tailer) (safe_offsets candidate final : Dict ℕ) (path : Text) (safe : ℕ)
    → lookup path safe_offsets ≡ some safe
    → commit_all t safe_offsets candidate ≡ some final
    → safe ≤ offset_of path t.read_offsets
unfolding commit_all lookup
commit_all-within t [] candidate final path safe found h = cc
commit_all-within t ((p, n) ∷ rest) candidate final path safe found h =
    elim (Option-cases (commit_one t p n candidate)) [
      | inl invalid ↦ ground arith
      | inr (candidate', valid) ↦ elim (Bool-cases (text_eq path p)) [
        | inl here ↦
            let at_p : path ≡ p = (text_eq_iff path p).0 here in
            let same : n ≡ safe = ground arith in
            rw (at_p, ← same) (commit_one-within t p n candidate candidate' valid)
        | inr there ↦
            commit_all-within t rest candidate' final path safe (ground arith) (ground arith)
      ]
    ]

-- A file whose committed offset is not above what was read of it stays so: a commit never passes
-- what was read.
pub commit_offsets-le-read :
    (t t' : Tailer) (safe_offsets : Dict ℕ) (saved : Bool) (path : Text)
    → HasUniqueKeys safe_offsets
    → commit_offsets t safe_offsets saved ≡ some t'
    → offset_of path t.offsets ≤ offset_of path t.read_offsets
    → offset_of path t'.offsets ≤ offset_of path t'.read_offsets
unfolding commit_offsets
commit_offsets-le-read t t' safe_offsets saved path unique h below =
    let (moved, files, read) = commit_offsets-offset_of t t' safe_offsets saved path unique h in
    elim (Option-cases (commit_all t safe_offsets t.offsets)) [
      | inl invalid ↦ ground arith
      | inr (candidate, valid) ↦ elim (Option-cases (lookup path safe_offsets)) [
        | inl absent ↦ rw (moved, read) (rw (absent, committed) below)
        | inr (safe, found) ↦
            let within =
              commit_all-within t safe_offsets t.offsets candidate path safe found valid in
            rw (moved, read) (rw (found, committed) (ground arith))
      ]
    ]
