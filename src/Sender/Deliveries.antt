-- ===== src/Sender/Deliveries.antt =====
-- What a round of the sender does to the batches of the store.
use mathlib.Core.Path.{subst}
use centi_log.Base.{
  ℕ, [], ◌∷◌, ◌≡◌, none, some, ok, inl, inr, true, false, Bool, Option, arith, refl, ◌==◌, ◌||◌,
  ◌≢◌, ◌⊎◌, ap, if◌then◌else◌, sym, ◌&&◌, ◌∙◌, ◌≤◌,
}
use centi_log.Buffer.{Batch, BatchStore, delete_claim, move_to_failed, unclaim, Disk, pending_of}
use centi_log.Buffer.Claims.{claim, claim_oldest-first, claimed_store, given_back-lookup}
use centi_log.Buffer.Pending.{pending_total}
use centi_log.Buffer.Returns.{
  delete_claim-deleted, erased-lookup, move_to_failed-moved, unclaim-returned,
}
use centi_log.Dict.{Dict, HasUniqueKeys, lookup, lookup-insert}
use centi_log.Sender.{
  answered, open_failed, no_response, request_failed, send_failed, send_succeeded, send_retry,
  send_rate_limited, Sender, SendResult, Round, Exchange, SendDisposition, check_server_clock,
  disposition_of, give_back, run_claimed, send_batch, settle, run_round,
}
use centi_log.Text.{Text, codes, text_eq}

-- Did the server take the batch?
abbrev pub accepted : Exchange → Bool
accepted (answered status date retry_after) = status == 202
accepted open_failed = false
accepted request_failed = false
accepted no_response = false

-- Did the server refuse the batch for good?
abbrev pub rejected : Exchange → Bool
rejected (answered status date retry_after) = status == 400 || status == 413
rejected open_failed = false
rejected request_failed = false
rejected no_response = false

-- The disposition that goes with an answer.
abbrev Fate : Exchange → SendDisposition → Type 0
Fate e d =
    ((accepted e ≡ true) × (rejected e ≡ false) × (d ≡ send_succeeded))
    ⊎ ((accepted e ≡ false) × (rejected e ≡ true) × (d ≡ send_failed))
    ⊎ ((accepted e ≡ false) × (rejected e ≡ false) × ((d ≡ send_retry) ⊎ (d ≡ send_rate_limited)))

module _ (parse_time : Text → Option ℕ) where
  check_server_clock-store :
      (s : Sender) (date : Text) (now : ℕ)
      → (check_server_clock parse_time s date now).store ≡ s.store
  unfolding check_server_clock
  check_server_clock-store s [] now = refl
  check_server_clock-store s (b ∷ rest) now = ground arith

  send_batch-store :
      (s : Sender) (e : Exchange) (now : ℕ) → (send_batch parse_time s e now).0.store ≡ s.store
  unfolding send_batch
  send_batch-store s open_failed now = refl
  send_batch-store s request_failed now = refl
  send_batch-store s no_response now = refl
  send_batch-store s (answered status date retry_after) now = check_server_clock-store s date now

  disposition-Fate :
      (status now : ℕ) (date retry_after : Text)
      → Fate
          (answered status date retry_after)
          (disposition_of parse_time status retry_after now).disposition
  unfolding disposition_of
  disposition-Fate status now date retry_after = ground arith

  send_batch-Fate :
      (s : Sender) (e : Exchange) (now : ℕ) → Fate e (send_batch parse_time s e now).1.disposition
  unfolding send_batch
  send_batch-Fate s open_failed now = inr (inr (refl, refl, inl refl))
  send_batch-Fate s request_failed now = inr (inr (refl, refl, inl refl))
  send_batch-Fate s no_response now = inr (inr (refl, refl, inl refl))
  send_batch-Fate s (answered status date retry_after) now =
      disposition-Fate status now date retry_after

module _ (s : Sender) (delay : ℕ) (claimed : Text) (round : Round) (result : SendResult) where
  settle_deleted :
      (store : BatchStore)
      → result.disposition ≡ send_succeeded
      → delete_claim s.store claimed round.settling ≡ (store, ok tt)
      → (settle s delay claimed round result).sender.store ≡ store
  unfolding settle
  settle_deleted store d done = ground arith

  settle_moved :
      (store : BatchStore)
      → result.disposition ≡ send_failed
      → move_to_failed s.store claimed round.settling ≡ (store, ok tt)
      → (settle s delay claimed round result).sender.store ≡ store
  unfolding settle
  settle_moved store d done = ground arith

  settle_returned :
      (store : BatchStore)
      → (result.disposition ≡ send_retry) ⊎ (result.disposition ≡ send_rate_limited)
      → unclaim s.store claimed round.unclaiming ≡ (store, ok tt)
      → (settle s delay claimed round result).sender.store ≡ store
  unfolding settle give_back
  settle_returned store d done = ground arith

claim-not_empty : (n : Text) → claim n ≢ []
unfolding codes
claim-not_empty [] h = cc
claim-not_empty (b ∷ n) h = cc

run_claimed_ok :
    (parse_time : Text → Option ℕ) (s : Sender) (delay : ℕ) (round : Round) (claimed : Text)
    → claimed ≢ []
    → let sent = send_batch parse_time s round.exchange round.now in
      run_claimed parse_time s delay round (ok claimed) ≡ settle sent.0 delay claimed round sent.1
unfolding run_claimed
run_claimed_ok parse_time s delay round [] h = absurd (h refl)
run_claimed_ok parse_time s delay round (b ∷ rest) h = refl

-- What a file and a failed batch are after a round on the batch `n`.
abbrev pub Delivered : BatchStore → BatchStore → Exchange → Text → Batch → Text → Type 0
Delivered before after e n b x =
    (lookup x after.files
      ≡ (if text_eq x n && (accepted e || rejected e) then none else lookup x before.files))
    × (lookup x after.failed
        ≡ (if text_eq x n && rejected e then some b else lookup x before.failed))

module _ (s : BatchStore) (n : Text) (b : Batch) (rest : Dict Batch) (disk : Disk)
    (lists : disk.lists ≡ true) (renames : (y : Text) → disk.renames y ≡ true)
    (oldest : pending_of s.files ≡ (n, b) ∷ rest) (unique : HasUniqueKeys s.files)
    (free : lookup (claim n) s.files ≡ none) (within : pending_total s.files ≤ s.max_bytes) where
  abbrev now_claimed : BatchStore
  now_claimed = claimed_store s n b rest disk lists renames oldest unique

  settle-Delivered :
      (sender : Sender) (delay : ℕ) (round : Round) (result : SendResult) (e : Exchange) (x : Text)
      → sender.store ≡ now_claimed
      → round.settling.removes (claim n) ≡ true
      → round.settling.renames (claim n) ≡ true
      → round.unclaiming.renames (claim n) ≡ true
      → Fate e result.disposition
      → Delivered s (settle sender delay (claim n) round result).sender.store e n b x
  settle-Delivered sender delay round result e x same removes moves returns
        (inl (taken, not_rejected, d)) =
      let deleted =
        ap (λ t. delete_claim t (claim n) round.settling) same
        ∙ delete_claim-deleted s n b rest disk lists renames oldest unique free round.settling
            removes in
      let after = settle_deleted sender delay (claim n) round result _ d deleted in
      let erased = erased-lookup s n b rest disk lists renames oldest unique free x in
      rw after (ground arith)
  settle-Delivered sender delay round result e x same removes moves returns
        (inr (inl (not_taken, refused, d))) =
      let moved =
        ap (λ t. move_to_failed t (claim n) round.settling) same
        ∙ move_to_failed-moved s n b rest disk lists renames oldest unique free round.settling
            moves in
      let after = settle_moved sender delay (claim n) round result _ d moved in
      let erased = erased-lookup s n b rest disk lists renames oldest unique free x in
      let put = lookup-insert x n b s.failed in rw after (ground arith)
  settle-Delivered sender delay round result e x same removes moves returns
        (inr (inr (not_taken, not_rejected, d))) =
      let returned =
        ap (λ t. unclaim t (claim n) round.unclaiming) same
        ∙ unclaim-returned s n b rest disk lists renames oldest unique free round.unclaiming returns
            within in
      let after = settle_returned sender delay (claim n) round result _ d returned in
      let back = given_back-lookup s n b rest disk lists renames oldest unique free x in
      rw after (ground arith)

-- A round takes the oldest batch, and while the directory works and the pending batches are within
-- the limit: that batch leaves the store only if the server accepted it or refused it for good, and
-- is then, in the second case and no other, among the failed ones; whatever else the server or the
-- network answers, every file is as it was. No other file and no other failed batch changes.
pub run_round-Delivered :
    (parse_time : Text → Option ℕ) (s : Sender) (delay : ℕ) (round : Round) (n : Text) (b : Batch)
    (rest : Dict Batch) (x : Text)
    → round.claiming.lists ≡ true
    → ((y : Text) → round.claiming.renames y ≡ true)
    → round.settling.removes (claim n) ≡ true
    → round.settling.renames (claim n) ≡ true
    → round.unclaiming.renames (claim n) ≡ true
    → pending_of s.store.files ≡ (n, b) ∷ rest
    → HasUniqueKeys s.store.files
    → lookup (claim n) s.store.files ≡ none
    → pending_total s.store.files ≤ s.store.max_bytes
    → Delivered s.store (run_round parse_time s delay round).sender.store round.exchange n b x
unfolding run_round
run_round-Delivered parse_time s delay round n b rest x lists renames removes moves returns oldest
      unique free within =
    let disk = round.claiming in
    let first = claim_oldest-first s.store n b rest disk lists renames oldest unique in
    let store = claimed_store s.store n b rest disk lists renames oldest unique in
    let sender : Sender = record s { store = store } in
    let sent = send_batch parse_time sender round.exchange round.now in
    let turn =
      ap (λ q. run_claimed parse_time (record s { store = q.0 }) delay round q.1) first
      ∙ run_claimed_ok parse_time sender delay round (claim n) (claim-not_empty n) in
    subst (λ t. Delivered s.store t.sender.store round.exchange n b x) (sym turn)
      (settle-Delivered s.store n b rest disk lists renames oldest unique free within sent.0 delay
        round sent.1 round.exchange x (send_batch-store parse_time sender round.exchange round.now)
        removes moves returns (send_batch-Fate parse_time sender round.exchange round.now))
