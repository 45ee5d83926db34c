-- ===== src/Redact/Cards.antt =====
-- `redactCardNumbers`: the loop that edits the message from its end is the replacement of every
-- match by its own decision on the original message.
use mathlib.Core.List.{reverse-cons, append_assoc}
use mathlib.Core.Path.{◌≡⟨◌⟩◌, ◌∎}
use centi_log.Base.{
  List, [], arith, if◌then◌else◌, refl, ◌++◌, ◌<◌, ◌==◌, ◌||◌, ◌∷◌, ◌≡◌, Bool, ap, drop,
  drop-length, false, get_or, get_or-append_lt, length, ltb, suc, zero, ℕ, ◌&&◌, ◌-◌,
  drop-append_le, length-drop, sym, take, take-append_le, take-length, take-append-drop, true,
  Bool-cases, inl, inr, length-take, ltb→lt, reverse, ◌∙◌, take-take, ◌+◌, ◌≤◌,
}
use centi_log.Redact.{
  is_ascii_digit, mask, passes_luhn, redact_card, redact_cards, touches_digit, redact_card_numbers,
}
use centi_log.Redact.Patterns.{card_number_pattern}
use centi_log.Regex.{
  empty, byte, seq, alt, Cursor, Match, slice, replace_from, find_all, replace_all,
}
use centi_log.Regex.Build.{range}
use centi_log.Regex.Endings.{EndsIn, Run-byte, Run-index-le, Run-seq, Run-times, Run-up_to}
use centi_log.Regex.Matches.{InOrder, IsMatch, Run-IsAt, find_all-InOrder}
use centi_log.Regex.Runs.{Run}
use centi_log.Sender.{run}
use centi_log.Text.{Text}

-- A run of the card pattern takes at least one byte, and ends behind a digit.
card_run :
    (c d : Cursor) → Run card_number_pattern c d → EndsIn is_ascii_digit d × (c.index < d.index)
unfolding card_number_pattern
card_run c d run =
    let (e, first, others) = Run-seq run in
    let (f, twelve, six) = Run-seq others in
    let (digit, ahead) = Run-byte first in
    let group_ends : (c d : Cursor)
        → Run (seq (alt (byte (λ b. b == b' ' || b == b'-')) empty) (byte (range b'0' b'9'))) c d
        → EndsIn (range b'0' b'9') d =
      λ c d run. (Run-byte (Run-seq run).2).0 in
    let middle = Run-times _ _ group_ends 12 twelve digit in
    (Run-up_to _ _ group_ends 6 six middle, omega (arith, Run-index-le others))

-- What happens to one match, as a decision on the original message.
pub card_replacement : Text → Match → Text
card_replacement s m =
    if touches_digit s m.start m.end
    then slice s m.start m.end
    else if passes_luhn (slice s m.start m.end)
    then mask
    else slice s m.start m.end

redact_cards-append :
    (xs : List Match) (m : Match) (t : Text)
    → redact_cards (xs ++ m ∷ []) t ≡ redact_card m (redact_cards xs t)
unfolding redact_cards
redact_cards-append [] m t = refl
redact_cards-append (x ∷ xs) m t = redact_cards-append xs m (redact_card x t)

-- Does a text begin with a digit?
abbrev digit_ahead : Text → Bool
digit_ahead [] = false
digit_ahead (b ∷ t) = is_ascii_digit b

digit_at :
    (n : ℕ) (t : Text)
    → (ltb n (length t) && is_ascii_digit (get_or t n 0)) ≡ digit_ahead (drop n t)
digit_at zero [] = refl
digit_at (suc n) [] = ground arith
digit_at zero (b ∷ t) = ground arith
digit_at (suc n) (b ∷ t) = ground (arith, digit_at n t)

-- `touches_digit` at the end of `front`, with `back` behind it.
abbrev touching : Text → Text → ℕ → Bool
touching front back start =
    (ltb 0 start && is_ascii_digit (get_or front (start - 1) 0)) || digit_ahead back

touches_digit-split :
    (front back : Text) (start : ℕ)
    → start < length front
    → touches_digit (front ++ back) start (length front) ≡ touching front back start
unfolding touches_digit
touches_digit-split front back start h =
    let before = get_or-append_lt front back (start - 1) 0 (omega arith) in
    let after = digit_at (length front) (front ++ back) in
    let cut = ap digit_ahead (drop-length front back) in rw (before, after, cut)

slice-split :
    (front back : Text) (start : ℕ)
    → start < length front
    → slice (front ++ back) start (length front) ≡ drop start front
slice-split front back start h =
    let gone = drop-append_le start front back (omega arith) in
    let size : length front - start ≡ length (drop start front) = sym (length-drop start front) in
    rw (gone, size) (take-length (drop start front) back)

-- A round of the loop on a message that is cut behind the match.
redact_card-split :
    (front back : Text) (m : Match)
    → m.end ≡ length front
    → m.start < m.end
    → redact_card m (front ++ back) ≡ (
        if touching front back m.start
        then front ++ back
        else if passes_luhn (drop m.start front)
        then take m.start front ++ (mask ++ back)
        else front ++ back)
unfolding redact_card
redact_card-split front back m e h = rw e (
    rw
      (
        touches_digit-split front back m.start (omega arith),
        slice-split front back m.start (omega arith),
      )
      (rw (take-append_le m.start front back (omega arith), drop-length front back)))

card_replacement-split :
    (front back : Text) (m : Match)
    → m.end ≡ length front
    → m.start < m.end
    → card_replacement (front ++ back) m ≡ (
        if touching front back m.start
        then drop m.start front
        else if passes_luhn (drop m.start front)
        then mask
        else drop m.start front)
unfolding card_replacement
card_replacement-split front back m e h = rw e (
    rw (
      touches_digit-split front back m.start (omega arith),
      slice-split front back m.start (omega arith),
    ))

-- The two sides of a round, for the two tests that it makes.
decided :
    (touching passing : Bool) (start : ℕ) (front back : Text)
    → (if touching
        then front ++ back
        else if passing
        then take start front ++ (mask ++ back)
        else front ++ back)
      ≡ take start front
        ++ ((if touching then drop start front else if passing then mask else drop start front)
            ++ back)
decided true passing start front back =
    rw (← append_assoc (take start front) (drop start front) back, take-append-drop start front)
decided false true start front back = refl
decided false false start front back =
    rw (← append_assoc (take start front) (drop start front) back, take-append-drop start front)

round :
    (front back original : Text) (m : Match)
    → m.end ≡ length front
    → m.start < m.end
    → digit_ahead back ≡ digit_ahead original
    → redact_card m (front ++ back)
      ≡ take m.start front ++ (card_replacement (front ++ original) m ++ back)
round front back original m e h same =
    let test : touching front back m.start ≡ touching front original m.start = rw same in
    rw (redact_card-split front back m e h, card_replacement-split front original m e h)
      (rw test (
        decided (touching front original m.start) (passes_luhn (drop m.start front)) m.start front
          back))

head_of_take :
    (n : ℕ) (t back : Text) → 0 < n → 0 < length t → digit_ahead (take n t ++ back) ≡ digit_ahead t
head_of_take zero t back h k = absurd (omega arith)
head_of_take (suc n) [] back h k = elim k [ ]
head_of_take (suc n) (b ∷ t) back h k = refl

head_of_slice :
    (s : Text) (i j : ℕ) (back : Text)
    → i < j
    → i < length s
    → digit_ahead (slice s i j ++ back) ≡ digit_ahead (drop i s)
head_of_slice s i j back h k =
    head_of_take (j - i) (drop i s) back (omega arith) (omega (arith, length-drop i s))

-- A match behind a digit is left as it is.
touching_match :
    (s : Text) (m : Match)
    → 0 < m.start
    → is_ascii_digit (get_or s (m.start - 1) 0) ≡ true
    → card_replacement s m ≡ slice s m.start m.end
unfolding card_replacement touches_digit
touching_match s m h digit =
    let positive : ltb 0 m.start ≡ true = ground arith in rw (positive, digit)

module _ (s : Text) where
  abbrev Ordered : ℕ → List Match → Type 0
  Ordered from ms = InOrder card_number_pattern s from ms

  -- The byte before the end of a match is a digit.
  digit_before_end :
      (m : Match) → IsMatch card_number_pattern s m → is_ascii_digit (get_or s (m.end - 1) 0) ≡ true
  digit_before_end m found =
      let ((b, before, digit), ahead) = card_run found.from found.to found.run in
      let at_end = Run-IsAt s found.run found.placed in
      let byte_there = at_end.0.behind b before in rw (← found.ends) (rw byte_there digit)

  -- What follows a match begins with a digit exactly where the original does: a match that begins
  -- at once touches the last digit of this one, and is left as it is.
  head_kept :
      (from : ℕ) (ms : List Match)
      → is_ascii_digit (get_or s (from - 1) 0) ≡ true
      → 0 < from
      → Ordered from ms
      → digit_ahead (replace_from card_replacement s from ms) ≡ digit_ahead (drop from s)
  unfolding replace_from
  head_kept from [] digit pos ordered = refl
  head_kept from (m ∷ ms) digit pos (le, lt, inside, found, rest) =
      let later = replace_from card_replacement s m.end ms in
      elim (Bool-cases (ltb from m.start)) [
        | inl gap ↦
            head_of_slice s from m.start (card_replacement s m ++ later) (ltb→lt _ _ gap)
              (omega arith)
        | inr adjacent ↦
            let same : m.start ≡ from = ground arith in
            let none_between : m.start - from ≡ 0 = omega arith in
            let digit_there : is_ascii_digit (get_or s (m.start - 1) 0) ≡ true = rw same digit in
            rw (none_between, touching_match s m (omega arith) digit_there)
              (head_of_slice s m.start m.end later lt (omega arith)
                ∙ ap (λ n. digit_ahead (drop n s)) same)
      ]

  -- What lies before a match, with and without the cut behind it.
  before_match :
      (from : ℕ) (m : Match) (back : Text)
      → from ≤ m.start
      → m.start < m.end
      → m.end ≤ length s
      → take m.start (take m.end s) ++ back ≡ take from s ++ (slice s from m.start ++ back)
  before_match from m back le lt inside =
      let size = length-take m.end s in
      let short : take m.start s ≡ take m.start (take m.end s) =
        ap (take m.start) (sym (take-append-drop m.end s))
        ∙ take-append_le m.start (take m.end s) (drop m.end s) (omega arith) in
      let sum : from + (m.start - from) ≡ m.start = omega arith in
      let pieces : take from s ++ slice s from m.start ≡ take m.start s =
        take-take from (m.start - from) s ∙ ap (λ n. take n s) sum in
      ap (λ t. t ++ back) (sym short ∙ sym pieces)
      ∙ append_assoc (take from s) (slice s from m.start) back

  loop :
      (from : ℕ) (ms : List Match)
      → Ordered from ms
      → redact_cards (reverse ms) s ≡ take from s ++ replace_from card_replacement s from ms
  unfolding replace_from
  loop from [] ordered = unfold redact_cards in sym (take-append-drop from s)
  loop from (m ∷ ms) (le, lt, inside, found, rest) =
      let front = take m.end s in
      let later = replace_from card_replacement s m.end ms in
      let size : m.end ≡ length front = omega (arith, length-take m.end s) in
      let kept = head_kept m.end ms (digit_before_end m found) (omega arith) rest in
      let step = round front later (drop m.end s) m size lt kept in
      let whole : card_replacement (front ++ drop m.end s) m ≡ card_replacement s m =
        ap (λ t. card_replacement t m) (take-append-drop m.end s) in
      redact_cards (reverse (m ∷ ms)) s
      ≡⟨ ap (λ l. redact_cards l s) (reverse-cons m ms) ⟩ redact_cards (reverse ms ++ m ∷ []) s
      ≡⟨ redact_cards-append (reverse ms) m s ⟩ redact_card m (redact_cards (reverse ms) s)
      ≡⟨ ap (redact_card m) (loop m.end ms rest) ⟩ redact_card m (front ++ later)
      ≡⟨ step ⟩ take m.start front ++ (card_replacement (front ++ drop m.end s) m ++ later)
      ≡⟨ ap (λ t. take m.start front ++ (t ++ later)) whole ⟩
        take m.start front ++ (card_replacement s m ++ later)
      ≡⟨ before_match from m (card_replacement s m ++ later) le lt inside ⟩
        take from s ++ (slice s from m.start ++ (card_replacement s m ++ later)) ∎

-- The loop of `redactCardNumbers`, which edits the message from its last match on and looks at the
-- edited text, replaces every match by what the original message says of it: by the mask if no
-- digit stands before or behind it and it passes the checksum, and by itself otherwise.
pub redact_card_numbers-replace_all :
    (message : Text)
    → redact_card_numbers message ≡ replace_all card_number_pattern card_replacement message
unfolding redact_card_numbers replace_all
redact_card_numbers-replace_all message =
    loop message 0 (find_all card_number_pattern message)
      (find_all-InOrder card_number_pattern (λ c d run. (card_run c d run).1) message)
