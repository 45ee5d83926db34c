-- ===== src/Tailer/Lines.antt =====
-- Reading complete lines: a file that grows gives, over several polls, the lines of a single read.
use mathlib.Core.List.{append_assoc, reverse-cons, append-nil}
use centi_log.Base.{
  All, Bool-cases, List, [], ap, false, if◌then◌else◌, inl, inr, length, refl, reverse, ℕ, ◌++◌,
  ◌+◌, ◌==◌, ◌∷◌, ◌≡◌, arith, drop, true, ◌∙◌, ◌≤◌, drop-append, drop-append_le, length-reverse,
  suc, sym,
}
use centi_log.Tailer.{FileConfig, FileLine, complete_lines, without_return}
use centi_log.Text.{Text}

-- What of a text is left behind its last newline, from its last byte on.
unfinished : Text → Text → Text
unfinished back [] = back
unfinished back (b ∷ rest) = unfinished (if b == 10 then [] else b ∷ back) rest

abbrev HasNoNewline : Text → Type 0
HasNoNewline back = All (λ b. (b == 10) ≡ false) back

unfinished-HasNoNewline :
    (back rest : Text) → HasNoNewline back → HasNoNewline (unfinished back rest)
unfolding unfinished
unfinished-HasNoNewline back [] h = h
unfinished-HasNoNewline back (b ∷ rest) h = elim (Bool-cases (b == 10)) [
  | inl newline ↦ rw newline (unfinished-HasNoNewline [] rest tt)
  | inr other ↦ rw other (unfinished-HasNoNewline (b ∷ back) rest (other, h))
]

module _ (file : FileConfig) where
  abbrev line_at : ℕ → Text → FileLine
  line_at position back = record {
    file = file;
    text = without_return back;
    end_offset = position + length back + 1;
  }

  -- A result with lines in front of it.
  abbrev pub behind : List FileLine → List FileLine × ℕ → List FileLine × ℕ
  behind lines (more, final) = (lines ++ more, final)

  at_newline :
      (position : ℕ) (back rest : Text) (b : ℕ)
      → (b == 10) ≡ true
      → complete_lines file position back (b ∷ rest)
        ≡ behind
            (line_at position back ∷ [])
            (complete_lines file (position + length back + 1) [] rest)
  unfolding complete_lines
  at_newline position back rest b newline = rw newline

  at_other :
      (position : ℕ) (back rest : Text) (b : ℕ)
      → (b == 10) ≡ false
      → complete_lines file position back (b ∷ rest) ≡ complete_lines file position (b ∷ back) rest
  unfolding complete_lines
  at_other position back rest b other = rw other

  lines-append :
      (position : ℕ) (back x y : Text)
      → complete_lines file position back (x ++ y)
        ≡ behind
            (complete_lines file position back x).0
            (complete_lines file (complete_lines file position back x).1 (unfinished back x) y)
  unfolding unfinished
  lines-append position back [] y = unfold complete_lines in refl
  lines-append position back (b ∷ x) y = elim (Bool-cases (b == 10)) [
    | inl newline ↦
        rw
          (
            at_newline position back (x ++ y) b newline,
            at_newline position back x b newline,
            newline,
          )
          (ap (behind (line_at position back ∷ []))
            (lines-append (position + length back + 1) [] x y))
    | inr other ↦
        rw (at_other position back (x ++ y) b other, at_other position back x b other, other)
          (lines-append position (b ∷ back) x y)
  ]

  -- Bytes that hold no newline may as well be read again.
  read_again :
      (position : ℕ) (back rest : Text)
      → HasNoNewline back
      → complete_lines file position [] (reverse back ++ rest)
        ≡ complete_lines file position back rest
  read_again position [] rest h = refl
  read_again position (b ∷ back) rest (other, h) =
      rw (reverse-cons b back, append_assoc (reverse back) (b ∷ []) rest)
        (read_again position back (b ∷ rest) h ∙ at_other position back rest b other)

  drop_past :
      (back rest : Text) (b n : ℕ)
      → drop (length back + 1 + n) (reverse back ++ b ∷ rest) ≡ drop n rest
  drop_past back rest b n =
      let size : length back + 1 + n ≡ length (reverse back) + suc n =
        omega (arith, length-reverse back) in
      rw size (drop-append (reverse back) (b ∷ rest) (suc n))

  -- The position is behind the last newline: the bytes from there on are the unfinished ones.
  final-drop :
      (position : ℕ) (back rest : Text)
      → (n : ℕ) × ((complete_lines file position back rest).1 ≡ position + n)
        × (n ≤ length back + length rest)
        × (drop n (reverse back ++ rest) ≡ reverse (unfinished back rest))
  unfolding unfinished
  final-drop position back [] =
      (0, unfold complete_lines in omega arith, omega arith, append-nil (reverse back))
  final-drop position back (b ∷ rest) = elim (Bool-cases (b == 10)) [
    | inl newline ↦
        let (n, final, le, left) = final-drop (position + length back + 1) [] rest in
        (
          length back + 1 + n,
          rw (at_newline position back rest b newline) (omega arith),
          omega arith,
          rw newline (drop_past back rest b n ∙ left),
        )
    | inr other ↦
        let (n, final, le, left) = final-drop position (b ∷ back) rest in
        (
          n,
          rw (at_other position back rest b other) final,
          omega arith,
          rw other (
              ap (drop n) (
                sym (append_assoc (reverse back) (b ∷ []) rest)
                ∙ ap (λ t. t ++ rest) (sym (reverse-cons b back)))
              ∙ left),
        )
  ]

-- Reading a file that has grown, from the position where the last read stopped, gives exactly the
-- lines, with their end offsets, that one read of the whole would have given behind those of the
-- last read, and stops where it would have stopped.
pub complete_lines-append :
    (file : FileConfig) (before after : Text)
    → let first = complete_lines file 0 [] before in
      let second = complete_lines file first.1 [] (drop first.1 (before ++ after)) in
      complete_lines file 0 [] (before ++ after) ≡ (first.0 ++ second.0, second.1)
complete_lines-append file before after =
    let (n, final, le, left) = final-drop file 0 [] before in
    let position = (complete_lines file 0 [] before).1 in
    let same : position ≡ n = omega arith in
    let cut : drop position (before ++ after) ≡ reverse (unfinished [] before) ++ after =
      ap (λ k. drop k (before ++ after)) same
      ∙ drop-append_le n before after (omega arith)
      ∙ ap (λ t. t ++ after) left in
    let again =
      read_again file position (unfinished [] before) after
        (unfinished-HasNoNewline [] before tt) in
    lines-append file 0 [] before after
    ∙ ap (behind file (complete_lines file 0 [] before).0)
        (sym again ∙ ap (complete_lines file position []) (sym cut))
