-- ===== src/Stacks/Joined.antt =====
-- No byte of a watched file is lost, repeated or moved by the assembler.
use mathlib.Core.List.{append_assoc, append-nil}
use centi_log.Base.{
  Bool-cases, List, Option-cases, [], arith, if◌then◌else◌, inl, inr, none, refl, some, ℕ, ◌++◌,
  ◌∷◌, ◌≡◌, ap, map, sym, ◌∙◌,
}
use centi_log.Dict.{lookup, lookup-insert}
use centi_log.Stacks.{StackAssembler, add, extend, is_stack_continuation, keep}
use centi_log.Tailer.{FileLine}
use centi_log.Text.{Text, text_eq}
use centi_log.Text.Equality.{text_eq_iff}

-- The lines of one file, each with its newline.
unfoldable pub stream : Text → List FileLine → Text
stream path [] = []
stream path (line ∷ lines) =
    if text_eq path line.file.path then line.text ++ (10 ∷ stream path lines) else stream path lines

-- What is still held back of a file.
abbrev pub held : Text → StackAssembler → Text
held path a = elim (lookup path a.pending) [ none ↦ [] | some line ↦ line.text ++ 10 ∷ [] ]

-- A line that is held back is one of the file under whose name it is held.
pub record IsKeyed (a : StackAssembler) : Type 0 where
  pub same_path :
      (path : Text) (line : FileLine) → lookup path a.pending ≡ some line → line.file.path ≡ path

keep-IsKeyed :
    (a : StackAssembler) (path : Text) (line : FileLine) (now : ℕ)
    → line.file.path ≡ path
    → IsKeyed a
    → IsKeyed (keep a path line now)
keep-IsKeyed a path line now same h = record {
  same_path = λ p l found.
      ground (arith, lookup-insert p path line a.pending, text_eq_iff p path, h.same_path p l);
}

pub add-IsKeyed :
    (a : StackAssembler) (line : FileLine) (now : ℕ) → IsKeyed a → IsKeyed (add a line now).0
unfolding add
add-IsKeyed a line now h = elim (Bool-cases (is_stack_continuation line.text)) [
  | inl more ↦ elim (Option-cases (lookup line.file.path a.pending)) [
    | inl absent ↦ rw (more, absent) h
    | inr (previous, found) ↦
        rw (more, found)
          (keep-IsKeyed a line.file.path (extend previous line) now
            (h.same_path line.file.path previous found) h)
  ]
  | inr fresh ↦ elim (Option-cases (lookup line.file.path a.pending)) [
    | inl absent ↦ rw (fresh, absent) (keep-IsKeyed a line.file.path line now refl h)
    | inr (previous, found) ↦ rw (fresh, found) (keep-IsKeyed a line.file.path line now refl h)
  ]
]

stream_one :
    (path : Text) (line : FileLine)
    → stream path (line ∷ []) ≡ (if text_eq path line.file.path then line.text ++ 10 ∷ [] else [])
unfolding stream
stream_one path line = refl

held-keep :
    (p : Text) (a : StackAssembler) (path : Text) (line : FileLine) (now : ℕ)
    → held p (keep a path line now) ≡ (if text_eq p path then line.text ++ 10 ∷ [] else held p a)
held-keep p a path line now = ground (arith, lookup-insert p path line a.pending)

joined : (x y : Text) → (x ++ (10 ∷ y)) ++ 10 ∷ [] ≡ (x ++ 10 ∷ []) ++ (y ++ 10 ∷ [])
joined x y = simp append_assoc

-- Adding a line to what is held back of a file.
abbrev Adds : Text → StackAssembler → FileLine → StackAssembler × List FileLine → Type 0
Adds p a line r = stream p r.1 ++ held p r.0 ≡ held p a ++ stream p (line ∷ [])

module _ (p : Text) (a : StackAssembler) (line : FileLine) (now : ℕ) where
  abbrev own : Text
  own = line.file.path

  Adds-first : lookup own a.pending ≡ none → Adds p a line (keep a own line now, [])
  unfolding stream
  Adds-first absent =
      rw (stream_one p line, held-keep p a own line now)
        (elim (Bool-cases (text_eq p own)) [
          | inl here ↦
              let at_own : p ≡ own = (text_eq_iff p own).0 here in
              let none_held : lookup p a.pending ≡ none =
                ap (λ k. lookup k a.pending) at_own ∙ absent in
              rw (here, none_held, held) refl
          | inr there ↦ rw (there, append-nil (held p a)) refl
        ])

  Adds-alone : lookup own a.pending ≡ none → Adds p a line (a, line ∷ [])
  Adds-alone absent = rw (stream_one p line) (elim (Bool-cases (text_eq p own)) [
    | inl here ↦
        let at_own : p ≡ own = (text_eq_iff p own).0 here in
        let none_held : lookup p a.pending ≡ none = ap (λ k. lookup k a.pending) at_own ∙ absent in
        rw (here, none_held, held) (append-nil (line.text ++ 10 ∷ []))
    | inr there ↦ rw (there, append-nil (held p a)) refl
  ])

  Adds-more :
      (previous : FileLine)
      → lookup own a.pending ≡ some previous
      → Adds p a line (keep a own (extend previous line) now, [])
  unfolding stream
  Adds-more previous found =
      rw (stream_one p line, held-keep p a own (extend previous line) now)
        (elim (Bool-cases (text_eq p own)) [
          | inl here ↦
              let at_own : p ≡ own = (text_eq_iff p own).0 here in
              let had : lookup p a.pending ≡ some previous =
                ap (λ k. lookup k a.pending) at_own ∙ found in
              rw (here, had, held) (joined previous.text line.text)
          | inr there ↦ rw (there, append-nil (held p a)) refl
        ])

  Adds-next :
      (previous : FileLine)
      → lookup own a.pending ≡ some previous
      → previous.file.path ≡ own
      → Adds p a line (keep a own line now, previous ∷ [])
  Adds-next previous found same =
      rw (stream_one p line, stream_one p previous, held-keep p a own line now, same)
        (elim (Bool-cases (text_eq p own)) [
          | inl here ↦
              let at_own : p ≡ own = (text_eq_iff p own).0 here in
              let had : lookup p a.pending ≡ some previous =
                ap (λ k. lookup k a.pending) at_own ∙ found in
              rw (here, had, held) refl
          | inr there ↦ rw (there, append-nil (held p a)) refl
        ])

add_stream :
    (p : Text) (a : StackAssembler) (line : FileLine) (now : ℕ)
    → IsKeyed a
    → Adds p a line (add a line now)
unfolding add
add_stream p a line now h = elim (Bool-cases (is_stack_continuation line.text)) [
  | inl more ↦ elim (Option-cases (lookup line.file.path a.pending)) [
    | inl absent ↦ rw (more, absent) (Adds-alone p a line now absent)
    | inr (previous, found) ↦ rw (more, found) (Adds-more p a line now previous found)
  ]
  | inr fresh ↦ elim (Option-cases (lookup line.file.path a.pending)) [
    | inl absent ↦ rw (fresh, absent) (Adds-first p a line now absent)
    | inr (previous, found) ↦
        rw (fresh, found)
          (Adds-next p a line now previous found (h.same_path line.file.path previous found))
  ]
]

-- Lines that are added one after another, each at its time: what is complete, and the assembler.
unfoldable pub add_lines : StackAssembler → List (FileLine × ℕ) → StackAssembler × List FileLine
add_lines a [] = (a, [])
add_lines a ((line, now) ∷ rest) =
    let (a', complete) = add a line now in
    let (final, more) = add_lines a' rest in (final, complete ++ more)

abbrev pub lines_of : List (FileLine × ℕ) → List FileLine
lines_of = map (λ timed. timed.0)

stream-append : (p : Text) (x y : List FileLine) → stream p (x ++ y) ≡ stream p x ++ stream p y
unfolding stream
stream-append p [] y = refl
stream-append p (line ∷ x) y = elim (Bool-cases (text_eq p line.file.path)) [
  | inl here ↦
      rw (here, stream-append p x y, append_assoc line.text (10 ∷ stream p x) (stream p y)) refl
  | inr there ↦ rw there (stream-append p x y)
]

-- Whatever lines are added to an assembler that holds every line under its own file, what comes out
-- complete for a file, followed by what is still held back of it, is what was held back before
-- followed by the lines added for that file, byte by byte: none is lost, repeated, reordered or
-- moved to another file. The assembler still holds every line under its own file.
pub add_lines-stream :
    (p : Text) (a : StackAssembler) (lines : List (FileLine × ℕ))
    → IsKeyed a
    → (stream p (add_lines a lines).1 ++ held p (add_lines a lines).0
        ≡ held p a ++ stream p (lines_of lines))
      × IsKeyed (add_lines a lines).0
unfolding add_lines
add_lines-stream p a [] h = (unfold stream in sym (append-nil (held p a)), h)
add_lines-stream p a ((line, now) ∷ rest) h =
    let (a', complete) = add a line now in
    let (more, keyed) = add_lines-stream p a' rest (add-IsKeyed a line now h) in
    let first = add_stream p a line now h in
    let later = (add_lines a' rest).1 in
    let final = held p (add_lines a' rest).0 in
    (
      ap (λ x. x ++ final) (stream-append p complete later)
          ∙ append_assoc (stream p complete) (stream p later) final
          ∙ ap (λ x. stream p complete ++ x) more
          ∙ sym (append_assoc (stream p complete) (held p a') (stream p (lines_of rest)))
          ∙ ap (λ x. x ++ stream p (lines_of rest)) first
          ∙ append_assoc (held p a) (stream p (line ∷ [])) (stream p (lines_of rest))
          ∙ ap (λ x. held p a ++ x) (sym (stream-append p (line ∷ []) (lines_of rest))),
      keyed,
    )
