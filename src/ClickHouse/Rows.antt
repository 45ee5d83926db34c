-- ===== src/ClickHouse/Rows.antt =====
-- The rows of an answer of ClickHouse, and where it is cut.
use mathlib.Core.List.{append_assoc, append-nil}
use centi_log.Base.{
  ℕ, ◌+◌, ◌-◌, ◌≤◌, ◌<◌, ◌≢◌, Bool, true, false, List, [], ◌∷◌, ◌++◌, success, ◌≡◌, refl, arith,
  sym, ap, ◌∙◌, All, take, length, suc, zero, ◌==◌, take-length, take-nil,
}
use centi_log.Agent.Accounts.{filled}
use centi_log.ClickHouse.{
  drop_cr, has_long_line, keep_rows, max_answer_bytes, max_line_bytes, read_rows,
}
use centi_log.Text.{Text, text_eq}
use centi_log.Text.Equality.{text_eq_iff}
use centi_log.Text.Split.{split_at, split_at-append, split_at-whole}

-- The format JSONEachRow: each row with a newline.
abbrev pub write_rows : List Text → Text
write_rows [] = []
write_rows (row ∷ rows) = row ++ (10 ∷ write_rows rows)

-- The last byte is no carriage return.
abbrev pub has_return : Text → Bool
has_return [] = false
has_return (a ∷ []) = a == 13
has_return (a ∷ b ∷ r) = has_return (b ∷ r)

-- A row as JSON: not empty, without a newline, not ended by a carriage return, and not too long.
abbrev pub IsRow : Text → Type 0
IsRow row =
    (row ≢ []) × All (λ b. b ≢ 10) row × (has_return row ≡ false) × (length row < max_line_bytes)

drop_cr-whole : (row : Text) → has_return row ≡ false → drop_cr row ≡ row
unfolding drop_cr
drop_cr-whole [] h = refl
drop_cr-whole (a ∷ []) h = ground arith
drop_cr-whole (a ∷ b ∷ r) h = ap (λ t. a ∷ t) (drop_cr-whole (b ∷ r) h)

keep_row :
    (row : Text) (lines : List Text)
    → row ≢ []
    → has_return row ≡ false
    → keep_rows (row ∷ lines) ≡ row ∷ keep_rows lines
unfolding keep_rows
keep_row row lines filled h =
    ground (arith, drop_cr-whole row h, text_eq_iff row [], text_eq_iff (drop_cr row) [])

-- The pieces of rows that are written and of what is written after them.
split_at-write_rows :
    (rows : List Text) (rest : Text)
    → All IsRow rows
    → split_at 10 (write_rows rows ++ rest) ≡ rows ++ split_at 10 rest
split_at-write_rows [] rest h = refl
split_at-write_rows (row ∷ rows) rest ((filled, lines, ended, short), h) =
    ap (split_at 10) (append_assoc row (10 ∷ write_rows rows) rest)
    ∙ split_at-append 10 row (write_rows rows ++ rest) lines
    ∙ ap (λ l. row ∷ l) (split_at-write_rows rows rest h)

keep_rows-append :
    (rows lines : List Text) → All IsRow rows → keep_rows (rows ++ lines) ≡ rows ++ keep_rows lines
keep_rows-append [] lines h = refl
keep_rows-append (row ∷ rows) lines ((filled, inside, ended, short), h) =
    keep_row row (rows ++ lines) filled ended ∙ ap (λ l. row ∷ l) (keep_rows-append rows lines h)

has_long_line-append :
    (rows lines : List Text) → All IsRow rows → has_long_line (rows ++ lines) ≡ has_long_line lines
unfolding has_long_line
has_long_line-append [] lines h = refl
has_long_line-append (row ∷ rows) lines ((filled, inside, ended, short), h) =
    ground (arith, short, has_long_line-append rows lines h)

read_rows_fine :
    (body : Text) (lines : List Text)
    → split_at 10 (take max_answer_bytes body) ≡ lines
    → has_long_line lines ≡ false
    → read_rows body true ≡ success (keep_rows lines)
unfolding read_rows
read_rows_fine body lines cut short = ground (arith, cut, short)

take_all : {A : Type 0} (n : ℕ) (l : List A) → length l ≤ n → take n l ≡ l
take_all n [] h = take-nil n
take_all zero (x ∷ l) h = absurd (omega arith)
take_all (suc n) (x ∷ l) h = ap (λ t. x ∷ t) (take_all n l (omega arith))

-- Rows that ClickHouse writes one to a line, of at most 16 MiB together with their newlines, are read
-- back as they are, if each is shorter than 2 MiB, is not empty, has no newline in it and does not end
-- with a carriage return.
pub read_rows-write_rows :
    (rows : List Text)
    → All IsRow rows
    → length (write_rows rows) ≤ max_answer_bytes
    → read_rows (write_rows rows) true ≡ success rows
unfolding split_at text_eq
read_rows-write_rows rows h small =
    let cut : split_at 10 (take max_answer_bytes (write_rows rows)) ≡ rows ++ ([] ∷ []) =
      ap (split_at 10) (take_all max_answer_bytes (write_rows rows) small)
      ∙ sym (ap (split_at 10) (append-nil (write_rows rows)))
      ∙ split_at-write_rows rows [] h in
    let short = has_long_line-append rows ([] ∷ []) h in
    read_rows_fine (write_rows rows) (rows ++ ([] ∷ [])) cut (short ∙ unfold has_long_line in refl)
    ∙ ap success (keep_rows-append rows ([] ∷ []) h ∙ unfold keep_rows drop_cr in append-nil rows)

take-append_ge :
    (n : ℕ) (xs ys : Text) → length xs ≤ n → take n (xs ++ ys) ≡ xs ++ take (n - length xs) ys
take-append_ge n [] ys h = let e : n - 0 ≡ n = omega arith in rw e refl
take-append_ge zero (x ∷ xs) ys h = absurd (omega arith)
take-append_ge (suc n) (x ∷ xs) ys h =
    let e : suc n - suc (length xs) ≡ n - length xs = omega arith in
    rw e (ap (λ t. x ∷ t) (take-append_ge n xs ys (omega arith)))

-- Where whole rows and the start of a further one fill the first 16 MiB of an answer, the start is
-- handed on as a row of its own, without an error, if it ends with no carriage return.
pub read_rows-cut :
    (rows : List Text) (start rest : Text)
    → All IsRow rows
    → IsRow start
    → length (write_rows rows) + length start ≡ max_answer_bytes
    → read_rows (write_rows rows ++ (start ++ rest)) true ≡ success (rows ++ (start ∷ []))
read_rows-cut rows start rest h part full =
    let (filled, inside, ended, short) = part in
    let written = write_rows rows in
    let left : max_answer_bytes - length written ≡ length start = omega arith in
    let kept : take max_answer_bytes (written ++ (start ++ rest)) ≡ written ++ start =
      take-append_ge max_answer_bytes written (start ++ rest) (omega arith)
      ∙ ap (λ n. written ++ take n (start ++ rest)) left
      ∙ ap (λ t. written ++ t) (take-length start rest) in
    let cut : split_at 10 (take max_answer_bytes (written ++ (start ++ rest)))
        ≡ rows ++ (start ∷ []) =
      ap (split_at 10) kept
      ∙ split_at-write_rows rows start h
      ∙ ap (λ l. rows ++ l) (split_at-whole 10 start inside) in
    let fine : has_long_line (rows ++ (start ∷ [])) ≡ false =
      has_long_line-append rows (start ∷ []) h ∙ unfold has_long_line in ground (arith, short) in
    read_rows_fine (written ++ (start ++ rest)) (rows ++ (start ∷ [])) cut fine
    ∙ ap success (
        keep_rows-append rows (start ∷ []) h
        ∙ ap (λ l. rows ++ l) (keep_row start [] filled ended ∙ unfold keep_rows in refl))
