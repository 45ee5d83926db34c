-- ===== src/Text/Split.antt =====
-- `strings.Split` at one byte.
use centi_log.Base.{
  ℕ, [], ◌∷◌, ◌++◌, ◌≢◌, List, if◌then◌else◌, ◌==◌, ◌≡◌, refl, arith, All, ap, ◌∙◌,
}
use centi_log.Text.{Text}

-- The byte goes to the front of the first piece.
abbrev push_front : ℕ → List Text → List Text
push_front a [] = (a ∷ []) ∷ []
push_front a (piece ∷ pieces) = (a ∷ piece) ∷ pieces

unfoldable pub split_at : ℕ → Text → List Text
split_at sep [] = [] ∷ []
split_at sep (a ∷ s) =
    let rest = split_at sep s in if a == sep then [] ∷ rest else push_front a rest

split_at_sep : (sep : ℕ) (s : Text) → split_at sep (sep ∷ s) ≡ [] ∷ split_at sep s
unfolding split_at
split_at_sep sep s = ground arith

split_at_other :
    (sep a : ℕ) (s : Text) → a ≢ sep → split_at sep (a ∷ s) ≡ push_front a (split_at sep s)
unfolding split_at
split_at_other sep a s h = ground arith

-- A text without the separator is one piece.
pub split_at-whole : (sep : ℕ) (s : Text) → All (λ a. a ≢ sep) s → split_at sep s ≡ s ∷ []
split_at-whole sep [] h = unfold split_at in refl
split_at-whole sep (a ∷ s) (other, h) =
    split_at_other sep a s other ∙ ap (push_front a) (split_at-whole sep s h)

-- The first piece ends at the first separator.
pub split_at-append :
    (sep : ℕ) (s t : Text)
    → All (λ a. a ≢ sep) s
    → split_at sep (s ++ (sep ∷ t)) ≡ s ∷ split_at sep t
split_at-append sep [] t h = split_at_sep sep t
split_at-append sep (a ∷ s) t (other, h) =
    split_at_other sep a (s ++ (sep ∷ t)) other ∙ ap (push_front a) (split_at-append sep s t h)
