-- ===== src/Text/Trimmed.antt =====
-- What `strings.TrimSpace` leaves alone.
use mathlib.Core.List.{reverse-cons, reverse-reverse}
use centi_log.Base.{◌≤◌, All-map, ℕ, [], ◌∷◌, ◌≡◌, arith, All, All-append, refl, reverse}
use centi_log.Text.{Text, space_width, space_width_back, trim_by, trim_space}
use centi_log.Text.Decimal.{IsDigitByte}

-- A printable ASCII byte that is not a space.
abbrev pub IsGraphic : ℕ → Type 0
IsGraphic b = (33 ≤ b) × (b ≤ 126)

graphic-space_width : (b : ℕ) (s : Text) → IsGraphic b → space_width (b ∷ s) ≡ 0
unfolding space_width
graphic-space_width b [] h = ground arith
graphic-space_width b (c ∷ []) h = ground arith
graphic-space_width b (c ∷ d ∷ s) h = ground arith

graphic-space_width_back : (b : ℕ) (s : Text) → IsGraphic b → space_width_back (b ∷ s) ≡ 0
unfolding space_width_back
graphic-space_width_back b [] h = ground arith
graphic-space_width_back b (c ∷ []) h = ground arith
graphic-space_width_back b (c ∷ d ∷ s) h = ground arith

trim_by-graphic :
    (width : Text → ℕ) (s : Text)
    → ((b : ℕ) (r : Text) → IsGraphic b → width (b ∷ r) ≡ 0)
    → All IsGraphic s
    → trim_by width 0 s ≡ s
unfolding trim_by
trim_by-graphic width [] zero_width h = refl
trim_by-graphic width (b ∷ r) zero_width (digit, rest) = rw (zero_width b r digit, trim_by) refl

reverse-IsGraphic : (s : Text) → All IsGraphic s → All IsGraphic (reverse s)
reverse-IsGraphic [] h = h
reverse-IsGraphic (b ∷ r) (digit, rest) =
    rw (reverse-cons b r)
      (All-append IsGraphic (reverse r) (b ∷ []) (reverse-IsGraphic r rest) (digit, tt))

pub trim_space-graphic : (s : Text) → All IsGraphic s → trim_space s ≡ s
unfolding trim_space
trim_space-graphic s h =
    rw
      (
        trim_by-graphic space_width s graphic-space_width h,
        trim_by-graphic space_width_back (reverse s) graphic-space_width_back
            (reverse-IsGraphic s h),
      )
      (reverse-reverse s)

pub trim_space-digits : (s : Text) → All IsDigitByte s → trim_space s ≡ s
trim_space-digits s h =
    trim_space-graphic s (All-map IsDigitByte IsGraphic (λ b d. (omega arith, omega arith)) s h)
