-- ===== src/Base/Outcome.antt =====
-- A value or an error, as Go's pair `(value, error)` with a `nil` error in the first case.
use mathlib.Core.List.{List}
use Prim.Native.Nat.{ℕ}
use mathlib.Core.Path.{◌≡◌, refl}
use mathlib.Core.Logic.{◌⊎◌, inl, inr}

pub data Result {ℓ} (A : Type ℓ) : Type ℓ where
  ok : A → Result A
  err : List ℕ → Result A

pub Result-cases {ℓ} :
    {A : Type ℓ} (r : Result A) → ((x : A) × (r ≡ ok x)) ⊎ ((m : List ℕ) × (r ≡ err m))
Result-cases (ok x) = inl (x, refl)
Result-cases (err m) = inr (m, refl)
