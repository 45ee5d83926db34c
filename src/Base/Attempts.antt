-- ===== src/Base/Attempts.antt =====
-- A chain of steps of which each may end the function early: the rest of the chain runs only on a
-- success, as after Go's `if err != nil { return … }`.
use mathlib.Core.Path.{◌≡◌, refl}
use mathlib.Core.Logic.{◌⊎◌, inl, inr}
use mathlib.Core.Bool.{Bool, true, false}
use mathlib.Core.Option.{Option, none, some}
use native.Mathlib.Omega.{arith}

pub data Attempt {ℓ} (E : Type ℓ) (A : Type ℓ) : Type ℓ where
  success : A → Attempt E A
  failure : E → Attempt E A

module _ {ℓ} {E : Type ℓ} {A : Type ℓ} where
  -- The value of an optional one, or the early end.
  abbrev pub need : E → Option A → Attempt E A
  need e none = failure e
  need e (some x) = success x

  pub Attempt-cases : (r : Attempt E A) → ((x : A) × (r ≡ success x)) ⊎ ((e : E) × (r ≡ failure e))
  Attempt-cases (success x) = inl (x, refl)
  Attempt-cases (failure e) = inr (e, refl)

  pub success-injective : (x y : A) → ◌≡◌ {A = Attempt E A} (success x) (success y) → x ≡ y
  success-injective x y h = cc

-- Goes on where the test holds.
abbrev pub ensure {ℓ} : {E : Type ℓ} → E → Bool → Attempt E (Unit {ℓ})
ensure e true = success tt
ensure e false = failure e

module _ {ℓ} {E : Type ℓ} {A : Type ℓ} {B : Type ℓ} where
  infixr 1 ◌>>=◌
  infixr 1 ◌>>◌
  abbrev pub ◌>>=◌ : Attempt E A → (A → Attempt E B) → Attempt E B
  success x >>= k = k x
  failure e >>= k = failure e

  abbrev pub ◌>>◌ : Attempt E A → Attempt E B → Attempt E B
  success x >> r = r
  failure e >> r = failure e

  -- A chain that succeeds has succeeded at its first step.
  pub bind-success :
      (r : Attempt E A) (k : A → Attempt E B) (y : B)
      → (r >>= k) ≡ success y
      → (x : A) × (r ≡ success x) × (k x ≡ success y)
  bind-success (success x) k y h = (x, refl, h)
  bind-success (failure e) k y h = absurd (ground arith)

  pub need-success :
      (e : E) (o : Option A) (k : A → Attempt E B) (y : B)
      → (need e o >>= k) ≡ success y
      → (x : A) × (o ≡ some x) × (k x ≡ success y)
  need-success e none k y h = absurd (ground arith)
  need-success e (some x) k y h = (x, refl, h)

pub ensure-success {ℓ} :
    {E : Type ℓ} {B : Type ℓ} (e : E) (b : Bool) (r : Attempt E B) (y : B)
    → (ensure e b >> r) ≡ success y
    → (b ≡ true) × (r ≡ success y)
ensure-success e true r y h = (refl, h)
ensure-success e false r y h = absurd (ground arith)

-- Any failure ends the function with `e`.
abbrev pub or_fail {ℓ} : {E F A : Type ℓ} → E → Attempt F A → Attempt E A
or_fail e (success x) = success x
or_fail e (failure f) = failure e

pub or_fail-success {ℓ} :
    {E F A B : Type ℓ} (e : E) (r : Attempt F A) (k : A → Attempt E B) (y : B)
    → (or_fail e r >>= k) ≡ success y
    → (x : A) × (r ≡ success x) × (k x ≡ success y)
or_fail-success e (success x) k y h = (x, refl, h)
or_fail-success e (failure f) k y h = absurd (ground arith)
