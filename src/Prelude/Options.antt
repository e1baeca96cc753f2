-- ===== src/Prelude/Options.antt =====
-- Chains of optional results, and what a chain that came through says of its links.
use mathlib.Core.Path.{◌≡◌, refl}
use mathlib.Core.Option.{Option, none, some}

infixl 5 ◌>>=◌
abbrev pub ◌>>=◌ {ℓ κ} : {A : Type ℓ} {B : Type κ} → Option A → (A → Option B) → Option B
none >>= f = none
some a >>= f = f a

module _ {ℓ κ} {A : Type ℓ} {B : Type κ} where
  pub bind-eq-some :
      (o : Option A) (f : A → Option B) {b : B}
      → o >>= f ≡ some b
      → (a : A) × (o ≡ some a) × (f a ≡ some b)
  bind-eq-some none f e = cc
  bind-eq-some (some a) f e = (a, refl, e)

-- a value for `None`
abbrev pub get_or {ℓ} : {A : Type ℓ} → A → Option A → A
get_or a none = a
get_or a (some b) = b
