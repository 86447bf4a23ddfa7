-- ===== src/Prelude/Options.antt =====
-- Chains of optional results, for do blocks.
use mathlib.Core.Path.{◌≡◌, refl}
use mathlib.Core.Option.{Option, none, some}

infixl 5 ◌>>=◌
abbrev pub ◌>>=◌ {ℓ κ} : {A : Type ℓ} {B : Type κ} → Option A → (A → Option B) → Option B
none >>= f = none
some a >>= f = f a

-- A chain that gives a result has a first result.
pub >>=-some {ℓ κ} :
    {A : Type ℓ} {B : Type κ} (o : Option A) (f : A → Option B) (b : B)
    → o >>= f ≡ some b
    → (a : A) × (o ≡ some a) × (f a ≡ some b)
>>=-some none f b h = cc
>>=-some (some a) f b h = (a, refl, h)
