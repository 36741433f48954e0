-- ===== src/Common/Options.antt =====
-- Steps that may raise, as values of Option for do blocks.
use mathlib.Core.Path.{◌≡◌, refl}
use mathlib.Core.Bool.{Bool, true, false}
use atvr4samsung.Common.Tests.{if◌then◌else◌}
use mathlib.Core.Option.{Option, none, some, some-injective, none-ne-some}

infixl 5 ◌>>=◌
abbrev pub ◌>>=◌ {ℓ κ} : {A : Type ℓ} {B : Type κ} → Option A → (A → Option B) → Option B
none >>= f = none
some a >>= f = f a

-- `x >>= f` gives something only where `x` does.
pub bind_some {ℓ κ} :
    {A : Type ℓ} {B : Type κ} {f : A → Option B} {y : B} (o : Option A)
    → o >>= f ≡ some y
    → (x : A) × (o ≡ some x) × (f x ≡ some y)
bind_some {y = y} none e = absurd (none-ne-some y e)
bind_some (some x) e = (x, refl, e)

pub guard_some {ℓ} :
    {A : Type ℓ} {x y : A} (t : Bool) → (if t then some x else none) ≡ some y → (t ≡ true) × (x ≡ y)
guard_some {x = x} {y} true e = (refl, some-injective x y e)
guard_some {y = y} false e = absurd (none-ne-some y e)
