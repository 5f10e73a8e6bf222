-- ===== src/Prelude/Undefined.antt =====
-- Chains of steps that C leaves undefined in some case: `none` is undefined behaviour.

use mathlib.Core.Option.{Option, none, some}

infixl 5 ◌>>=◌
abbrev pub ◌>>=◌ {ℓ κ} : {A : Type ℓ} {B : Type κ} → Option A → (A → Option B) → Option B
none >>= f = none
some a >>= f = f a
