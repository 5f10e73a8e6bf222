-- ===== src/Prelude/Divisor.antt =====
-- The divisor of a clock: the largest quotient less 1, and a bound on what a register takes.
use Prim.Native.Nat.{ℕ, zero, suc, ◌+◌, ◌-◌, ◌*◌, ◌/◌, ◌≤◌, ◌<◌}
use mathlib.Core.Path.{◌≡◌, refl}
use mathlib.Core.Logic.{◌⊎◌, inl, inr}
use mathlib.Core.Bool.{true, false}
use native.Mathlib.Nat.{mul-div-le, lt-mul-div-succ, mul-le-mul, le_refl, le_trans}
use native.Mathlib.Omega.{arith}
use freedom_metal.Prelude.Tests.{ltb, ◌==◌, Bool-cases}

-- The clock is slower than the divisor, or faster than the bound takes, or the quotient less 1 is
-- the one that brings it within a step.
pub divisor-cases :
    (clock d top : ℕ)
    → 1 ≤ d
    → (((clock / d == 0) ≡ true) × (ltb top (clock / d - 1) ≡ false) × (clock < d))
      ⊎ ((((clock / d == 0) ≡ false) × (ltb top (clock / d - 1) ≡ true) × (d * (top + 2) ≤ clock))
          ⊎ (((clock / d == 0) ≡ false)
              × (ltb top (clock / d - 1) ≡ false)
              × (clock / d - 1 ≤ top)
              × (d * (clock / d - 1 + 1) ≤ clock)
              × (clock < d * (clock / d - 1 + 2))))
divisor-cases clock d top some_d =
    within (clock / d) (mul-div-le clock d) (lt-mul-div-succ clock some_d)
  where
    within :
        (q : ℕ)
        → d * q ≤ clock
        → clock < d * (q + 1)
        → (((q == 0) ≡ true) × (ltb top (q - 1) ≡ false) × (clock < d))
          ⊎ ((((q == 0) ≡ false) × (ltb top (q - 1) ≡ true) × (d * (top + 2) ≤ clock))
              ⊎ (((q == 0) ≡ false)
                  × (ltb top (q - 1) ≡ false)
                  × (q - 1 ≤ top)
                  × (d * (q - 1 + 1) ≤ clock)
                  × (clock < d * (q - 1 + 2))))
    within zero below above = inl (refl, ground arith, omega (arith, above))
    within (suc q) below above = elim (Bool-cases (ltb top q)) [
      | inl large ↦
          let more : top + 2 ≤ suc q = ground (arith, large) in
          inr (
            inl (ground arith, ground (arith, large), le_trans (mul-le-mul (le_refl d) more) below))
      | inr fits ↦
          let at : suc q - 1 + 1 ≡ suc q = omega arith in
          let next : suc q - 1 + 2 ≡ suc q + 1 = omega arith in
          inr (
            inr (
              ground arith,
              ground (arith, fits),
              ground (arith, fits),
              rw (at) below,
              rw (next) above,
            ))
    ]
