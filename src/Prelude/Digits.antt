-- ===== src/Prelude/Digits.antt =====
-- `&` and `|` of two numbers by their halves and their last digits, from the recursion with fuel
-- that the native operations stand for.
use Prim.Native.Nat.{ℕ, zero, suc, ◌+◌, ◌-◌, ◌*◌, ◌/◌, ◌%◌, ◌≤◌, min, max, bit_and, bit_or}
use Prim.Native.Nat.{digits, bitwise, bit_and-bitwise, bit_or-bitwise}
use mathlib.Core.Path.{◌≡◌, refl, sym, ap, ◌∙◌}
use native.Mathlib.Omega.{arith}

pad : ℕ → ℕ → ℕ
pad zero fuel = fuel
pad (suc extra) fuel = suc (pad extra fuel)

pad-add : (extra fuel : ℕ) → pad extra fuel ≡ extra + fuel
unfolding pad
pad-add zero fuel = omega arith
pad-add (suc extra) fuel = omega (arith, pad-add extra fuel)

module _ (rest : ℕ → ℕ) (join : ℕ → ℕ → ℕ) where
  abbrev joined : ℕ → ℕ → ℕ → ℕ
  joined fuel x y = digits rest join fuel x y

  -- One unit more makes no difference where the fuel covers the number.
  spare_unit : (fuel x y : ℕ) → x ≤ fuel → joined (suc fuel) x y ≡ joined fuel x y
  spare_unit (suc fuel) (suc x) y covered =
      let deeper : joined (suc fuel) (suc x / 2) (y / 2) ≡ joined fuel (suc x / 2) (y / 2) =
        spare_unit fuel (suc x / 2) (y / 2) (omega arith) in
      ap (λ (t : ℕ). t * 2 + join (suc x % 2) (y % 2)) deeper
  spare_unit zero (suc x) y covered = absurd (omega arith)
  spare_unit (suc fuel) zero y covered = refl
  spare_unit zero zero y covered = refl

  spare : (extra fuel x y : ℕ) → x ≤ fuel → joined (pad extra fuel) x y ≡ joined fuel x y
  unfolding pad
  spare zero fuel x y covered = refl
  spare (suc extra) fuel x y covered =
      spare_unit (pad extra fuel) x y (omega (arith, pad-add extra fuel))
      ∙ spare extra fuel x y covered

  by_halves :
      (x y : ℕ)
      → bitwise rest join (suc x) y
        ≡ bitwise rest join (suc x / 2) (y / 2) * 2 + join (suc x % 2) (y % 2)
  by_halves x y =
      let half : ℕ = suc x / 2 in
      let whole : pad (x - half) half ≡ x = omega (arith, pad-add (x - half) half) in
      ap (λ (t : ℕ). joined t half (y / 2) * 2 + join (suc x % 2) (y % 2)) (sym whole)
      ∙ ap (λ (t : ℕ). t * 2 + join (suc x % 2) (y % 2))
          (spare (x - half) half half (y / 2) (omega arith))

pub or_by_halves : (x y : ℕ) → bit_or x y ≡ bit_or (x / 2) (y / 2) * 2 + max (x % 2) (y % 2)
or_by_halves (suc x) y =
    bit_or-bitwise (suc x) y
    ∙ by_halves (λ y. y) max x y
    ∙ ap (λ (t : ℕ). t * 2 + max (suc x % 2) (y % 2)) (sym (bit_or-bitwise (suc x / 2) (y / 2)))
or_by_halves zero y = omega (arith, bit_or-bitwise 0 y, bit_or-bitwise 0 (y / 2))

pub and_by_halves : (x y : ℕ) → bit_and x y ≡ bit_and (x / 2) (y / 2) * 2 + min (x % 2) (y % 2)
and_by_halves (suc x) y =
    bit_and-bitwise (suc x) y
    ∙ by_halves (λ y. 0) min x y
    ∙ ap (λ (t : ℕ). t * 2 + min (suc x % 2) (y % 2)) (sym (bit_and-bitwise (suc x / 2) (y / 2)))
and_by_halves zero y = omega (arith, bit_and-bitwise 0 y, bit_and-bitwise 0 (y / 2))
