-- ===== src/Prelude/Low.antt =====
-- Registers with bits that the hardware owns: words that agree in their low `n` bits, and the fields
-- that a write leaves among those bits.
use native.Mathlib.Nat.{mul-div_cancel, mod-eq_of_lt}
use Prim.Native.Nat.{ℕ, zero, suc, ◌+◌, ◌-◌, ◌*◌, ◌/◌, ◌%◌, ◌^◌, ◌≤◌, ◌<◌, bit_and, bit_or}
use mathlib.Core.Path.{◌≡◌, ap, sym, ◌∙◌}
use mathlib.Core.Logic.{◌⊎◌}
use native.Mathlib.Omega.{arith}
use freedom_metal.Prelude.Bits.{
  bit, bit-or, bit-and, bit-mod, bit_ext, bit-of_zero, bit-lt, bit_lem, complement, bit_or-lt,
}
use freedom_metal.Prelude.Fields.{
  mask, extract, bit-extract, extract-lt, bit-shifted, bit-complement-mask, bit_and-mask, pow_pos,
}

-- Agreement below bit `n`.
abbrev pub Agree : ℕ → ℕ → ℕ → Type 0
Agree n x y = x % 2 ^ n ≡ y % 2 ^ n

pub bit-Agree : (n x y k : ℕ) → Agree n x y → k < n → bit x k ≡ bit y k
bit-Agree n x y k same low =
    ground (arith, bit-mod n x k, bit-mod n y k, ap (λ (t : ℕ). bit t k) same)

-- A field below bit `n` is that of any word that agrees.
pub extract-Agree : (n x y w s : ℕ) → Agree n x y → s + w ≤ n → extract w s x ≡ extract w s y
extract-Agree n x y w s same inside =
    bit_ext w (extract w s x) (extract w s y) (extract-lt w s x) (extract-lt w s y) λ k low.
      ground (
        arith,
        bit-extract w s x k,
        bit-extract w s y k,
        bit-Agree n x y (s + k) same (omega arith),
      )

-- After `x |= v << s`: other fields are kept, and a field of one bit reads 1.
pub extract-or_other :
    (x w s v w' s' : ℕ)
    → v < 2 ^ w
    → (s' + w' ≤ s) ⊎ (s + w ≤ s')
    → extract w' s' (bit_or x (v * 2 ^ s)) ≡ extract w' s' x
extract-or_other x w s v w' s' fits apart =
    bit_ext w' (extract w' s' (bit_or x (v * 2 ^ s))) (extract w' s' x)
      (extract-lt w' s' (bit_or x (v * 2 ^ s))) (extract-lt w' s' x)
      λ k low. ground (
        arith,
        bit-extract w' s' (bit_or x (v * 2 ^ s)) k,
        bit-extract w' s' x k,
        bit-or x (v * 2 ^ s) (s' + k),
        bit-shifted w s v (s' + k) fits,
      )

-- Where the field is 0, it becomes `v`.
pub extract-or_self :
    (x w s v : ℕ) → v < 2 ^ w → extract w s x ≡ 0 → extract w s (bit_or x (v * 2 ^ s)) ≡ v
extract-or_self x w s v fits empty =
    bit_ext w (extract w s (bit_or x (v * 2 ^ s))) v (extract-lt w s (bit_or x (v * 2 ^ s))) fits
      λ k low. ground (
        arith,
        bit-extract w s (bit_or x (v * 2 ^ s)) k,
        bit-or x (v * 2 ^ s) (s + k),
        bit-shifted w s v (s + k) fits,
        bit-extract w s x k,
        ap (λ (t : ℕ). bit t k) empty,
        bit-of_zero k,
        ap (bit v) (let e : s + k - s ≡ k = omega arith in e),
      )

pub extract-or_one : (x s : ℕ) → extract 1 s (bit_or x (1 * 2 ^ s)) ≡ 1
extract-or_one x s =
    bit_ext 1 (extract 1 s (bit_or x (1 * 2 ^ s))) 1 (extract-lt 1 s (bit_or x (1 * 2 ^ s)))
      (omega arith)
      λ k low. ground (
        arith,
        bit-extract 1 s (bit_or x (1 * 2 ^ s)) k,
        bit-or x (1 * 2 ^ s) (s + k),
        bit-shifted 1 s 1 (s + k) (omega arith),
        bit-lt x (s + k),
        ap (bit 1) (let e : s + k - s ≡ k = omega arith in e),
        bit_one k low,
      )
  where
    bit_one : (k : ℕ) → k < 1 → bit 1 k ≡ 1
    bit_one zero low = omega (arith, bit_lem 1 0)
    bit_one (suc k) low = absurd (omega arith)

-- After `x &= ~mask`, in a word of `n` bits.
pub extract-clear_self :
    (n x w s : ℕ) → s + w ≤ n → extract w s (bit_and x (complement n (mask w s))) ≡ 0
extract-clear_self n x w s inside =
    bit_ext w (extract w s (bit_and x (complement n (mask w s)))) 0
      (extract-lt w s (bit_and x (complement n (mask w s)))) (pow_pos w)
      λ k low. ground (
        arith,
        bit-extract w s (bit_and x (complement n (mask w s))) k,
        bit-and x (complement n (mask w s)) (s + k),
        bit-complement-mask n w s (s + k) inside (omega arith),
        bit-of_zero k,
      )

pub extract-clear_other :
    (n x w s w' s' : ℕ)
    → s + w ≤ n
    → s' + w' ≤ n
    → (s' + w' ≤ s) ⊎ (s + w ≤ s')
    → extract w' s' (bit_and x (complement n (mask w s))) ≡ extract w' s' x
extract-clear_other n x w s w' s' inside inside' apart =
    bit_ext w' (extract w' s' (bit_and x (complement n (mask w s)))) (extract w' s' x)
      (extract-lt w' s' (bit_and x (complement n (mask w s)))) (extract-lt w' s' x)
      λ k low. ground (
        arith,
        bit-extract w' s' (bit_and x (complement n (mask w s))) k,
        bit-extract w' s' x k,
        bit-and x (complement n (mask w s)) (s' + k),
        bit-complement-mask n w s (s' + k) inside (omega arith),
        bit-lt x (s' + k),
      )

-- `(v << s) & mask` of a value that fits.
pub shifted_and_mask : (w s v : ℕ) → v < 2 ^ w → bit_and (v * 2 ^ s) (mask w s) ≡ v * 2 ^ s
shifted_and_mask w s v fits =
    bit_and-mask w s (v * 2 ^ s)
    ∙ ap (λ (t : ℕ). t % 2 ^ w * 2 ^ s) (mul-div_cancel v (pow_pos s))
    ∙ ap (λ (t : ℕ). t * 2 ^ s) (mod-eq_of_lt fits)

-- `(x & mask) >> s`
pub field_of_mask : (w s x : ℕ) → bit_and x (mask w s) / 2 ^ s ≡ extract w s x
field_of_mask w s x =
    ap (λ (t : ℕ). t / 2 ^ s) (bit_and-mask w s x) ∙ mul-div_cancel (extract w s x) (pow_pos s)

-- `x |= v << s` adds the bits of `v` to those of the field.
pub extract-or :
    (x w s v : ℕ) → v < 2 ^ w → extract w s (bit_or x (v * 2 ^ s)) ≡ bit_or (extract w s x) v
extract-or x w s v fits =
    bit_ext w (extract w s (bit_or x (v * 2 ^ s))) (bit_or (extract w s x) v)
      (extract-lt w s (bit_or x (v * 2 ^ s)))
      (bit_or-lt w (extract w s x) v (extract-lt w s x) fits)
      λ k low. ground (
        arith,
        bit-extract w s (bit_or x (v * 2 ^ s)) k,
        bit-or x (v * 2 ^ s) (s + k),
        bit-or (extract w s x) v k,
        bit-shifted w s v (s + k) fits,
        bit-extract w s x k,
        ap (bit v) (let e : s + k - s ≡ k = omega arith in e),
      )

-- `(x >> s) & (2 ^ w - 1)`
pub shifted_mask : (w s x : ℕ) → bit_and (x / 2 ^ s) (2 ^ w - 1) ≡ extract w s x
shifted_mask w s x =
    let same : mask w 0 ≡ 2 ^ w - 1 = omega arith in
    let at : bit_and (x / 2 ^ s) (mask w 0) ≡ extract w 0 (x / 2 ^ s) * 2 ^ 0 =
      bit_and-mask w 0 (x / 2 ^ s) in
    let e : bit_and (x / 2 ^ s) (2 ^ w - 1) ≡ bit_and (x / 2 ^ s) (mask w 0) =
      ap (bit_and (x / 2 ^ s)) (sym same) in
    let z : x / 2 ^ s / 2 ^ 0 ≡ x / 2 ^ s = omega arith in e ∙ at ∙ rw z (omega arith)
