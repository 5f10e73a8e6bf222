-- ===== src/Prelude/Fields.antt =====
-- Fields of `w` bits at bit `s` of a word: masks, reading a field, and the read-modify-write by
-- which the drivers replace one (`reg &= ~mask; reg |= value`).
use Prim.Native.Nat.{ℕ, zero, suc, ◌+◌, ◌-◌, ◌*◌, ◌/◌, ◌%◌, ◌^◌, ◌≤◌, ◌<◌, bit_and, bit_or}
use mathlib.Core.Path.{◌≡◌, ap}
use mathlib.Core.Logic.{◌⊎◌}
use mathlib.Core.Bool.{◌&&◌}
use native.Mathlib.Nat.{
  one-le-pow, mod-lt, pow-suc, zero-add, one-mul, pow-le-pow_right, mul-le-mul, le_refl,
}
use native.Mathlib.Decide.{dec_lt}
use native.Mathlib.Omega.{arith}
use freedom_metal.Prelude.Tests.{ltb, leb, if◌then◌else◌}
use freedom_metal.Prelude.Bits.{
  bit, complement, bit-of_zero, bit-or, bit-and, bit-complement, bit_ext, bit_or-lt, bit_and-lt,
  bit_and-lt', bit-shift_up, bit-shift_up_low, bit-shift_down, bit-mod, bit-of_fits, bit-lt,
}

-- `w` ones, shifted up by `s`
abbrev pub mask : ℕ → ℕ → ℕ
mask w s = (2 ^ w - 1) * 2 ^ s

-- `(x >> s) & (2 ^ w - 1)`
abbrev pub extract : ℕ → ℕ → ℕ → ℕ
extract w s x = x / 2 ^ s % 2 ^ w

-- In a word of `n` bits.
abbrev pub insert : ℕ → ℕ → ℕ → ℕ → ℕ → ℕ
insert n w s x v = bit_or (bit_and x (complement n (mask w s))) (v * 2 ^ s)

pub pow_pos : (w : ℕ) → 0 < 2 ^ w
pow_pos w = one-le-pow w 2 (omega arith)

pub two_pow_add : (a b : ℕ) → 2 ^ (a + b) ≡ 2 ^ a * 2 ^ b
two_pow_add zero b = simp (zero-add, one-mul)
two_pow_add (suc a) b =
    let place : suc a + b ≡ suc (a + b) = omega arith in
    rw place
      (omega (arith, two_pow_add a b, pow-suc 2 (a + b), ap (λ (t : ℕ). t * 2 ^ b) (pow-suc 2 a)))

pub bit-ones : (w k : ℕ) → bit (2 ^ w - 1) k ≡ (if ltb k w then 1 else 0)
bit-ones w k = elim (dec_lt k w) [
  | yes low ↦ ground (arith, bit-complement w 0 k (pow_pos w) low, bit-of_zero k)
  | no high ↦ ground (arith, bit-of_fits w (2 ^ w - 1) k (omega (arith, pow_pos w)) (omega arith))
]

pub shifted-lt : (n w s v : ℕ) → v < 2 ^ w → s + w ≤ n → v * 2 ^ s < 2 ^ n
shifted-lt n w s v fits inside =
    let above : suc v * 2 ^ s ≤ 2 ^ w * 2 ^ s = mul-le-mul fits (le_refl (2 ^ s)) in
    let whole : 2 ^ (w + s) ≤ 2 ^ n = pow-le-pow_right (omega arith) (omega arith) in
    omega (arith, two_pow_add w s, pow_pos s)

pub mask-lt : (n w s : ℕ) → s + w ≤ n → mask w s < 2 ^ n
mask-lt n w s inside = shifted-lt n w s (2 ^ w - 1) (omega (arith, pow_pos w)) inside

-- Inside the field, a shifted value has its own bits, and none outside.
pub bit-shifted :
    (w s v k : ℕ)
    → v < 2 ^ w
    → bit (v * 2 ^ s) k ≡ (if leb s k && ltb k (s + w) then bit v (k - s) else 0)
bit-shifted w s v k fits = elim (dec_lt k s) [
  | yes below ↦ ground (arith, bit-shift_up_low v s k below)
  | no at ↦
      let place : s + (k - s) ≡ k = omega arith in
      let up : bit (v * 2 ^ s) k ≡ bit v (k - s) = rw place at (bit-shift_up v s (k - s)) in
      ground (arith, up, bit-of_fits w v (k - s) fits)
]

pub bit-mask : (w s k : ℕ) → bit (mask w s) k ≡ (if leb s k && ltb k (s + w) then 1 else 0)
bit-mask w s k =
    ground (arith, bit-shifted w s (2 ^ w - 1) k (omega (arith, pow_pos w)), bit-ones w (k - s))

pub bit-complement-mask :
    (n w s k : ℕ)
    → s + w ≤ n
    → k < n
    → bit (complement n (mask w s)) k ≡ (if leb s k && ltb k (s + w) then 0 else 1)
bit-complement-mask n w s k inside low =
    ground (arith, bit-complement n (mask w s) k (mask-lt n w s inside) low, bit-mask w s k)

pub bit-extract : (w s x k : ℕ) → bit (extract w s x) k ≡ (if ltb k w then bit x (s + k) else 0)
bit-extract w s x k = rw (bit-mod, bit-shift_down)

-- Which bits of the word a replacement changes.
pub bit-insert :
    (n w s x v k : ℕ)
    → v < 2 ^ w
    → s + w ≤ n
    → k < n
    → bit (insert n w s x v) k ≡ (if leb s k && ltb k (s + w) then bit v (k - s) else bit x k)
bit-insert n w s x v k fits inside low = ground (
  arith,
  bit-or (bit_and x (complement n (mask w s))) (v * 2 ^ s) k,
  bit-and x (complement n (mask w s)) k,
  bit-complement n (mask w s) k (mask-lt n w s inside) low,
  bit-mask w s k,
  bit-shifted w s v k fits,
  bit-lt x k,
  bit-lt v (k - s),
)

pub extract-lt : (w s x : ℕ) → extract w s x < 2 ^ w
extract-lt w s x = mod-lt (x / 2 ^ s) (pow_pos w)

pub insert-lt : (n w s x v : ℕ) → x < 2 ^ n → v < 2 ^ w → s + w ≤ n → insert n w s x v < 2 ^ n
insert-lt n w s x v word fits inside =
    bit_or-lt n (bit_and x (complement n (mask w s))) (v * 2 ^ s) (bit_and-lt n x _ word)
      (shifted-lt n w s v fits inside)

-- The field that was replaced reads back.
pub extract-insert_self :
    (n w s x v : ℕ) → v < 2 ^ w → s + w ≤ n → extract w s (insert n w s x v) ≡ v
extract-insert_self n w s x v fits inside =
    bit_ext w (extract w s (insert n w s x v)) v (extract-lt w s (insert n w s x v)) fits λ k low.
      ground (
        arith,
        bit-extract w s (insert n w s x v) k,
        bit-insert n w s x v (s + k) fits inside (omega arith),
        ap (bit v) (let e : s + k - s ≡ k = omega arith in e),
      )

-- Fields that do not overlap it are kept.
pub extract-insert_other :
    (n w s x v w' s' : ℕ)
    → v < 2 ^ w
    → s + w ≤ n
    → s' + w' ≤ n
    → (s' + w' ≤ s) ⊎ (s + w ≤ s')
    → extract w' s' (insert n w s x v) ≡ extract w' s' x
extract-insert_other n w s x v w' s' fits inside inside' apart =
    bit_ext w' (extract w' s' (insert n w s x v)) (extract w' s' x)
      (extract-lt w' s' (insert n w s x v)) (extract-lt w' s' x)
      λ k low. ground (
        arith,
        bit-extract w' s' (insert n w s x v) k,
        bit-extract w' s' x k,
        bit-insert n w s x v (s' + k) fits inside (omega arith),
      )

-- A bit that is not below `s`, counted from `s`.
place : (s k x : ℕ) → s ≤ k → bit x (s + (k - s)) ≡ bit x k
place s k x above = ap (bit x) (let e : s + (k - s) ≡ k = omega arith in e)

-- `x & mask` is the field, still shifted up.
pub bit_and-mask : (w s x : ℕ) → bit_and x (mask w s) ≡ extract w s x * 2 ^ s
bit_and-mask w s x =
    let n : ℕ = s + w in
    bit_ext n (bit_and x (mask w s)) (extract w s x * 2 ^ s)
      (bit_and-lt' n x (mask w s) (mask-lt n w s (le_refl n)))
      (shifted-lt n w s (extract w s x) (extract-lt w s x) (le_refl n))
      λ k low. ground (
        arith,
        bit-and x (mask w s) k,
        bit-mask w s k,
        bit-shifted w s (extract w s x) k (extract-lt w s x),
        bit-extract w s x (k - s),
        bit-lt x k,
        place s k x,
      )

-- A part of the field that was replaced is that part of the value.
pub extract-insert_inner :
    (n w s x v w' s' : ℕ)
    → v < 2 ^ w
    → s + w ≤ n
    → s' + w' ≤ w
    → extract w' (s + s') (insert n w s x v) ≡ extract w' s' v
extract-insert_inner n w s x v w' s' fits inside within =
    bit_ext w' (extract w' (s + s') (insert n w s x v)) (extract w' s' v)
      (extract-lt w' (s + s') (insert n w s x v)) (extract-lt w' s' v)
      λ k low. ground (
        arith,
        bit-extract w' (s + s') (insert n w s x v) k,
        bit-extract w' s' v k,
        bit-insert n w s x v (s + s' + k) fits inside (omega arith),
        ap (bit v) (let e : s + s' + k - s ≡ s' + k = omega arith in e),
      )

-- The low bits of a bitwise operation are those of the low bits.
mod_lt : (w x : ℕ) → x % 2 ^ w < 2 ^ w
mod_lt w x = let e : extract w 0 x < 2 ^ w = extract-lt w 0 x in omega (arith, pow_pos w)

pub bit_or-mod : (w a b : ℕ) → bit_or a b % 2 ^ w ≡ bit_or (a % 2 ^ w) (b % 2 ^ w)
bit_or-mod w a b =
    bit_ext w (bit_or a b % 2 ^ w) (bit_or (a % 2 ^ w) (b % 2 ^ w)) (mod_lt w (bit_or a b))
      (bit_or-lt w (a % 2 ^ w) (b % 2 ^ w) (mod_lt w a) (mod_lt w b))
      λ k low. ground (
        arith,
        bit-mod w (bit_or a b) k,
        bit-or a b k,
        bit-or (a % 2 ^ w) (b % 2 ^ w) k,
        bit-mod w a k,
        bit-mod w b k,
      )

pub bit_and-mod : (w a b : ℕ) → bit_and a b % 2 ^ w ≡ bit_and (a % 2 ^ w) (b % 2 ^ w)
bit_and-mod w a b =
    bit_ext w (bit_and a b % 2 ^ w) (bit_and (a % 2 ^ w) (b % 2 ^ w)) (mod_lt w (bit_and a b))
      (bit_and-lt w (a % 2 ^ w) (b % 2 ^ w) (mod_lt w a))
      λ k low. ground (
        arith,
        bit-mod w (bit_and a b) k,
        bit-and a b k,
        bit-and (a % 2 ^ w) (b % 2 ^ w) k,
        bit-mod w a k,
        bit-mod w b k,
      )
