-- ===== src/Clic/Masks.antt =====
-- The masks that src/drivers/sifive_clic0.c computes from numbers of bits, as fields of a byte.
use freedom_metal.Prelude.{
  ℕ, ◌+◌, ◌-◌, ◌*◌, ◌/◌, ◌%◌, ◌^◌, ◌≤◌, ◌<◌, ◌≡◌, ◌∙◌, ap, arith, ltb, if◌then◌else◌, bit_and,
  bit_or,
}
use freedom_metal.Prelude.Bits.{
  bit, complement, bit-or, bit-and, bit-complement, bit_ext, bit_or-lt, bit-shift_down, bit_and-lt,
}
use freedom_metal.Prelude.Fields.{
  mask, extract, pow_pos, bit-ones, bit-mask, mask-lt, extract-lt, bit_and-mask, two_pow_add,
  bit-extract, bit-shifted, shifted-lt,
}
use freedom_metal.Pll.{get_field}
use freedom_metal.Clic.{byte_mask}
use native.Mathlib.Nat.{mul-div_cancel, div-le_self, pow-le-pow_right, mul-le-mul}

-- `255 >> a`
bit-ones_down : (a k : ℕ) → bit (255 / 2 ^ a) k ≡ (if ltb (a + k) 8 then 1 else 0)
bit-ones_down a k = bit-shift_down 255 a k ∙ bit-ones 8 (a + k)

ones_down-lt : (a : ℕ) → 255 / 2 ^ a < 2 ^ 8
ones_down-lt a = omega (arith, div-le_self 255 (2 ^ a))

-- Between `a` bits at the top and those below `b` bits from the top.
pub byte_mask-mask : (a w : ℕ) → a + w ≤ 8 → byte_mask a (255 / 2 ^ (a + w)) ≡ mask w (8 - (a + w))
byte_mask-mask a w inside =
    let low : ℕ = 255 / 2 ^ (a + w) in
    let high : ℕ = complement 8 (255 / 2 ^ a) in
    let outside : bit_or low high < 2 ^ 8 =
      bit_or-lt 8 low high (ones_down-lt (a + w)) (omega arith) in
    bit_ext 8 (complement 8 (bit_or low high)) (mask w (8 - (a + w))) (omega (arith, outside))
      (mask-lt 8 w (8 - (a + w)) (omega arith))
      λ k under. ground (
        arith,
        bit-complement 8 (bit_or low high) k outside under,
        bit-or low high k,
        bit-ones_down (a + w) k,
        bit-complement 8 (255 / 2 ^ a) k (ones_down-lt a) under,
        bit-ones_down a k,
        bit-mask w (8 - (a + w)) k,
      )

bit_one : (k : ℕ) → bit 1 k ≡ (if ltb k 1 then 1 else 0)
bit_one k = bit-ones 1 k

-- The lowest bit of a mask.
lowest :
    (w s : ℕ)
    → 1 ≤ w
    → s + w ≤ 8
    → bit_and (mask w s) (complement 32 (mask w s * 2 % 2 ^ 32)) ≡ 1 * 2 ^ s
lowest w s some_bits inside =
    let m : ℕ = mask w s in
    let small : m < 2 ^ 8 = mask-lt 8 w s inside in
    let up : m * 2 ≡ mask w (s + 1) =
      omega (arith, ap (λ (t : ℕ). (2 ^ w - 1) * t) (two_pow_add s 1)) in
    let word : m * 2 % 2 ^ 32 ≡ mask w (s + 1) = omega (arith, small, up) in
    let up_small : mask w (s + 1) < 2 ^ 32 = omega (arith, small, up) in
    rw (word) (
      bit_ext 8 (bit_and m (complement 32 (mask w (s + 1)))) (1 * 2 ^ s) (bit_and-lt 8 m _ small)
        (shifted-lt 8 1 s 1 (omega arith) (omega arith))
        λ k under. ground (
          arith,
          bit-and m (complement 32 (mask w (s + 1))) k,
          bit-mask w s k,
          bit-complement 32 (mask w (s + 1)) k up_small (omega arith),
          bit-mask w (s + 1) k,
          bit-shifted 1 s 1 k (omega arith),
          bit_one (k - s),
        ))

pub get_field-mask : (w s x : ℕ) → 1 ≤ w → s + w ≤ 8 → get_field x (mask w s) ≡ extract w s x
get_field-mask w s x some_bits inside =
    let unit : 1 * 2 ^ s ≡ 2 ^ s = omega arith in
    rw (lowest w s some_bits inside, bit_and-mask w s x, unit)
      (mul-div_cancel (extract w s x) (pow_pos s))

pub mask-some : (w s : ℕ) → 1 ≤ w → 1 ≤ mask w s
mask-some w s some_bits =
    let doubled : 2 ^ 1 ≤ 2 ^ w = pow-le-pow_right (omega arith) some_bits in
    let ones : 1 ≤ 2 ^ w - 1 = omega (arith, doubled) in
    let product : 1 * 1 ≤ mask w s = mul-le-mul ones (pow_pos s) in omega (arith, product)

-- A field of a byte is a byte.
pub extract-byte : (w s x : ℕ) → w ≤ 8 → extract w s x < 2 ^ 8
extract-byte w s x inside =
    let whole : 2 ^ w ≤ 2 ^ 8 = pow-le-pow_right (omega arith) inside in
    omega (arith, extract-lt w s x, whole)

-- A field of no bits is 0.
pub extract-none : (s x : ℕ) → extract 0 s x ≡ 0
extract-none s x = omega arith

-- The lowest bit of a field.
pub extract-lowest : (w s x : ℕ) → 1 ≤ w → extract 1 0 (extract w s x) ≡ extract 1 s x
extract-lowest w s x some_bits =
    bit_ext 1 (extract 1 0 (extract w s x)) (extract 1 s x) (extract-lt 1 0 (extract w s x))
      (extract-lt 1 s x)
      λ k low. ground (
        arith,
        bit-extract 1 0 (extract w s x) k,
        bit-extract w s x (0 + k),
        bit-extract 1 s x k,
        ap (λ (t : ℕ). bit (extract w s x) t) (let e : 0 + k ≡ k = omega arith in e),
        bit-extract w s x k,
      )
