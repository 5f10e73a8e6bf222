-- ===== src/Pmp/Granularity.antt =====
-- The loops over the bits of pmpaddr: the granularity that metal_pmp_init detects, and the size of
-- the region that a NAPOT address asks for.
use native.Mathlib.Nat.{
  mod-eq_of_lt, one-le-pow, mul-pos, pow-le-pow_right, add-mul-div_right, add-mul-mod_self_right,
  div-eq_of_lt,
}
use freedom_metal.Prelude.{
  true, ℕ, zero, suc, ◌+◌, ◌-◌, ◌*◌, ◌/◌, ◌%◌, ◌^◌, ◌≤◌, ◌<◌, ◌≡◌, refl, ap, ◌∙◌, sym, some, none,
  arith,
}
use freedom_metal.Prelude.Bits.{bit, bit_lem, bit-shift_up, bit-shift_up_low, bit-mod}
use freedom_metal.Prelude.Fields.{bit-ones}
use freedom_metal.Pmp.{
  Hart, Pmp, Config, Reading, Mode.napot, pmp_regions, set_region, too_fine, Xlen, width, rv32,
  rv64, lowest_one, lowest_zero, get_detected_granularity, get_pmpaddr_granularity,
}

-- The loop stops at the first index that passes its test.
lowest_one-found :
    (fuel index found address : ℕ)
    → index ≤ found
    → found < index + fuel
    → ((j : ℕ) → j < found → bit address j ≡ 0)
    → bit address found ≡ 1
    → lowest_one fuel address index ≡ some found
unfolding lowest_one
lowest_one-found zero index found address low high below here = absurd (omega arith)
lowest_one-found (suc fuel) index found address low high below here =
    ground
      (arith, bit_lem address index, below index, lowest_one-found fuel (index + 1) found address)

lowest_zero-found :
    (fuel index found address : ℕ)
    → index ≤ found
    → found < index + fuel
    → ((j : ℕ) → j < found → bit address j ≡ 1)
    → bit address found ≡ 0
    → lowest_zero fuel address index ≡ some found
unfolding lowest_zero
lowest_zero-found zero index found address low high below here = absurd (omega arith)
lowest_zero-found (suc fuel) index found address low high below here =
    ground
      (arith, bit_lem address index, below index, lowest_zero-found fuel (index + 1) found address)

-- With ones only, the loop runs past the word.
lowest_zero-none :
    (fuel index address : ℕ)
    → ((j : ℕ) → j < index + fuel → bit address j ≡ 1)
    → lowest_zero fuel address index ≡ none
unfolding lowest_zero
lowest_zero-none zero index address ones = refl
lowest_zero-none (suc fuel) index address ones = ground (
  arith,
  bit_lem address index,
  ones index (omega arith),
  lowest_zero-none fuel (index + 1) address (λ j h. ones j (omega arith)),
)

-- An odd number above `i` zeros.
abbrev pub granular : ℕ → ℕ → ℕ
granular m i = (2 * m + 1) * 2 ^ i

granular-bits :
    (m i : ℕ) → ((j : ℕ) → j < i → bit (granular m i) j ≡ 0) × (bit (granular m i) i ≡ 1)
granular-bits m i = (
  λ j h. bit-shift_up_low (2 * m + 1) i j h,
  let place : i + 0 ≡ i = omega arith in
      let lowest : bit (2 * m + 1) 0 ≡ 1 = omega (arith, bit_lem (2 * m + 1) 0) in
      sym (ap (bit (granular m i)) place) ∙ bit-shift_up (2 * m + 1) i 0 ∙ lowest,
)

-- A NAPOT address: `i` ones below a zero.
abbrev pub napot_address : ℕ → ℕ → ℕ
napot_address m i = (2 ^ i - 1) + 2 * m * 2 ^ i

napot-bits :
    (m i : ℕ) → ((j : ℕ) → j < i → bit (napot_address m i) j ≡ 1) × (bit (napot_address m i) i ≡ 0)
napot-bits m i =
    let positive : 0 < 2 ^ i = one-le-pow i 2 (omega arith) in
    let ones : napot_address m i % 2 ^ i ≡ 2 ^ i - 1 =
      add-mul-mod_self_right (2 ^ i - 1) (2 * m) (2 ^ i) ∙ mod-eq_of_lt (omega arith) in
    let above : napot_address m i / 2 ^ i ≡ 2 * m =
      add-mul-div_right (2 ^ i - 1) (2 * m) positive
      ∙ ap (λ (t : ℕ). t + 2 * m) (div-eq_of_lt {n = 2 ^ i - 1} {m = 2 ^ i} (omega arith))
      ∙ omega arith in
    (
      λ j h.
          ground
            (arith, bit-mod i (napot_address m i) j, ap (λ (t : ℕ). bit t j) ones, bit-ones i j),
      omega (arith, bit_lem (napot_address m i) i, above),
    )

width-ge : (xlen : Xlen) → 32 ≤ width xlen
width-ge rv32 = omega arith
width-ge rv64 = omega arith

granular-pos : (m i : ℕ) → 0 < granular m i
granular-pos m i = mul-pos (omega arith) (one-le-pow i 2 (omega arith))

two_pow-le : (i j : ℕ) → i ≤ j → 2 ^ i ≤ 2 ^ j
two_pow-le i j h = pow-le-pow_right (omega arith) h

module _ (hart : Hart) where
  -- For an address whose lowest set bit is bit i, i < 29, _get_detected_granularity ends and
  -- returns 2 ^ (i + 2).
  pub get_detected_granularity-granular :
      (m i : ℕ) → i < 29 → get_detected_granularity hart (granular m i) ≡ some (2 ^ (i + 2))
  unfolding get_detected_granularity
  get_detected_granularity-granular m i low =
      let (below, here) = granular-bits m i in
      let found : lowest_one (width hart.xlen) (granular m i) 0 ≡ some i =
        lowest_one-found (width hart.xlen) 0 i (granular m i) (omega arith)
          (omega (arith, width-ge hart.xlen)) below here in
      let small : 2 ^ (i + 2) ≤ 2 ^ 30 = two_pow-le (i + 2) 30 (omega arith) in
      ground (arith, found, small, granular-pos m i)

  -- For an address with i trailing ones, i < 28, below a 0 bit, _get_pmpaddr_granularity ends
  -- and returns 2 ^ (i + 3).
  pub get_pmpaddr_granularity-napot :
      (m i : ℕ) → i < 28 → get_pmpaddr_granularity hart (napot_address m i) ≡ some (2 ^ (i + 3))
  unfolding get_pmpaddr_granularity
  get_pmpaddr_granularity-napot m i low =
      let (below, here) = napot-bits m i in
      let found : lowest_zero (width hart.xlen) (napot_address m i) 0 ≡ some i =
        lowest_zero-found (width hart.xlen) 0 i (napot_address m i) (omega arith)
          (omega (arith, width-ge hart.xlen)) below here in
      let small : 2 ^ (i + 3) ≤ 2 ^ 30 = two_pow-le (i + 3) 30 (omega arith) in
      ground (arith, found, small)

  -- An address of ones only, the NAPOT region of the whole memory, makes the loop shift by the
  -- width of the word.
  pub get_pmpaddr_granularity-ones : get_pmpaddr_granularity hart (2 ^ width hart.xlen - 1) ≡ none
  unfolding get_pmpaddr_granularity
  get_pmpaddr_granularity-ones =
      let stuck : lowest_zero (width hart.xlen) (2 ^ width hart.xlen - 1) 0 ≡ none =
        lowest_zero-none (width hart.xlen) 0 (2 ^ width hart.xlen - 1)
          (λ j h. ground (arith, bit-ones (width hart.xlen) j)) in
      ground (arith, stuck)

  -- metal_pmp_set_region on a region in range returns 3 and changes nothing where the NAPOT
  -- address asks for a region smaller than the granularity of the hart.
  pub set_region-napot_too_fine :
      (m i region : ℕ) (config : Config) (held : Reading) (p : Pmp hart)
      → i < 28
      → config.a ≡ napot
      → region ≤ pmp_regions hart
      → 2 ^ (i + 3) < p.granularity hart.current_hartid
      → set_region hart true region config (napot_address m i) held p ≡ some (3, p)
  unfolding set_region too_fine
  set_region-napot_too_fine m i region config held p low mode in_range fine =
      ground (arith, get_pmpaddr_granularity-napot m i low)
