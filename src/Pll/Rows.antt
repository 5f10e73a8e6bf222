-- ===== src/Pll/Rows.antt =====
-- What holds of every row of the table: its frequencies are exact in 32 bits, its fields fit the
-- registers, and the dividers that it programs make the ratio that it states.
use native.Mathlib.Nat.{mul-le-mul, le_refl, mod-eq_of_lt, le-div_iff_mul-le, div-le_self}
use freedom_metal.Prelude.{
  ℕ, zero, suc, ◌+◌, ◌-◌, ◌*◌, ◌/◌, ◌%◌, ◌^◌, ◌≤◌, ◌<◌, ◌≡◌, refl, ap, ◌∙◌, Bool, true, ◌&&◌,
  Option, none, some, List, [], ◌∷◌, ltb, leb, ◌==◌, get_elem?, arith,
}
use freedom_metal.Pll.Table.{PllConfig, pll_configs}
use freedom_metal.Pll.{get_pll_config_freq}

all {ℓ} : {A : Type ℓ} → (A → Bool) → List A → Bool
all p [] = true
all p (x ∷ xs) = p x && all p xs

all_sound {ℓ} :
    {A : Type ℓ} (p : A → Bool) (xs : List A) (i : ℕ) (x : A)
    → all p xs ≡ true
    → get_elem? xs i ≡ some x
    → p x ≡ true
unfolding all
all_sound p [] i x h e = cc
all_sound p (y ∷ ys) zero x h e = ground arith
all_sound p (y ∷ ys) (suc i) x h e = all_sound p ys i x (ground arith) e

-- The final divider: 1 where it is off, else 2 * (d + 1).
abbrev pub final_divider : Option ℕ → ℕ
final_divider none = 1
final_divider (some d) = 2 * (d + 1)

abbrev fits_divider : Option ℕ → Bool
fits_divider none = true
fits_divider (some d) = ltb d 64

abbrev row_test : PllConfig → Bool
row_test c =
    leb 1 c.divisor
    && ltb (c.max_input_rate * c.multiplier) (2 ^ 31 - 1)
    && leb c.divisor (c.min_input_rate * c.multiplier)
    && ltb c.r 8
    && ltb c.f 64
    && leb 1 c.q
    && ltb c.q 4
    && fits_divider c.d
    && ltb (c.max_input_rate * (2 * (c.f + 1))) (2 ^ 31 * (c.r + 1))
    && (2 * (c.f + 1) * c.divisor == c.multiplier * (c.r + 1) * 2 ^ c.q * final_divider c.d)

rows_pass : all row_test pll_configs ≡ true
unfolding all
rows_pass = refl

pub record IsRow (c : PllConfig) : Type 0 where
  pub divides : 1 ≤ c.divisor
  pub no_overflow : c.max_input_rate * c.multiplier < 2 ^ 31 - 1
  pub positive : c.divisor ≤ c.min_input_rate * c.multiplier
  pub r_fits : c.r < 8
  pub f_fits : c.f < 64
  pub q_positive : 1 ≤ c.q
  pub q_fits : c.q < 4
  pub d_fits : fits_divider c.d ≡ true
  pub product_fits : c.max_input_rate * (2 * (c.f + 1)) < 2 ^ 31 * (c.r + 1)
  pub ratio : 2 * (c.f + 1) * c.divisor ≡ c.multiplier * (c.r + 1) * 2 ^ c.q * final_divider c.d

row_test-IsRow : (c : PllConfig) → row_test c ≡ true → IsRow c
row_test-IsRow c h = ground arith

pub pll_configs-IsRow : (i : ℕ) (c : PllConfig) → get_elem? pll_configs i ≡ some c → IsRow c
pll_configs-IsRow i c e = row_test-IsRow c (all_sound row_test pll_configs i c rows_pass e)

pub in_range :
    (c : PllConfig) (ref_hz freq : ℕ)
    → get_pll_config_freq ref_hz c ≡ some freq
    → (c.min_input_rate ≤ ref_hz)
      × (ref_hz ≤ c.max_input_rate)
      × (freq ≡ ref_hz * c.multiplier % 2 ^ 32 / c.divisor)
unfolding get_pll_config_freq
in_range c ref_hz freq e = ground arith

-- The frequency of a row is the exact quotient, positive and within `long`.
pub freq_exact :
    (c : PllConfig) (ref_hz freq : ℕ)
    → IsRow c
    → get_pll_config_freq ref_hz c ≡ some freq
    → (freq ≡ ref_hz * c.multiplier / c.divisor) × (1 ≤ freq) × (freq < 2 ^ 31 - 1)
freq_exact c ref_hz freq row e =
    let (above, below, value) = in_range c ref_hz freq e in
    let high : ref_hz * c.multiplier ≤ c.max_input_rate * c.multiplier =
      mul-le-mul below (le_refl c.multiplier) in
    let low : c.min_input_rate * c.multiplier ≤ ref_hz * c.multiplier =
      mul-le-mul above (le_refl c.multiplier) in
    let exact : ref_hz * c.multiplier % 2 ^ 32 ≡ ref_hz * c.multiplier =
      mod-eq_of_lt (omega (arith, row.no_overflow)) in
    let quotient : freq ≡ ref_hz * c.multiplier / c.divisor =
      value ∙ ap (λ (t : ℕ). t / c.divisor) exact in
    let one : 1 ≤ ref_hz * c.multiplier / c.divisor =
      (le-div_iff_mul-le row.divides).1 (omega (arith, row.positive)) in
    let small : ref_hz * c.multiplier / c.divisor ≤ ref_hz * c.multiplier =
      div-le_self (ref_hz * c.multiplier) c.divisor in
    (quotient, omega arith, omega (arith, row.no_overflow))
