-- ===== src/Pll/SetRate.antt =====
-- set_rate_hz and get_rate_hz: the rate that is read back from the registers is the rate of the row
-- that find_closest_config chose.
use native.Mathlib.Nat.{
  mul-pos, mul_comm, mul-le-mul, le_refl, lt_of_mul-lt-mul_right, div-mul-le_self,
  div-div-eq-div-mul, mul-div-mul_right, mul-div_cancel,
}
use freedom_metal.Prelude.{
  ℕ, ◌+◌, ◌*◌, ◌/◌, ◌^◌, ◌≤◌, ◌<◌, ◌≡◌, ◌⊎◌, inl, inr, arith, ◌∙◌, refl, sym, ap, false, ◌==◌,
  if◌then◌else◌, Option, none, some, Bool-cases, Option-cases, bit_and, get_elem?,
}
use freedom_metal.Prelude.Fields.{pow_pos}
use freedom_metal.Prelude.Fields.{bit_and-mask}
use freedom_metal.Prelude.Low.{field_of_mask}
use freedom_metal.Prelude.Machine.{set_bits}
use freedom_metal.Pll.Table.{PllConfig, pll_configs}
use freedom_metal.Pll.Rows.{IsRow, pll_configs-IsRow, final_divider, in_range, freq_exact}
use freedom_metal.Pll.{
  Prci, pllcfg, plloutdiv, hz, get_rate_hz, set_rate_hz, reclock, deselect, near_input,
  find_closest_config, get_pll_config_freq, pll_sel, pll_refsel,
}
use freedom_metal.Pll.Fields.{
  IsPrci, field, field-set_bit, field-set_bits_other, field-clear_bits_other, field-write_kept,
}
use freedom_metal.Pll.Configure.{Programmed}
use freedom_metal.Pll.Wait.{Locks, configure_pll-Programmed}

-- The rate that a row makes of the rate of its input, with the divisions of the hardware.
abbrev pub row_rate : ℕ → PllConfig → ℕ
row_rate ref_hz c = ref_hz / (c.r + 1) * (2 * (c.f + 1)) / 2 ^ c.q / final_divider c.d

module _ (prci : Prci) (pllref_hz pllsel0_hz : ℕ) where
  open prci use {regs}

  -- The rate of the clock that the mux before the PLL selects.
  abbrev pub input_hz : regs.State → ℕ
  input_hz s = if field prci pllcfg 1 17 s == 0 then pllsel0_hz else pllref_hz

  get_rate_hz-Programmed :
      (config : PllConfig) (s t : regs.State)
      → IsRow config
      → Programmed prci config s t
      → field prci pllcfg 1 16 t ≡ 1
      → input_hz t / (config.r + 1) * (2 * (config.f + 1)) < 2 ^ 31
      → get_rate_hz prci pllref_hz pllsel0_hz t ≡ hz (row_rate (input_hz t) config)
  unfolding get_rate_hz
  get_rate_hz-Programmed config s t row p selected small = elim (Option-cases config.d) [
    | inl off ↦ rw off (
        ground (
          arith,
          field_of_mask 3 0 (regs.read t pllcfg),
          field_of_mask 6 4 (regs.read t pllcfg),
          field_of_mask 2 10 (regs.read t pllcfg),
          field_of_mask 1 16 (regs.read t pllcfg),
          field_of_mask 1 17 (regs.read t pllcfg),
          field_of_mask 1 18 (regs.read t pllcfg),
          field_of_mask 1 8 (regs.read t plloutdiv),
          p.r_set,
          p.f_set,
          p.q_set,
          p.bypass_off,
          p.divider_off off,
          row.q_positive,
        ))
    | inr on ↦ rw on.1 (
        ground (
          arith,
          field_of_mask 3 0 (regs.read t pllcfg),
          field_of_mask 6 4 (regs.read t pllcfg),
          field_of_mask 2 10 (regs.read t pllcfg),
          field_of_mask 1 16 (regs.read t pllcfg),
          field_of_mask 1 17 (regs.read t pllcfg),
          field_of_mask 1 18 (regs.read t pllcfg),
          field_of_mask 1 8 (regs.read t plloutdiv),
          field_of_mask 6 0 (regs.read t plloutdiv),
          p.r_set,
          p.f_set,
          p.q_set,
          p.bypass_off,
          p.divider_on on.0 on.1,
          p.divider_set on.0 on.1,
          row.q_positive,
        ))
  ]

final_divider-pos : (d : Option ℕ) → 0 < final_divider d
final_divider-pos none = omega arith
final_divider-pos (some d) = omega arith

-- Where the first division leaves no remainder, the hardware makes the ratio of the row exactly.
pub row_rate-exact :
    (k : ℕ) (c : PllConfig)
    → IsRow c
    → row_rate (k * (c.r + 1)) c ≡ k * (c.r + 1) * c.multiplier / c.divisor
row_rate-exact k c row =
    let up : ℕ = 2 * (c.f + 1) in
    let down : ℕ = 2 ^ c.q * final_divider c.d in
    let n : ℕ = k * (c.r + 1) * c.multiplier in
    let positive : 0 < down = mul-pos (pow_pos c.q) (final_divider-pos c.d) in
    let same : k * up * c.divisor ≡ n * down = omega (arith, ap (λ (t : ℕ). k * t) row.ratio) in
    ap (λ (t : ℕ). t * up / 2 ^ c.q / final_divider c.d)
      (mul-div_cancel k {n = c.r + 1} (omega arith))
    ∙ div-div-eq-div-mul (k * up) (2 ^ c.q) (final_divider c.d)
    ∙ sym (mul-div-mul_right {m = c.divisor} (k * up) down row.divides)
    ∙ ap (λ (t : ℕ). t / (down * c.divisor)) same
    ∙ ap (λ (t : ℕ). n * down / t) (mul_comm down c.divisor)
    ∙ mul-div-mul_right {m = down} n c.divisor positive

-- The product within get_rate_hz does not overflow at a row and an input rate that fits it.
product_fits :
    (ref_hz : ℕ) (c : PllConfig)
    → IsRow c
    → ref_hz ≤ c.max_input_rate
    → ref_hz / (c.r + 1) * (2 * (c.f + 1)) < 2 ^ 31
product_fits ref_hz c row below =
    let up : ℕ = 2 * (c.f + 1) in
    let input : ref_hz / (c.r + 1) * (c.r + 1) ≤ c.max_input_rate =
      omega (arith, div-mul-le_self ref_hz (c.r + 1)) in
    let scaled : ref_hz / (c.r + 1) * (c.r + 1) * up ≤ c.max_input_rate * up =
      mul-le-mul input (le_refl up) in
    lt_of_mul-lt-mul_right (c.r + 1) (omega (arith, row.product_fits))

module _ (prci : Prci) (pllref_hz pllsel0_hz : ℕ) (laws : IsPrci prci) where
  open prci use {regs}

  -- The last write, `pllcfg |= PLL_SEL`.
  abbrev selected : regs.State → regs.State
  selected t = set_bits regs t pllcfg (1 * 2 ^ 16)

  selected_other :
      (w i : ℕ) (t : regs.State)
      → i + w ≤ 31
      → (i + w ≤ 16) ⊎ (17 ≤ i)
      → field prci pllcfg w i (selected t) ≡ field prci pllcfg w i t
  selected_other w i t inside apart =
      field-set_bits_other prci laws pllcfg 1 16 1 t (omega arith) (omega arith) w i inside apart

  selected_divider :
      (w i : ℕ) (t : regs.State)
      → i + w ≤ 31
      → field prci plloutdiv w i (selected t) ≡ field prci plloutdiv w i t
  selected_divider w i t inside =
      field-write_kept prci laws pllcfg plloutdiv _ w i t (λ e. cc) inside

  selected-Programmed :
      (config : PllConfig) (s t : regs.State)
      → Programmed prci config s t
      → Programmed prci config (selected t) (selected t)
  selected-Programmed config s t p = record {
    r_set = selected_other 3 0 t (omega arith) (inl (omega arith)) ∙ p.r_set;
    f_set = selected_other 6 4 t (omega arith) (inl (omega arith)) ∙ p.f_set;
    q_set = selected_other 2 10 t (omega arith) (inl (omega arith)) ∙ p.q_set;
    bypass_off = selected_other 1 18 t (omega arith) (inr (omega arith)) ∙ p.bypass_off;
    sel_kept = refl;
    refsel_kept = refl;
    divider_off = λ off. selected_divider 1 8 t (omega arith) ∙ p.divider_off off;
    divider_on = λ d on. selected_divider 1 8 t (omega arith) ∙ p.divider_on d on;
    divider_set = λ d on. selected_divider 6 0 t (omega arith) ∙ p.divider_set d on;
  }

  pub refsel-deselect :
      (s : regs.State) → field prci pllcfg 1 17 (deselect prci s) ≡ field prci pllcfg 1 17 s
  unfolding deselect
  refsel-deselect s = elim (Bool-cases (bit_and (regs.read s pllcfg) pll_sel == 0)) [
    | inl clear ↦ rw (clear, deselect)
    | inr on ↦
        rw (on, deselect)
          (field-clear_bits_other prci laws pllcfg 1 16 s (omega arith) 1 17 (omega arith)
            (inr (omega arith)))
  ]

  module _ (fuel rate i : ℕ) (config : PllConfig) (s : regs.State) where
    abbrev ref_hz : ℕ
    ref_hz = input_hz prci pllref_hz pllsel0_hz s

    module _ (far : near_input ref_hz rate ≡ some false)
        (found : find_closest_config ref_hz rate ≡ some i)
        (entry : get_elem? pll_configs i ≡ some config) (freq : ℕ)
        (valid : get_pll_config_freq ref_hz config ≡ some freq) (enough : 6 ≤ fuel)
        (locks : Locks prci fuel) where
      -- Where the desired rate is not near the input rate and find_closest_config gives row i,
      -- on registers that hold what is written below bit 31, with a timer that advances and a
      -- PLL that locks within the fuel, at least 6 polls, set_rate_hz ends; the rate that it
      -- reads back and returns is the input rate divided by r + 1, times 2 (f + 1), divided by 2
      -- ^ q and by the final divider of that row; and where the input rate is a multiple of r +
      -- 1 this is the frequency by which the row was chosen.
      pub set_rate_hz-row :
          (s' : regs.State) × (set_rate_hz prci fuel pllref_hz pllsel0_hz rate s
            ≡ some (s', hz (row_rate ref_hz config)))
          × ((k : ℕ) → ref_hz ≡ k * (config.r + 1) → row_rate ref_hz config ≡ freq)
      unfolding set_rate_hz reclock
      set_rate_hz-row =
          let row : IsRow config = pll_configs-IsRow i config entry in
          let off : regs.State = deselect prci s in
          let (t, configured, p) =
            configure_pll-Programmed prci laws fuel config off row enough locks in
          let u : regs.State = selected t in
          let refsel : field prci pllcfg 1 17 u ≡ field prci pllcfg 1 17 s =
            selected_other 1 17 t (omega arith) (inr (omega arith))
            ∙ p.refsel_kept
            ∙ refsel-deselect s in
          let input : input_hz prci pllref_hz pllsel0_hz u ≡ ref_hz =
            ap (λ (b : ℕ). if b == 0 then pllsel0_hz else pllref_hz) refsel in
          let input_off : (if bit_and (regs.read off pllcfg) pll_refsel == 0
                then pllsel0_hz
                else pllref_hz)
              ≡ ref_hz =
            ground (arith, bit_and-mask 1 17 (regs.read off pllcfg), refsel-deselect s) in
          let (above, below, value) = in_range config ref_hz freq valid in
          let rate_read : get_rate_hz prci pllref_hz pllsel0_hz u ≡ hz (row_rate ref_hz config) =
            get_rate_hz-Programmed prci pllref_hz pllsel0_hz config u u row
              (selected-Programmed config off t p)
              (field-set_bit prci laws pllcfg 16 t (omega arith))
              (rw input (product_fits ref_hz config row below))
            ∙ ap (λ (x : ℕ). hz (row_rate x config)) input in
          (
            u,
            rw (input_off, far, found, entry, configured, rate_read),
            λ k e.
                ap (λ (x : ℕ). row_rate x config) e
                ∙ row_rate-exact k config row
                ∙ ap (λ (x : ℕ). x * config.multiplier / config.divisor) (sym e)
                ∙ sym ((freq_exact config ref_hz freq row valid).0),
          )
