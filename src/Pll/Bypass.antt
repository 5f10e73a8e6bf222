-- ===== src/Pll/Bypass.antt =====
-- set_rate_hz where it bypasses the PLL: the rate is that of the input clock.
use freedom_metal.Prelude.{
  ℕ, ◌*◌, ◌^◌, ◌≡◌, ◌⊎◌, inl, inr, arith, ◌∙◌, true, false, ◌==◌, if◌then◌else◌, none, some,
  bit_and,
}
use freedom_metal.Prelude.Fields.{bit_and-mask}
use freedom_metal.Prelude.Low.{field_of_mask}
use freedom_metal.Prelude.Machine.{set_bits}
use freedom_metal.Pll.{
  Prci, pllcfg, hz, get_rate_hz, set_rate_hz, reclock, deselect, near_input, find_closest_config,
  pll_refsel,
}
use freedom_metal.Pll.Fields.{IsPrci, field, field-set_bit, field-set_bits_other}
use freedom_metal.Pll.SetRate.{input_hz, refsel-deselect}

module _ (prci : Prci) (pllref_hz pllsel0_hz : ℕ) (laws : IsPrci prci) where
  open prci use {regs}

  module _ (fuel rate : ℕ) (s : regs.State) where
    abbrev ref_hz : ℕ
    ref_hz = input_hz prci pllref_hz pllsel0_hz s

    abbrev bypassed : regs.State
    bypassed = set_bits regs (deselect prci s) pllcfg (1 * 2 ^ 18)

    abbrev on : regs.State
    on = set_bits regs bypassed pllcfg (1 * 2 ^ 16)

    refsel_kept : field prci pllcfg 1 17 on ≡ field prci pllcfg 1 17 s
    refsel_kept =
        field-set_bits_other prci laws pllcfg 1 16 1 bypassed (omega arith) (omega arith) 1 17
          (omega arith) (inr (omega arith))
        ∙ field-set_bits_other prci laws pllcfg 1 18 1 (deselect prci s) (omega arith) (omega arith)
            1 17 (omega arith) (inl (omega arith))
        ∙ refsel-deselect prci pllref_hz pllsel0_hz laws s

    bypass_on : field prci pllcfg 1 18 on ≡ 1
    bypass_on =
        field-set_bits_other prci laws pllcfg 1 16 1 bypassed (omega arith) (omega arith) 1 18
          (omega arith) (inr (omega arith))
        ∙ field-set_bit prci laws pllcfg 18 (deselect prci s) (omega arith)

    rate_read : get_rate_hz prci pllref_hz pllsel0_hz on ≡ hz ref_hz
    unfolding get_rate_hz
    rate_read = ground (
      arith,
      field_of_mask 1 16 (regs.read on pllcfg),
      field_of_mask 1 17 (regs.read on pllcfg),
      field_of_mask 1 18 (regs.read on pllcfg),
      field-set_bit prci laws pllcfg 16 bypassed (omega arith),
      refsel_kept,
      bypass_on,
    )

    -- Where the desired rate is near the input rate, or is not and no row is valid, set_rate_hz
    -- ends, and the rate that it reads back and returns is the input rate, on registers that
    -- hold what is written below bit 31.
    pub set_rate_hz-bypass :
        (near_input ref_hz rate ≡ some true)
          ⊎ (near_input ref_hz rate ≡ some false) × (find_closest_config ref_hz rate ≡ none)
        → (s' : regs.State) × (set_rate_hz prci fuel pllref_hz pllsel0_hz rate s
            ≡ some (s', hz ref_hz))
    unfolding set_rate_hz reclock
    set_rate_hz-bypass why =
        let off : regs.State = deselect prci s in
        let input_off : (if bit_and (regs.read off pllcfg) pll_refsel == 0
              then pllsel0_hz
              else pllref_hz)
            ≡ ref_hz =
          ground (
            arith,
            bit_and-mask 1 17 (regs.read off pllcfg),
            refsel-deselect prci pllref_hz pllsel0_hz laws s,
          ) in
        (
          on,
          elim why [
            | inl near ↦ rw (input_off, near, rate_read)
            | inr far ↦ rw (input_off, far.0, far.1, rate_read)
          ],
        )
