-- ===== src/I2c/Rate.antt =====
-- The prescaler that src/drivers/sifive_i2c0.c sets for a baud rate, and what setting it twice does to
-- the clock.
use freedom_metal.Prelude.{
  ℕ, ◌+◌, ◌-◌, ◌*◌, ◌/◌, ◌%◌, ◌^◌, ◌≤◌, ◌<◌, ◌≡◌, ◌≢◌, ◌∙◌, refl, Bool, true, false, some, ◌==◌,
  arith, bit_or, bit_and, ◌⊎◌, inl, inr,
}
use freedom_metal.Prelude.Divisor.{divisor-cases}
use freedom_metal.Prelude.Fields.{bit_and-mask}
use freedom_metal.I2c.{
  Hardware, I2c, Reg, prescale_low, prescale_high, control, transmit, command, status, control_en,
  prescale_max, ret_ok, ret_err,
}
use freedom_metal.I2c.Baud.{set_prescaler, prescale}
use native.Mathlib.Nat.{mod-eq_of_lt}

-- The registers that hold what is written.
abbrev pub holds : Reg → Bool
holds prescale_low = true
holds prescale_high = true
holds control = true
holds transmit = false
holds command = false
holds status = false

module _ (hardware : Hardware) where
  open hardware use {regs}

  pub record IsI2c : Type 0 where
    pub back :
        (s : regs.State) (r : Reg) (v : ℕ)
        → holds r ≡ true
        → v < 2 ^ 8
        → regs.read (regs.write s r v) r ≡ v
    pub other :
        (s : regs.State) (a b : Reg) (v : ℕ)
        → a ≢ b
        → holds b ≡ true
        → regs.read (regs.write s a v) b ≡ regs.read s b
    pub fits : (s : regs.State) (r : Reg) → regs.read s r < 2 ^ 8

  -- The prescaler that the two registers hold.
  abbrev pub prescaler : regs.State → ℕ
  prescaler s = regs.read s prescale_high * 2 ^ 8 + regs.read s prescale_low

  module _ (laws : IsI2c) where
    set_prescaler-prescaler :
        (p baud : ℕ) (u : I2c hardware)
        → p < 2 ^ 16
        → prescaler ((set_prescaler hardware p baud u).1.io) ≡ p
    unfolding set_prescaler
    set_prescaler-prescaler p baud u small =
        let off : ℕ = bit_and (regs.read u.io control) (2 ^ 8 - 1 - control_en) in
        let s1 : regs.State = regs.write u.io control off in
        let low : bit_and p 0xFF ≡ p % 2 ^ 8 = omega (arith, bit_and-mask 8 0 p) in
        let high : bit_and (p / 2 ^ 8) 0xFF ≡ p / 2 ^ 8 % 2 ^ 8 =
          omega (arith, bit_and-mask 8 0 (p / 2 ^ 8)) in
        let s2 : regs.State = regs.write s1 prescale_low (bit_and p 0xFF) in
        let s3 : regs.State = regs.write s2 prescale_high (bit_and (p / 2 ^ 8) 0xFF) in
        let on : ℕ = bit_or (regs.read s3 control) control_en in
        let l1 : regs.read s2 prescale_low ≡ p % 2 ^ 8 =
          laws.back s1 prescale_low _ refl (omega (arith, low)) ∙ low in
        let l2 : regs.read s3 prescale_low ≡ p % 2 ^ 8 =
          laws.other s2 prescale_high prescale_low _ (λ e. cc) refl ∙ l1 in
        let h1 : regs.read s3 prescale_high ≡ p / 2 ^ 8 % 2 ^ 8 =
          laws.back s2 prescale_high _ refl (omega (arith, high)) ∙ high in
        omega (
          arith,
          laws.other s3 control prescale_low on (λ e. cc) refl,
          laws.other s3 control prescale_high on (λ e. cc) refl,
          l2,
          h1,
          small,
        )

    -- On registers that hold what is written, with a baud rate that is not 0 and below 2^32 / 5:
    -- where the rate of the clock, divided by five times the baud rate, is from 1 to 65536, the
    -- driver returns 0, keeps the baud rate, and leaves the largest prescaler at which five
    -- times the baud rate, times the prescaler and 1, is at most the rate of the clock; where it
    -- is not, the driver returns -1, and changes neither the baud rate nor a register.
    pub prescale-bounds :
        (clock_rate baud : ℕ) (u : I2c hardware)
        → 1 ≤ baud
        → baud * 5 < 2 ^ 32
        → (r : ℕ) × (after : I2c hardware) × (prescale hardware clock_rate baud u ≡ some (r, after))
          × (((r ≡ ret_ok)
                × (after.baud_rate ≡ baud)
                × (baud * 5 * (prescaler (after.io) + 1) ≤ clock_rate)
                × (clock_rate < baud * 5 * (prescaler (after.io) + 2)))
              ⊎ ((r ≡ ret_err)
                  × (after ≡ u)
                  × ((clock_rate < baud * 5) ⊎ (baud * 5 * (2 ^ 16 + 1) ≤ clock_rate))))
    unfolding prescale set_prescaler
    prescale-bounds clock_rate baud u some_baud small =
        let d : ℕ = baud * 5 in
        let p : ℕ = clock_rate / d - 1 in
        let whole : baud * 5 % 2 ^ 32 ≡ d = mod-eq_of_lt small in
        let some_divisor : (d == 0) ≡ false = ground arith in
        elim (divisor-cases clock_rate d prescale_max (omega arith)) [
          | inl (zero_q, fits, slow) ↦
              (ret_err, u, rw (whole, some_divisor, zero_q) refl, inr (refl, refl, inl slow))
          | inr (inl (some_q, large, fast)) ↦
              (ret_err, u, rw (whole, some_divisor, some_q, large) refl, inr (refl, refl, inr fast))
          | inr (inr (some_q, fits, small_p, below, above)) ↦
              let held : prescaler ((set_prescaler hardware p baud u).1.io) ≡ p =
                set_prescaler-prescaler p baud u (omega (arith, small_p)) in
              (
                (set_prescaler hardware p baud u).0,
                (set_prescaler hardware p baud u).1,
                rw (whole, some_divisor, some_q, fits) refl,
                inl (refl, refl, rw (held) below, rw (held) above),
              )
        ]
