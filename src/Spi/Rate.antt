-- ===== src/Spi/Rate.antt =====
-- The divisor that src/drivers/sifive_spi0.c sets for a baud rate.
use freedom_metal.Prelude.{
  ℕ, ◌+◌, ◌-◌, ◌*◌, ◌/◌, ◌%◌, ◌^◌, ◌≤◌, ◌<◌, ◌≡◌, ◌∙◌, refl, ap, false, some, ◌==◌, leb, ◌⊎◌, inl,
  inr, arith, bit_or, bit_and,
}
use freedom_metal.Prelude.Bits.{bit_or-lt, bit_and-lt}
use freedom_metal.Prelude.Divisor.{divisor-cases}
use freedom_metal.Prelude.Fields.{extract, extract-insert_self, bit_and-mask}
use freedom_metal.Spi.{Hardware, sckdiv, sckdiv_mask, put_bits}
use freedom_metal.Spi.Baud.{Spi, set_baud_rate, divider}

module _ (hardware : Hardware) where
  open hardware use {regs}

  -- The divisor's register holds what is written.
  pub record IsDivider : Type 0 where
    pub back : (s : regs.State) (v : ℕ) → v < 2 ^ 32 → regs.read (regs.write s sckdiv v) sckdiv ≡ v
    pub fits : (s : regs.State) → regs.read s sckdiv < 2 ^ 32

  -- The field of the divisor.
  abbrev pub divisor : regs.State → ℕ
  divisor s = regs.read s sckdiv % 2 ^ 12

  module _ (laws : IsDivider) where
    put_bits-divisor :
        (s : regs.State) (v : ℕ)
        → v < 2 ^ 12
        → divisor (put_bits hardware s sckdiv sckdiv_mask v) ≡ v
    put_bits-divisor s v small =
        let cleared : ℕ = bit_and (regs.read s sckdiv) (2 ^ 32 - 1 - sckdiv_mask) in
        let low : cleared < 2 ^ 32 = bit_and-lt 32 _ _ (laws.fits s) in
        let s1 : regs.State = regs.write s sckdiv cleared in
        let word : bit_or cleared v < 2 ^ 32 = bit_or-lt 32 cleared v low (omega (arith, small)) in
        let one : v * 2 ^ 0 ≡ v = omega arith in
        let field : extract 12 0 (bit_or cleared (v * 2 ^ 0)) ≡ v =
          extract-insert_self 32 12 0 (regs.read s sckdiv) v small (omega arith) in
        ap (λ (x : ℕ). regs.read (regs.write s1 sckdiv (bit_or x v)) sckdiv % 2 ^ 12)
          (laws.back s cleared low)
        ∙ ap (λ (x : ℕ). x % 2 ^ 12) (laws.back s1 (bit_or cleared v) word)
        ∙ omega (arith, field, ap (λ (x : ℕ). bit_or cleared x) one)

    -- On a register that holds what is written, with a baud rate that is not 0 and below 2^30,
    -- the driver keeps the baud rate in each case: where the clock, divided by twice the baud
    -- rate, is from 1 to 4096 it returns 0 and leaves the largest divisor at which twice the
    -- baud rate, times the divisor and 1, is at most the rate of the clock; where the clock is
    -- faster it returns -1 and leaves the registers; where it is slower it returns 0 and leaves
    -- the largest divisor there is, 4095.
    pub set_baud_rate-divisor :
        (clock_rate baud : ℕ) (u : Spi hardware)
        → 1 ≤ baud
        → baud < 2 ^ 30
        → (r : ℕ) × (after : Spi hardware) × (set_baud_rate hardware (some clock_rate) baud u
            ≡ some (r, after))
          × (after.baud_rate ≡ baud)
          × (((r ≡ 0)
                × (2 * baud * (divisor (after.io) + 1) ≤ clock_rate)
                × (clock_rate < 2 * baud * (divisor (after.io) + 2)))
              ⊎ (((r ≡ 0xFFFFFFFF) × (after.io ≡ u.io) × (2 * baud * 4097 ≤ clock_rate))
                  ⊎ ((r ≡ 0) × (clock_rate < 2 * baud) × (divisor (after.io) ≡ 4095))))
    unfolding set_baud_rate divider
    set_baud_rate-divisor clock_rate baud u some_baud small =
        let d : ℕ = 2 * baud in
        let p : ℕ = clock_rate / d - 1 in
        let nonzero : (baud == 0) ≡ false = ground arith in
        let in_range : leb (2 ^ 30) baud ≡ false = ground (arith, small) in
        elim (divisor-cases clock_rate d sckdiv_mask (omega arith)) [
          | inl (zero_q, fits, slow) ↦ (
            0,
            record { baud_rate = baud; io = put_bits hardware u.io sckdiv sckdiv_mask sckdiv_mask },
            rw (nonzero, in_range, fits, zero_q) refl,
            refl,
            inr (inr (refl, slow, put_bits-divisor u.io sckdiv_mask (omega arith))),
          )
          | inr (inl (some_q, large, fast)) ↦ (
            0xFFFFFFFF,
            record u { baud_rate = baud },
            rw (nonzero, in_range, large) refl,
            refl,
            inr (inl (refl, refl, fast)),
          )
          | inr (inr (some_q, fits, small_p, below, above)) ↦
              let low : bit_and p sckdiv_mask ≡ p = omega (arith, bit_and-mask 12 0 p, small_p) in
              let held : divisor (put_bits hardware u.io sckdiv sckdiv_mask (bit_and p sckdiv_mask))
                  ≡ p =
                put_bits-divisor u.io (bit_and p sckdiv_mask) (omega (arith, low, small_p)) ∙ low in
              (
                0,
                record {
                  baud_rate = baud;
                  io = put_bits hardware u.io sckdiv sckdiv_mask (bit_and p sckdiv_mask);
                },
                rw (nonzero, in_range, fits, some_q) refl,
                refl,
                inl (refl, rw (held) below, rw (held) above),
              )
        ]
