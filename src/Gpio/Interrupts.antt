-- ===== src/Gpio/Interrupts.antt =====
-- Clearing a pending interrupt of a pin, in metal/gpio.h.
use freedom_metal.Prelude.{ℕ, ◌^◌, ◌<◌, ◌≡◌, ◌∙◌, refl, arith, some, bit_and, bit_or}
use freedom_metal.Prelude.Bits.{
  bit-lt, bit-or, bit-and, bit-complement, bit_ext, bit-of_zero, bit_or-lt, bit_and-lt, complement,
}
use freedom_metal.Prelude.Machine.{Registers}
use freedom_metal.Gpio.{Reg, rise_ip, rising, on_pin, clear_int, metal_gpio_clear_interrupt}
use freedom_metal.Gpio.Pins.{one_shifted, two_pow-lt}

-- A register of pending interrupts: a 1 that is written clears its bit.
pub record IsPending (regs : Registers Reg) : Type 0 where
  pub cleared :
      (s : regs.State) (v : ℕ)
      → v < 2 ^ 32
      → regs.read (regs.write s rise_ip v) rise_ip ≡ bit_and (regs.read s rise_ip) (complement 32 v)
  pub fits : (s : regs.State) (r : Reg) → regs.read s r < 2 ^ 32

module _ (regs : Registers Reg) (laws : IsPending regs) where
  -- On a register of pending rising edges in which a 1 that is written clears its bit, clearing
  -- the rising edge of one pin below 32 returns 0 and leaves no rising edge of any pin pending.
  pub clear_interrupt-all :
      (s : regs.State) (pin : ℕ)
      → pin < 32
      → (after : regs.State) × (metal_gpio_clear_interrupt regs (some s) pin rising
          ≡ some (0, some after))
        × (regs.read after rise_ip ≡ 0)
  unfolding metal_gpio_clear_interrupt on_pin clear_int
  clear_interrupt-all s pin inside =
      let x : ℕ = regs.read s rise_ip in
      let v : ℕ = bit_or x (2 ^ pin) in
      let fits = laws.fits s rise_ip in
      let small : v < 2 ^ 32 = bit_or-lt 32 x (2 ^ pin) fits (two_pow-lt pin inside) in
      (
        regs.write s rise_ip v,
        rw (one_shifted pin inside) refl,
        laws.cleared s v small
            ∙ bit_ext 32 (bit_and x (complement 32 v)) 0 (bit_and-lt 32 x _ fits) (omega arith)
                λ k low. ground (
                  arith,
                  bit-and x (complement 32 v) k,
                  bit-complement 32 v k small low,
                  bit-or x (2 ^ pin) k,
                  bit-lt x k,
                  bit-lt (2 ^ pin) k,
                  bit-of_zero k,
                ),
      )
