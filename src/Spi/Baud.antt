-- ===== src/Spi/Baud.antt =====
-- The baud rate of src/drivers/sifive_spi0.c, its callbacks around a change of the clock's rate, and
-- the start of the device. Rates are not negative.
use freedom_metal.Prelude.{
  ℕ, zero, suc, ◌-◌, ◌*◌, ◌/◌, ◌^◌, Option, none, some, ◌==◌, ◌||◌, ltb, leb, if◌then◌else◌, ◌>>=◌,
  bit_and,
}
use freedom_metal.Clock.{MetalClock, Heap}
use freedom_metal.Uart.Api.{Places, attach, enable}
use freedom_metal.Spi.{Hardware, sckdiv, txmark, ip, sckdiv_mask, txmark_mask, txwm, put_bits}

module _ (hardware : Hardware) where
  open hardware use {regs, tick}

  -- struct __metal_driver_sifive_spi0, but for its two callbacks, and the registers
  pub record Spi : Type 0 where
    pub baud_rate : ℕ
    pub io : regs.State

  unfoldable pub get_baud_rate : Spi → ℕ
  get_baud_rate u = u.baud_rate

  -- The low 12 bits of `quotient - 1`, where the quotient may be 0.
  unfoldable pub divider : ℕ → ℕ
  divider quotient = if quotient == 0 then sckdiv_mask else bit_and (quotient - 1) sckdiv_mask

  -- A division by a rate of 0, and a `2 * baud_rate` that an int does not hold, are undefined.
  unfoldable pub set_baud_rate : Option ℕ → ℕ → Spi → Option (ℕ × Spi)
  set_baud_rate none baud u = some (0, record u { baud_rate = baud })
  set_baud_rate (some clock_rate) baud u =
      let kept = record u { baud_rate = baud } in
      let quotient = clock_rate / (2 * baud) in
      if (baud == 0) || leb (2 ^ 30) baud
      then none
      else if ltb sckdiv_mask (quotient - 1)
      then some (0xFFFFFFFF, kept)
      else some
          (0, record kept { io = put_bits hardware u.io sckdiv sckdiv_mask (divider quotient) })

  unfoldable pub wait_empty : ℕ → regs.State → Option regs.State
  wait_empty zero s = none
  wait_empty (suc fuel) s =
      let rest = wait_empty fuel (tick s) in
      if bit_and (regs.read s ip) txwm == 0 then rest else some s

  -- pre_rate_change_callback_func
  unfoldable pub pre_rate_change : ℕ → Spi → Option Spi
  pre_rate_change fuel u =
      wait_empty fuel (put_bits hardware u.io txmark txmark_mask (bit_and txmark_mask 1))
      >>= (λ s. some (record u { io = s }))

  -- post_rate_change_callback_func, which drops the result
  unfoldable pub post_rate_change : ℕ → Spi → Option Spi
  post_rate_change clock_rate u =
      set_baud_rate (some clock_rate) u.baud_rate u >>= (λ (r, u'). some u')

  -- The controller, the memory of the clock's callbacks, and the pins.
  pub record Board (Pins : Type 0) : Type 0 where
    pub spi : Spi
    pub heap : Heap
    pub pins : Pins

  -- With the clock and its rate, and enable_io of the pins' controller, where there are such.
  unfoldable pub init :
      {Pins : Type 0}
      → ℕ
      → Places
      → Option (MetalClock × ℕ)
      → Option (Pins → Pins)
      → ℕ
      → Board Pins
      → Option (Option MetalClock × Board Pins)
  init fuel at none pinmux baud b = do
    (r, u) ← set_baud_rate none baud b.spi
    some (none, record b { spi = u; pins = enable pinmux b.pins })
  init fuel at (some (clk, clock_rate)) pinmux baud b = do
    (clk', h) ← attach fuel at (clk, b.heap)
    (r, u) ← set_baud_rate (some clock_rate) baud b.spi
    some (some clk', record { spi = u; heap = h; pins = enable pinmux b.pins })
