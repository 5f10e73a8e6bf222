-- ===== src/I2c/Baud.antt =====
-- The baud rate of src/drivers/sifive_i2c0.c, its callbacks around a change of the clock's rate, and
-- the start of the device.
use freedom_metal.Prelude.{
  ℕ, zero, suc, ◌-◌, ◌*◌, ◌/◌, ◌%◌, ◌^◌, Option, none, some, ◌==◌, ◌||◌, ltb, if◌then◌else◌, ◌>>=◌,
  bit_and,
}
use freedom_metal.Prelude.Machine.{set_bits, clear_bits}
use freedom_metal.Clock.{MetalClock, Heap}
use freedom_metal.Uart.Api.{Places, attach}
use freedom_metal.I2c.{
  prescale_low, prescale_high, control, control_en, prescale_max, ret_ok, ret_err, Hardware, I2c,
  in_progress,
}

abbrev clock_of : Option (MetalClock × ℕ) → Option MetalClock
clock_of none = none
clock_of (some (clk, rate)) = some clk

module _ (hardware : Hardware) where
  open hardware use {regs, tick}

  -- pre_rate_change_callback
  unfoldable pub pre_rate_change : ℕ → regs.State → Option regs.State
  pre_rate_change zero s = none
  pre_rate_change (suc fuel) s =
      let rest = pre_rate_change fuel (tick s) in if in_progress hardware s then rest else some s

  unfoldable pub get_baud_rate : I2c hardware → ℕ
  get_baud_rate u = u.baud_rate

  -- The registers where the prescaler is in range, and the result.
  unfoldable pub set_prescaler : ℕ → ℕ → I2c hardware → ℕ × I2c hardware
  set_prescaler prescaler baud u =
      let off = clear_bits regs 8 u.io control control_en in
      let low = regs.write off prescale_low (bit_and prescaler 0xFF) in
      let high = regs.write low prescale_high (bit_and (prescaler / 2 ^ 8) 0xFF) in
      (ret_ok, record u { baud_rate = baud; io = set_bits regs high control control_en })

  -- A quotient of 0 makes the prescaler negative. `baud_rate * 5` is a product of 32 bits; a
  -- division by 0 is undefined.
  unfoldable pub prescale : ℕ → ℕ → I2c hardware → Option (ℕ × I2c hardware)
  prescale clock_rate baud u =
      let divisor = baud * 5 % 2 ^ 32 in
      let quotient = clock_rate / divisor in
      if divisor == 0
      then none
      else if (quotient == 0) || ltb prescale_max (quotient - 1)
      then some (ret_err, u)
      else some (set_prescaler (quotient - 1) baud u)

  -- The controller, and the memory of the clock's callbacks.
  pub record Board : Type 0 where
    pub i2c : I2c hardware
    pub heap : Heap

  -- With the clock and its rate, where there is one. The clock's lists are returned with it.
  unfoldable pub set_baud_rate :
      ℕ → Places → Option (MetalClock × ℕ) → ℕ → Board → Option (ℕ × Option MetalClock × Board)
  set_baud_rate fuel at none baud b = some (ret_err, none, b)
  set_baud_rate fuel at (some (clk, clock_rate)) baud b = do
    (clk', h) ← attach fuel at (clk, b.heap)
    (r, u) ← prescale clock_rate baud b.i2c
    some (r, some clk', record { i2c = u; heap = h })

  unfoldable pub post_rate_change :
      ℕ → Places → Option (MetalClock × ℕ) → Board → Option (ℕ × Option MetalClock × Board)
  post_rate_change fuel at clock b = set_baud_rate fuel at clock (get_baud_rate b.i2c) b

  -- The driver's init, on the pins of `pinmux` where there are such: the mode is 1 for a master.
  unfoldable pub init :
      {Pins : Type 0}
      → ℕ
      → Places
      → Option (MetalClock × ℕ)
      → Option (Pins → Pins)
      → ℕ
      → ℕ
      → Board × Pins
      → Option (Option MetalClock × Board × Pins)
  init fuel at clock none baud mode (b, pins) = some (clock_of clock, b, pins)
  init fuel at clock (some enable_io) baud mode (b, pins) =
      if mode == 1
      then set_baud_rate fuel at clock baud b >>= (λ (r, clk, b'). some (
        clk,
        (if r == 0 then record b' { i2c = record (b'.i2c) { init_done = 1 } } else b'),
        enable_io pins,
      ))
      else some (clock_of clock, b, enable_io pins)
