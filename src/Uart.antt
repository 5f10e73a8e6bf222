-- ===== src/Uart.antt =====
-- src/drivers/sifive_uart0.c: the UART, over its 32-bit registers. Where the driver reads the rate of
-- its clock, the functions take it: `none` is a UART without a clock. Rates are not negative.
use freedom_metal.Prelude.{
  ℕ, zero, suc, ◌+◌, ◌-◌, ◌*◌, ◌/◌, ◌%◌, ◌^◌, Bool, true, false, not, Option, none, some, ◌==◌,
  if◌then◌else◌, ◌>>=◌, bit_and, bit_or,
}
use freedom_metal.Prelude.Machine.{Registers, set_bits, clear_bits}
use freedom_metal.Pll.{mul_long}
mod Baud
mod Watermark
mod Wait
pub mod Api
mod Rate
mod Examples

pub data Reg : Type 0 where
  txdata : Reg
  rxdata : Reg
  txctrl : Reg
  rxctrl : Reg
  ie : Reg
  ip : Reg
  div : Reg

-- The fields of the registers
abbrev pub txen : ℕ
txen = 1

abbrev pub txfull : ℕ
txfull = 0x80000000

abbrev pub rxen : ℕ
rxen = 1

abbrev pub rxempty : ℕ
rxempty = 0x80000000

abbrev pub nstop : ℕ
nstop = 2

abbrev pub txwm : ℕ
txwm = 1

abbrev pub rxwm : ℕ
rxwm = 2

-- UART_TXCNT and UART_RXCNT
abbrev pub watermark : ℕ → ℕ
watermark count = bit_and 7 count * 2 ^ 16

-- The registers, the time of a poll, and what a read of rxdata leaves.
pub record Hardware : Type 1 where
  pub regs : Registers Reg
  pub tick : regs.State → regs.State
  pub after_receive : regs.State → regs.State

module _ (hardware : Hardware) where
  open hardware use {regs, tick, after_receive}

  -- struct __metal_driver_sifive_uart0, and the registers
  pub record Uart : Type 0 where
    pub baud_rate : ℕ
    pub io : regs.State

  abbrev pub set_io : Uart → regs.State → Uart
  set_io u s = record u { io = s }

  pub tx_interrupt_enable : Uart → Uart
  tx_interrupt_enable u = set_io u (set_bits regs u.io ie txwm)

  pub tx_interrupt_disable : Uart → Uart
  tx_interrupt_disable u = set_io u (clear_bits regs 32 u.io ie txwm)

  pub rx_interrupt_enable : Uart → Uart
  rx_interrupt_enable u = set_io u (set_bits regs u.io ie rxwm)

  pub rx_interrupt_disable : Uart → Uart
  rx_interrupt_disable u = set_io u (clear_bits regs 32 u.io ie rxwm)

  -- Despite its name, 1 where the transmit queue is full.
  unfoldable pub txready : regs.State → ℕ
  txready s = if bit_and (regs.read s txdata) txfull == 0 then 0 else 1

  unfoldable pub set_tx_watermark : ℕ → Uart → Uart
  set_tx_watermark level u = set_io u (set_bits regs u.io txctrl (watermark level))

  unfoldable pub get_tx_watermark : Uart → ℕ
  get_tx_watermark u = bit_and (regs.read u.io txctrl / 2 ^ 16) 7

  unfoldable pub set_rx_watermark : ℕ → Uart → Uart
  set_rx_watermark level u = set_io u (set_bits regs u.io rxctrl (watermark level))

  unfoldable pub get_rx_watermark : Uart → ℕ
  get_rx_watermark u = bit_and (regs.read u.io rxctrl / 2 ^ 16) 7

  -- A loop that polls until `ready`; `none` is out of fuel.
  unfoldable pub wait : (regs.State → Bool) → ℕ → regs.State → Option regs.State
  wait ready zero s = none
  wait ready (suc fuel) s = let rest = wait ready fuel (tick s) in if ready s then some s else rest

  -- An `int` is its pattern of 32 bits.
  unfoldable pub putc : ℕ → ℕ → Uart → Option Uart
  putc fuel c u =
      wait (λ s. txready s == 0) fuel u.io >>= (λ s. some (set_io u (regs.write s txdata c)))

  -- The character that is received, or -1.
  unfoldable pub getc : Uart → ℕ × Uart
  getc u =
      let ch = regs.read u.io rxdata in
      (
        if bit_and ch rxempty == 0 then bit_and ch 0xff else 0xFFFFFFFF,
        set_io u (after_receive u.io),
      )

  pub get_baud_rate : Uart → ℕ
  get_baud_rate u = u.baud_rate

  -- A division by a rate of 0 is undefined.
  unfoldable pub set_baud_rate : Option ℕ → ℕ → Uart → Option Uart
  set_baud_rate none baud u = some (record u { baud_rate = baud })
  set_baud_rate (some clock_rate) zero u = none
  set_baud_rate (some clock_rate) (suc b) u =
      let divisor = (clock_rate / suc b + (2 ^ 32 - 1)) % 2 ^ 32 in
      let divided = regs.write u.io div divisor in
      let sending = set_bits regs divided txctrl txen in
      some (record { baud_rate = suc b; io = set_bits regs sending rxctrl rxen })

  -- The `nop`s of a delay.
  unfoldable pub delay : ℕ → regs.State → regs.State
  delay zero s = s
  delay (suc n) s = delay n (tick s)

  -- pre_rate_change_callback_func, with the rate of the clock before the change. A product that a
  -- `long` of 32 bits does not hold is undefined.
  unfoldable pub pre_rate_change : ℕ → ℕ → Uart → Option Uart
  pre_rate_change fuel clk_freq u =
      let lowered = clear_bits regs 32 u.io txctrl (watermark 7) in
      let one = set_bits regs lowered txctrl (watermark 1) in
      wait (λ s. not (bit_and (regs.read s ip) txwm == 0)) fuel one >>= (λ drained.
        let bits_per_symbol = if bit_and (regs.read drained txctrl) nstop == 0 then 10 else 9 in
        if u.baud_rate == 0
        then none
        else mul_long bits_per_symbol clk_freq
          >>= (λ product. some (set_io u (delay (product / u.baud_rate) drained))))

  unfoldable pub post_rate_change : ℕ → Uart → Option Uart
  post_rate_change clk_freq u = set_baud_rate (some clk_freq) u.baud_rate u
