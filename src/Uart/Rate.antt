-- ===== src/Uart/Rate.antt =====
-- A change of the clock's rate, seen by the UART of src/drivers/sifive_uart0.c: the callbacks that its
-- init registers, called by metal_clock_set_rate_hz.
use freedom_metal.Prelude.{
  ℕ, ◌+◌, ◌*◌, ◌/◌, ◌^◌, ◌≤◌, ◌<◌, ◌≡◌, ◌∙◌, refl, ap, true, false, not, Option, none, some, ◌>>=◌,
  [], ◌∷◌, ◌==◌, if◌then◌else◌, arith, bit_and, bit_or,
}
use freedom_metal.Prelude.Bits.{complement, bit_and-lt}
use freedom_metal.Prelude.Fields.{insert, insert-lt, extract-insert_self}
use freedom_metal.Prelude.Low.{shifted_mask}
use freedom_metal.Prelude.Machine.{set_bits, clear_bits}
use freedom_metal.Clock.{MetalClock, Heap, Device, beside, set_rate_hz}
use freedom_metal.Clock.Order.{Implements, run, set_rate_hz-in_order}
use freedom_metal.Uart.{
  Hardware, txctrl, ip, div, Uart, pre_rate_change, post_rate_change, set_baud_rate,
  get_tx_watermark, txwm, nstop, watermark, delay,
}
use freedom_metal.Pll.{mul_long}
use freedom_metal.Uart.Api.{Places, pre_call, post_call, pre_rate_change_callback_func}
use freedom_metal.Uart.Baud.{IsUart, set_baud_rate-div}
use freedom_metal.Uart.Wait.{ticks, wait-ends, ticks-read, delay-ticks}

-- The bits of a character.
abbrev symbol : ℕ → ℕ
symbol x = if bit_and x nstop == 0 then 10 else 9

symbol-fits :
    (x clk_freq : ℕ)
    → clk_freq * 10 < 2 ^ 31
    → mul_long (symbol x) clk_freq ≡ some (symbol x * clk_freq)
symbol-fits x clk_freq small = ground arith

module _ (hardware : Hardware) where
  open hardware use {regs, tick}

  -- The transmit queue falls below its watermark after fewer than `fuel` ticks, from any state.
  abbrev pub Drains : ℕ → Type 0
  Drains fuel =
      (s : regs.State)
      → (n : ℕ) × (n < fuel)
        × ((not (bit_and (regs.read (ticks hardware n s) ip) txwm == 0)) ≡ true)

  -- The registers with the transmit watermark replaced by 1.
  abbrev watermark_one : regs.State → regs.State
  watermark_one s = set_bits regs (clear_bits regs 32 s txctrl (watermark 7)) txctrl (watermark 1)

  watermark_one-read :
      (laws : IsUart hardware) (s : regs.State)
      → regs.read (watermark_one s) txctrl ≡ insert 32 3 16 (regs.read s txctrl) 1
  watermark_one-read laws s =
      let x : ℕ = regs.read s txctrl in
      let low : ℕ = bit_and x (complement 32 (watermark 7)) in
      let fits = laws.fits s txctrl in
      let cleared = laws.back s txctrl low refl (bit_and-lt 32 x _ fits) in
      laws.back (regs.write s txctrl low) txctrl _ refl
        (rw (cleared) (insert-lt 32 3 16 x 1 fits (omega arith) (omega arith)))
      ∙ ap (λ (t : ℕ). bit_or t (watermark 1)) cleared

  -- On registers that hold what is written, on a UART that drains its transmit queue within the
  -- fuel, whose baud rate is not 0, at a clock of fewer than 2^31 / 10 Hz, the callback before a
  -- change of rate ends: the baud rate is kept, and the watermark of the transmit queue is 1,
  -- whatever it was.
  pub pre_rate_change-ends :
      (laws : IsUart hardware) (fuel clk_freq : ℕ) (u : Uart hardware)
      → Drains fuel
      → 1 ≤ u.baud_rate
      → clk_freq * 10 < 2 ^ 31
      → (after : Uart hardware) × (pre_rate_change hardware fuel clk_freq u ≡ some after)
        × (after.baud_rate ≡ u.baud_rate)
        × (get_tx_watermark hardware after ≡ 1)
  unfolding pre_rate_change get_tx_watermark
  pre_rate_change-ends laws fuel clk_freq u drains some_baud small =
      let start : regs.State = watermark_one u.io in
      let (n, below, room) = drains start in
      let (k, within, ends, met, earlier) =
        wait-ends hardware fuel n (λ s. not (bit_and (regs.read s ip) txwm == 0)) start below
          room in
      let drained : regs.State = ticks hardware k start in
      let ctrl : ℕ = regs.read drained txctrl in
      let cycles : ℕ = symbol ctrl * clk_freq / u.baud_rate in
      let last : regs.State = delay hardware cycles drained in
      let divisible : (u.baud_rate == 0) ≡ false = ground arith in
      let same : regs.read last txctrl ≡ insert 32 3 16 (regs.read u.io txctrl) 1 =
        ap (λ (s : regs.State). regs.read s txctrl) (delay-ticks hardware cycles drained)
        ∙ ticks-read hardware laws cycles drained txctrl refl
        ∙ ticks-read hardware laws k start txctrl refl
        ∙ watermark_one-read laws u.io in
      (
        record u { io = last },
        rw (ends, pre_rate_change, divisible, symbol-fits ctrl clk_freq small) refl,
        refl,
        ap (λ (x : ℕ). bit_and (x / 2 ^ 16) 7) same
            ∙ shifted_mask 3 16 (insert 32 3 16 (regs.read u.io txctrl) 1)
            ∙ extract-insert_self 32 3 16 (regs.read u.io txctrl) 1 (omega arith) (omega arith),
      )

  -- The machine that the clock calls into: the UART and the rate of the clock, of which the clock's
  -- driver grants what it can. `none` is a fault.
  abbrev pub machine : ℕ → (ℕ → ℕ → ℕ) → Device
  machine fuel grant = record {
    State = Option (Uart hardware × ℕ);
    call = λ callback priv. beside (λ s. s >>= (λ (u, rate).
        if callback == pre_rate_change_callback_func
        then pre_rate_change hardware fuel rate u >>= (λ after. some (after, rate))
        else post_rate_change hardware rate u >>= (λ after. some (after, rate))));
    get_rate = λ s. elim s [ none ↦ 0 | some here ↦ here.1 ];
    set_rate = λ hz s. elim s [
      | none ↦ (0, none)
      | some here ↦ (grant here.1 hz, some (here.0, grant here.1 hz))
    ];
  }

  -- On registers that hold what is written, where the lists of a clock are the calls that a UART
  -- has registered, with fuel for more than the node of each list, the UART drains its queue
  -- within the fuel, the rate before is below 2^31 / 10 Hz, and the rate that the clock's driver
  -- grants is at least the baud rate, which is not 0, and below 2^31: metal_clock_set_rate_hz
  -- ends and returns the rate that is granted, and the UART is left with its baud rate, and with
  -- a divisor that brings the new rate of the clock within one step of it.
  pub set_rate_hz-keeps_baud :
      (laws : IsUart hardware) (fuel lists : ℕ) (grant : ℕ → ℕ → ℕ) (at : Places) (h : Heap)
      (clk : MetalClock) (hz rate : ℕ) (u : Uart hardware)
      → Implements h clk (record { pre = pre_call at ∷ []; post = post_call at ∷ [] })
      → 1 < lists
      → Drains fuel
      → rate * 10 < 2 ^ 31
      → 1 ≤ u.baud_rate
      → u.baud_rate ≤ grant rate hz
      → grant rate hz < 2 ^ 31
      → (after : Uart hardware) × (set_rate_hz (machine fuel grant) lists clk hz h (some (u, rate))
          ≡ some (grant rate hz, (clk, h, some (after, grant rate hz))))
        × (after.baud_rate ≡ u.baud_rate)
        × (u.baud_rate * (regs.read after.io div + 1) ≤ grant rate hz)
        × (grant rate hz < u.baud_rate * (regs.read after.io div + 2))
  unfolding run post_rate_change
  set_rate_hz-keeps_baud laws fuel lists grant at h clk hz rate u is enough drains small some_baud
        reachable bound =
      let (told, done, baud, _) = pre_rate_change-ends laws fuel rate u drains some_baud small in
      let (after, done', baud', low, high, _, _) =
        set_baud_rate-div hardware laws (grant rate hz) u.baud_rate told some_baud reachable
          bound in
      let post : post_rate_change hardware (grant rate hz) told ≡ some after =
        ap (λ (b : ℕ). set_baud_rate hardware (some (grant rate hz)) b told) baud ∙ done' in
      (
        after,
        (set_rate_hz-in_order (machine fuel grant) lists h clk
              (record { pre = pre_call at ∷ []; post = post_call at ∷ [] }) hz (some (u, rate))
              (λ f p m. (refl, refl)) is enough enough).0
            ∙ rw (done, post) refl,
        baud',
        low,
        high,
      )
