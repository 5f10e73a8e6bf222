-- ===== src/Uart/Watermark.antt =====
-- The watermarks of src/drivers/sifive_uart0.c.
use freedom_metal.Prelude.{ℕ, ◌/◌, ◌^◌, ◌<◌, ◌≡◌, ◌∙◌, refl, ap, arith, bit_and, bit_or}
use freedom_metal.Prelude.Bits.{bit_or-lt, bit_and-lt}
use freedom_metal.Prelude.Fields.{shifted-lt}
use freedom_metal.Prelude.Low.{extract-or, shifted_mask}
use freedom_metal.Uart.{
  Hardware, txctrl, rxctrl, Uart, set_tx_watermark, get_tx_watermark, set_rx_watermark,
  get_rx_watermark, watermark,
}
use freedom_metal.Uart.Baud.{IsUart}

-- Setting bits of a field adds them to those that it has.
field-or :
    (old level : ℕ)
    → bit_and (bit_or old (watermark level) / 2 ^ 16) 7
      ≡ bit_or (bit_and (old / 2 ^ 16) 7) (bit_and 7 level)
field-or old level =
    rw (shifted_mask 3 16 (bit_or old (watermark level)), shifted_mask 3 16 old)
      (extract-or old 3 16 (bit_and 7 level) (bit_and-lt 3 7 level (omega arith)))

watermark-lt : (level : ℕ) → watermark level < 2 ^ 32
watermark-lt level =
    shifted-lt 32 3 16 (bit_and 7 level) (bit_and-lt 3 7 level (omega arith)) (omega arith)

module _ (hardware : Hardware) (laws : IsUart hardware) where
  open hardware use {regs}

  -- On registers that hold what is written, after the watermark of a queue, the transmit or the
  -- receive queue, is set, the watermark that is read is the bitwise or of what it was and of
  -- the low three bits of what was asked for.
  pub set_tx_watermark-adds :
      (level : ℕ) (u : Uart hardware)
      → (get_tx_watermark hardware (set_tx_watermark hardware level u)
          ≡ bit_or (get_tx_watermark hardware u) (bit_and 7 level))
        × (get_rx_watermark hardware (set_rx_watermark hardware level u)
            ≡ bit_or (get_rx_watermark hardware u) (bit_and 7 level))
  unfolding get_tx_watermark set_tx_watermark get_rx_watermark set_rx_watermark
  set_tx_watermark-adds level u =
      let tx : ℕ = regs.read u.io txctrl in
      let rx : ℕ = regs.read u.io rxctrl in
      let written =
        laws.back u.io txctrl (bit_or tx (watermark level)) refl
          (bit_or-lt 32 tx _ (laws.fits u.io txctrl) (watermark-lt level)) in
      let written' =
        laws.back u.io rxctrl (bit_or rx (watermark level)) refl
          (bit_or-lt 32 rx _ (laws.fits u.io rxctrl) (watermark-lt level)) in
      (
        ap (λ (x : ℕ). bit_and (x / 2 ^ 16) 7) written ∙ field-or tx level,
        ap (λ (x : ℕ). bit_and (x / 2 ^ 16) 7) written' ∙ field-or rx level,
      )
