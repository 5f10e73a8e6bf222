-- ===== src/Uart/Wait.antt =====
-- The loops of src/drivers/sifive_uart0.c that poll a register: they end, and leave what was written.
use freedom_metal.Prelude.{
  ℕ, zero, suc, ◌≤◌, ◌<◌, ◌≡◌, ◌∙◌, refl, Bool, true, false, some, ◌==◌, arith, inl, inr,
  Bool-cases,
}
use freedom_metal.Uart.{Hardware, Reg, txdata, Uart, wait, putc, txready, delay}
use freedom_metal.Uart.Baud.{IsUart, holds}

module _ (hardware : Hardware) where
  open hardware use {regs, tick}

  unfoldable pub ticks : ℕ → regs.State → regs.State
  ticks zero s = s
  ticks (suc n) s = ticks n (tick s)

  -- A test that passes after `n` ticks is met within them, and the first time that it passes.
  pub wait-ends :
      (fuel n : ℕ) (ready : regs.State → Bool) (s : regs.State)
      → n < fuel
      → ready (ticks n s) ≡ true
      → (k : ℕ) × (k ≤ n)
        × (wait hardware ready fuel s ≡ some (ticks k s))
        × (ready (ticks k s) ≡ true)
        × ((i : ℕ) → i < k → ready (ticks i s) ≡ false)
  unfolding wait ticks
  wait-ends zero n ready s h e = absurd (omega arith)
  wait-ends (suc fuel) zero ready s h e =
      let met : ready s ≡ true = e in
      (0, omega arith, rw (met, wait) refl, met, λ i low. absurd (omega arith))
  wait-ends (suc fuel) (suc n) ready s h e = elim (Bool-cases (ready s)) [
    | inl met ↦ (0, omega arith, rw (met, wait) refl, met, λ i low. absurd (omega arith))
    | inr not_yet ↦
        let (k, within, rest, met, earlier) = wait-ends fuel n ready (tick s) (omega arith) e in
        (
          suc k,
          omega (arith, within),
          rw (not_yet, wait) rest,
          met,
          before ready s k not_yet earlier,
        )
  ]
    where
      before :
          (ready : regs.State → Bool) (s : regs.State) (k : ℕ)
          → ready s ≡ false
          → ((i : ℕ) → i < k → ready (ticks i (tick s)) ≡ false)
          → (i : ℕ) → i < suc k
          → ready (ticks i s) ≡ false
      before ready s k now later zero low = now
      before ready s k now later (suc i) low = later i (omega arith)

  pub ticks-read :
      (laws : IsUart hardware) (n : ℕ) (s : regs.State) (r : Reg)
      → holds r ≡ true
      → regs.read (ticks n s) r ≡ regs.read s r
  unfolding ticks
  ticks-read laws zero s r h = refl
  ticks-read laws (suc n) s r h = ticks-read laws n (tick s) r h ∙ laws.ticked s r h

  pub delay-ticks : (n : ℕ) (s : regs.State) → delay hardware n s ≡ ticks n s
  unfolding delay ticks
  delay-ticks zero s = refl
  delay-ticks (suc n) s = delay-ticks n (tick s)

  -- Where the transmit queue has room after n ticks, putc ends with more than n units of fuel:
  -- it writes the character once, at the first moment that the queue is not full and within the
  -- n ticks, and keeps the baud rate.
  pub putc-ends :
      (fuel n c : ℕ) (u : Uart hardware)
      → n < fuel
      → txready hardware (ticks n u.io) ≡ 0
      → (k : ℕ) × (k ≤ n)
        × (putc hardware fuel c u ≡ some (record u { io = regs.write (ticks k u.io) txdata c }))
        × (txready hardware (ticks k u.io) ≡ 0)
        × ((i : ℕ) → i < k → txready hardware (ticks i u.io) ≡ 1)
  unfolding putc txready
  putc-ends fuel n c u enough room =
      let ready : regs.State → Bool = λ s. txready hardware s == 0 in
      let (k, within, ends, met, earlier) =
        wait-ends fuel n ready u.io enough (ground (arith, room)) in
      (k, within, rw (ends) refl, ground (arith, met), λ i low. ground (arith, earlier i low))
