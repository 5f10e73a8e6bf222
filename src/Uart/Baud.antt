-- ===== src/Uart/Baud.antt =====
-- The divisor that src/drivers/sifive_uart0.c sets for a baud rate.
use freedom_metal.Prelude.{
  ℕ, zero, suc, ◌+◌, ◌-◌, ◌*◌, ◌/◌, ◌%◌, ◌^◌, ◌≤◌, ◌<◌, ◌≡◌, ◌≢◌, ◌∙◌, refl, ap, Bool, true, false,
  some, arith, bit_or,
}
use freedom_metal.Prelude.Bits.{bit_or-lt}
use freedom_metal.Uart.{
  Hardware, Reg, txdata, rxdata, txctrl, rxctrl, ie, ip, div, Uart, set_baud_rate,
}
use native.Mathlib.Nat.{div-le_self, le-div_iff_mul-le, mul-div-le, lt-mul-div-succ}

-- The registers that hold what is written.
abbrev pub holds : Reg → Bool
holds txdata = false
holds rxdata = false
holds txctrl = true
holds rxctrl = true
holds ie = true
holds ip = false
holds div = true

module _ (hardware : Hardware) where
  open hardware use {regs, tick}

  pub record IsUart : Type 0 where
    pub back :
        (s : regs.State) (r : Reg) (v : ℕ)
        → holds r ≡ true
        → v < 2 ^ 32
        → regs.read (regs.write s r v) r ≡ v
    pub other :
        (s : regs.State) (a b : Reg) (v : ℕ)
        → a ≢ b
        → holds b ≡ true
        → regs.read (regs.write s a v) b ≡ regs.read s b
    pub ticked : (s : regs.State) (r : Reg) → holds r ≡ true → regs.read (tick s) r ≡ regs.read s r
    pub fits : (s : regs.State) (r : Reg) → regs.read s r < 2 ^ 32

  module _ (laws : IsUart) where
    -- On registers that hold what is written, at a clock of fewer than 2^31 Hz and no fewer than
    -- the baud rate, which is not 0, setting the baud rate keeps it and writes the largest
    -- divisor less 1 at which the baud rate, times the divisor, is at most the rate of the
    -- clock, and sets the enable bits of txctrl and rxctrl and keeps their other bits.
    pub set_baud_rate-div :
        (clock_rate baud : ℕ) (u : Uart hardware)
        → 1 ≤ baud
        → baud ≤ clock_rate
        → clock_rate < 2 ^ 31
        → (after : Uart hardware) × (set_baud_rate hardware (some clock_rate) baud u ≡ some after)
          × (after.baud_rate ≡ baud)
          × (baud * (regs.read after.io div + 1) ≤ clock_rate)
          × (clock_rate < baud * (regs.read after.io div + 2))
          × (regs.read after.io txctrl ≡ bit_or (regs.read u.io txctrl) 1)
          × (regs.read after.io rxctrl ≡ bit_or (regs.read u.io rxctrl) 1)
    unfolding set_baud_rate
    set_baud_rate-div clock_rate zero u some_baud below small = absurd (omega arith)
    set_baud_rate-div clock_rate (suc b) u some_baud below small =
        let q : ℕ = clock_rate / suc b in
        let divisor : ℕ = (q + (2 ^ 32 - 1)) % 2 ^ 32 in
        let s1 : regs.State = regs.write u.io div divisor in
        let tx : ℕ = bit_or (regs.read s1 txctrl) 1 in
        let s2 : regs.State = regs.write s1 txctrl tx in
        let rx : ℕ = bit_or (regs.read s2 rxctrl) 1 in
        let s3 : regs.State = regs.write s2 rxctrl rx in
        let q_small : q ≤ clock_rate = div-le_self clock_rate (suc b) in
        let q_some : 1 ≤ q =
          (le-div_iff_mul-le {k = suc b} {x = 1} {y = clock_rate} (omega arith)).1
            (omega (arith, below)) in
        let value : divisor + 1 ≡ q = omega (arith, q_small, q_some, small) in
        let d1 : regs.read s1 div ≡ divisor = laws.back u.io div divisor refl (omega arith) in
        let d2 : regs.read s2 div ≡ regs.read s1 div = laws.other s1 txctrl div tx (λ e. cc) refl in
        let d3 : regs.read s3 div ≡ regs.read s2 div = laws.other s2 rxctrl div rx (λ e. cc) refl in
        let t1 : regs.read s1 txctrl ≡ regs.read u.io txctrl =
          laws.other u.io div txctrl divisor (λ e. cc) refl in
        let t2 : regs.read s2 txctrl ≡ tx =
          laws.back s1 txctrl tx refl (bit_or-lt 32 _ 1 (laws.fits s1 txctrl) (omega arith)) in
        let t3 : regs.read s3 txctrl ≡ regs.read s2 txctrl =
          laws.other s2 rxctrl txctrl rx (λ e. cc) refl in
        let r1 : regs.read s1 rxctrl ≡ regs.read u.io rxctrl =
          laws.other u.io div rxctrl divisor (λ e. cc) refl in
        let r2 : regs.read s2 rxctrl ≡ regs.read s1 rxctrl =
          laws.other s1 txctrl rxctrl tx (λ e. cc) refl in
        let r3 : regs.read s3 rxctrl ≡ rx =
          laws.back s2 rxctrl rx refl (bit_or-lt 32 _ 1 (laws.fits s2 rxctrl) (omega arith)) in
        let at : regs.read s3 div + 1 ≡ q = omega (arith, d1, d2, d3, value) in
        let up : regs.read s3 div + 2 ≡ q + 1 = omega (arith, at) in
        let next_exceeds : clock_rate < suc b * (regs.read s3 div + 2) =
          rw (up) (lt-mul-div-succ clock_rate (omega arith)) in
        (
          record { baud_rate = suc b; io = s3 },
          refl,
          refl,
          rw (at) (mul-div-le clock_rate (suc b)),
          next_exceeds,
          t3 ∙ t2 ∙ ap (λ (x : ℕ). bit_or x 1) t1,
          r3 ∙ ap (λ (x : ℕ). bit_or x 1) (r2 ∙ r1),
        )
