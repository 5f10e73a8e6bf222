-- ===== src/Pll/Wait.antt =====
-- The two polling loops of configure_pll: they end, and time leaves the fields as they are.
use freedom_metal.Prelude.{
  ℕ, zero, suc, ◌+◌, ◌≤◌, ◌<◌, ◌≡◌, inl, inr, arith, ◌∙◌, refl, Bool, true, not, ltb, ◌==◌, some,
  Bool-cases, bit_and,
}
use freedom_metal.Pll.Table.{PllConfig}
use freedom_metal.Pll.Rows.{IsRow}
use freedom_metal.Pll.{
  Prci, PllReg, pllcfg, plloutdiv, write_dividers, poll, configure_pll, pll_lock,
}
use freedom_metal.Pll.Fields.{IsPrci, field, field-tick}
use freedom_metal.Pll.Configure.{Programmed, write_dividers-Programmed}

module _ (prci : Prci) where
  open prci use {regs, mtime, tick}

  unfoldable pub ticks : ℕ → regs.State → regs.State
  ticks zero s = s
  ticks (suc n) s = ticks n (tick s)

  -- A test that passes after `n` ticks is met within them.
  poll-ends :
      (fuel n : ℕ) (test : regs.State → Bool) (s : regs.State)
      → n < fuel
      → test (ticks n s) ≡ true
      → (k : ℕ) × (poll prci fuel test s ≡ some (ticks k s))
  unfolding poll ticks
  poll-ends zero n test s h e = absurd (omega arith)
  poll-ends (suc fuel) zero test s h e = let met : test s ≡ true = e in (0, rw (met, poll))
  poll-ends (suc fuel) (suc n) test s h e = elim (Bool-cases (test s)) [
    | inl met ↦ (0, rw (met, poll))
    | inr not_yet ↦
        let (k, rest) = poll-ends fuel n test (tick s) (omega arith) e in
        (suc k, rw (not_yet, poll) rest)
  ]

  field-ticks :
      (laws : IsPrci prci) (r : PllReg) (w i n : ℕ) (s : regs.State)
      → i + w ≤ 31
      → field prci r w i (ticks n s) ≡ field prci r w i s
  unfolding ticks
  field-ticks laws r w i zero s inside = refl
  field-ticks laws r w i (suc n) s inside =
      field-ticks laws r w i n (tick s) inside ∙ field-tick prci laws r w i s inside

  mtime-ticks : (laws : IsPrci prci) (n : ℕ) (s : regs.State) → mtime s + n ≤ mtime (ticks n s)
  unfolding ticks
  mtime-ticks laws zero s = omega arith
  mtime-ticks laws (suc n) s = omega (arith, laws.timer_runs s, mtime-ticks laws n (tick s))

  ticks-Programmed :
      (laws : IsPrci prci) (config : PllConfig) (s t : regs.State) (n : ℕ)
      → Programmed prci config s t
      → Programmed prci config s (ticks n t)
  ticks-Programmed laws config s t n p = record {
    r_set = field-ticks laws pllcfg 3 0 n t (omega arith) ∙ p.r_set;
    f_set = field-ticks laws pllcfg 6 4 n t (omega arith) ∙ p.f_set;
    q_set = field-ticks laws pllcfg 2 10 n t (omega arith) ∙ p.q_set;
    bypass_off = field-ticks laws pllcfg 1 18 n t (omega arith) ∙ p.bypass_off;
    sel_kept = field-ticks laws pllcfg 1 16 n t (omega arith) ∙ p.sel_kept;
    refsel_kept = field-ticks laws pllcfg 1 17 n t (omega arith) ∙ p.refsel_kept;
    divider_off = λ off. field-ticks laws plloutdiv 1 8 n t (omega arith) ∙ p.divider_off off;
    divider_on = λ d on. field-ticks laws plloutdiv 1 8 n t (omega arith) ∙ p.divider_on d on;
    divider_set = λ d on. field-ticks laws plloutdiv 6 0 n t (omega arith) ∙ p.divider_set d on;
  }

  -- The PLL shows its lock after fewer than `fuel` ticks, from any state.
  abbrev pub Locks : ℕ → Type 0
  Locks fuel =
      (s : regs.State)
      → (n : ℕ) × (n < fuel) × ((not (bit_and (regs.read (ticks n s) pllcfg) pll_lock == 0)) ≡ true)

  pub configure_pll-Programmed :
      (laws : IsPrci prci) (fuel : ℕ) (config : PllConfig) (s : regs.State)
      → IsRow config
      → 6 ≤ fuel
      → Locks fuel
      → (s' : regs.State) × (configure_pll prci fuel config s ≡ some s')
        × Programmed prci config s s'
  unfolding configure_pll
  configure_pll-Programmed laws fuel config s row enough locks =
      let t : regs.State = write_dividers prci config s in
      let run : ltb (mtime t + 4) (mtime (ticks 5 t)) ≡ true =
        ground (arith, mtime-ticks laws 5 t) in
      let (k, waited) = poll-ends fuel 5 (λ u. ltb (mtime t + 4) (mtime u)) t (omega arith) run in
      let (n, below, locked) = locks (ticks k t) in
      let (m, found) =
        poll-ends fuel n (λ u. not (bit_and (regs.read u pllcfg) pll_lock == 0)) (ticks k t) below
          locked in
      (
        ticks m (ticks k t),
        rw (waited, found),
        ticks-Programmed laws config s (ticks k t) m
            (ticks-Programmed laws config s t k (write_dividers-Programmed prci laws config row s)),
      )
