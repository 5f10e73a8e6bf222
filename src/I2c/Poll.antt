-- ===== src/I2c/Poll.antt =====
-- The loops of src/drivers/sifive_i2c0.c that wait for a transfer: they end with the time.
use freedom_metal.Prelude.{
  ℕ, zero, suc, ◌+◌, ◌<◌, ◌≡◌, refl, Bool, true, false, not, some, arith, inl, inr, Bool-cases, ltb,
}
use freedom_metal.I2c.{Hardware, in_progress, reg_check, await}

module _ (hardware : Hardware) where
  open hardware use {regs, tick, time}

  unfoldable pub ticks : ℕ → regs.State → regs.State
  ticks zero s = s
  ticks (suc n) s = ticks n (tick s)

  -- Within fewer ticks than the fuel the clock gains more than METAL_I2C_RXDATA_TIMEOUT.
  abbrev pub Passes : ℕ → Type 0
  Passes fuel = (s : regs.State) → (n : ℕ) × (n < fuel) × (time s + 1 < time (ticks n s))

  pub reg_check-ends :
      (fuel n timeout : ℕ) (s : regs.State)
      → n < fuel
      → timeout < time (ticks n s)
      → (k : ℕ) × (done : Bool) × (reg_check hardware fuel timeout s ≡ some (done, ticks k s))
        × (in_progress hardware (ticks k s) ≡ not done)
  unfolding reg_check ticks
  reg_check-ends zero n timeout s h late = absurd (omega arith)
  reg_check-ends (suc fuel) zero timeout s h late =
      let out : ltb timeout (time s) ≡ true = ground (arith, late) in
      elim (Bool-cases (in_progress hardware s)) [
        | inr over ↦ (0, true, rw (over, reg_check) refl, over)
        | inl busy ↦ (0, false, rw (busy, out, reg_check) refl, busy)
      ]
  reg_check-ends (suc fuel) (suc n) timeout s h late = elim (Bool-cases (in_progress hardware s)) [
    | inr over ↦ (0, true, rw (over, reg_check) refl, over)
    | inl busy ↦ elim (Bool-cases (ltb timeout (time s))) [
      | inl out ↦ (0, false, rw (busy, out, reg_check) refl, busy)
      | inr early ↦
          let (k, done, ends, over) = reg_check-ends fuel n timeout (tick s) (omega arith) late in
          (suc k, done, rw (busy, early, reg_check) ends, over)
    ]
  ]

  pub await-ends :
      (fuel : ℕ) (s : regs.State)
      → Passes fuel
      → (k : ℕ) × (done : Bool) × (await hardware fuel s ≡ some (done, ticks k s))
        × (in_progress hardware (ticks k s) ≡ not done)
  unfolding await
  await-ends fuel s passes =
      let (n, h, late) = passes s in reg_check-ends fuel n (time s + 1) s h late
