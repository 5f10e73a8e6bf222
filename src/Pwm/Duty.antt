-- ===== src/Pwm/Duty.antt =====
-- The duty of a comparator of src/drivers/sifive_pwm0.c.
use freedom_metal.Prelude.{
  ℕ, ◌*◌, ◌/◌, ◌%◌, ◌^◌, ◌≤◌, ◌<◌, ◌≡◌, ◌∙◌, refl, ap, Bool, true, false, ◌==◌, ==_iff, ◌&&◌, ltb,
  leb, ◌⊎◌, inl, inr, Bool-cases, arith, if◌then◌else◌,
}
use freedom_metal.Prelude.Machine.{Registers, set_bits, clear_bits}
use native.Mathlib.Nat.{mul-le-mul, le_refl, mod-eq_of_lt}
use freedom_metal.Pwm.{
  Reg, pwmcfg, pwmcmp, cmpcenter, max_duty, ret_err, Wiring, Pwm, getcmpval, set_duty, get_duty,
}
use freedom_metal.Pwm.Freq.{IsPwm}

module _ (regs : Registers Reg) (width : ℕ) (laws : IsPwm regs width) where
  -- The word of a comparator, which is written before the configuration.
  after_cfg :
      (s : regs.State) (on : Bool) (idx bits : ℕ)
      → regs.read
          (if on then set_bits regs s pwmcfg bits else clear_bits regs 32 s pwmcfg bits)
          (pwmcmp idx)
        ≡ regs.read s (pwmcmp idx)
  after_cfg s true idx bits = laws.other s pwmcfg (pwmcmp idx) _ (λ e. cc)
  after_cfg s false idx bits = laws.other s pwmcfg (pwmcmp idx) _ (λ e. cc)

  -- Where pwmcfg holds what is written and a comparator what fits in its width, with a count
  -- below 2^25 that fits in the width: for a comparator of the device but the first and a duty
  -- of at most 100, set_duty returns 0, get_duty gives the duty at that comparator and what it
  -- gave at each other, and the word of the comparator is the duty's percentage of the count,
  -- rounded down, and no more than the count. For the first comparator, one that the device has
  -- not, or a duty above 100 it returns -1 and changes nothing.
  pub set_duty-get_duty :
      (board : Wiring) (idx duty j : ℕ) (phase_correct : Bool) (u : Pwm regs)
      → u.count_val < 2 ^ 25
      → u.count_val < 2 ^ width
      → (r : ℕ) × (after : Pwm regs) × (set_duty regs board idx duty phase_correct u ≡ (r, after))
        × (((0 < idx)
              × (idx < board.comparator_count)
              × (duty ≤ 100)
              × (r ≡ 0)
              × (get_duty regs board j after ≡ (if j == idx then duty else get_duty regs board j u))
              × (regs.read after.io (pwmcmp idx) ≡ duty * u.count_val / 100)
              × (duty * u.count_val / 100 ≤ u.count_val)
              × (after.count_val ≡ u.count_val))
            ⊎ (((idx ≡ 0) ⊎ ((board.comparator_count ≤ idx) ⊎ (100 < duty)))
                × (r ≡ ret_err)
                × (after ≡ u)))
  unfolding set_duty get_duty getcmpval
  set_duty-get_duty board idx duty j phase_correct u small narrow =
      elim (Bool-cases (ltb 0 idx && (ltb idx board.comparator_count && leb duty max_duty))) [
        | inr refused ↦ (ret_err, u, rw (refused) refl, inr (ground (arith, refused), refl, refl))
        | inl ok ↦
            let least : ltb 0 idx ≡ true = ground (arith, ok) in
            let inside : ltb idx board.comparator_count ≡ true = ground (arith, ok) in
            let percent : duty ≤ 100 = ground (arith, ok) in
            let product : duty * u.count_val ≤ 100 * u.count_val =
              mul-le-mul percent (le_refl u.count_val) in
            let word : duty * u.count_val % 2 ^ 32 ≡ duty * u.count_val =
              mod-eq_of_lt (omega (arith, product, small)) in
            let value : duty * u.count_val % 2 ^ 32 / 100 ≡ duty * u.count_val / 100 =
              ap (λ (x : ℕ). x / 100) word in
            let below : duty * u.count_val / 100 ≤ u.count_val = omega (arith, product) in
            let s1 : regs.State =
              regs.write u.io (pwmcmp idx) (duty * u.count_val % 2 ^ 32 / 100) in
            (
              0,
              record u {
                duty = λ i. if i == idx then duty else u.duty i;
                io =
                    if phase_correct
                    then set_bits regs s1 pwmcfg (cmpcenter idx)
                    else clear_bits regs 32 s1 pwmcfg (cmpcenter idx);
              },
              rw (ok) refl,
              inl (
                ground (arith, least),
                ground (arith, inside),
                percent,
                refl,
                at_each least inside (Bool-cases (j == idx)),
                after_cfg s1 phase_correct idx (cmpcenter idx)
                    ∙ laws.back_cmp u.io idx _ (omega (arith, value, below, narrow))
                    ∙ value,
                below,
                refl,
              ),
            )
      ]
    where
      at_each :
          ltb 0 idx ≡ true
          → ltb idx board.comparator_count ≡ true
          → ((j == idx) ≡ true) ⊎ ((j == idx) ≡ false)
          → (if ltb 0 j && ltb j board.comparator_count
              then (if j == idx then duty else u.duty j)
              else 0)
            ≡ (if j == idx
                then duty
                else if ltb 0 j && ltb j board.comparator_count
                then u.duty j
                else 0)
      at_each least inside (inl here) =
          let same : j ≡ idx = (==_iff j idx).0 here in
          let in_range : (ltb 0 j && ltb j board.comparator_count) ≡ true =
            ground (arith, same, least, inside) in
          rw (here, in_range) refl
      at_each least inside (inr there) = rw (there) refl
