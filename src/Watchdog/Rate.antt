-- ===== src/Watchdog/Rate.antt =====
-- The rate and the timeout of src/drivers/sifive_wdog0.c, in registers that take a write after the
-- magic word.
use freedom_metal.Prelude.{
  ℕ, zero, suc, ◌*◌, ◌/◌, ◌^◌, ◌≤◌, ◌<◌, ◌≡◌, ◌≢◌, ◌∙◌, refl, ap, false, some, ◌==◌, ltb, leb, inl,
  inr, arith, bit_or, bit_and, min, if◌then◌else◌,
}
use freedom_metal.Prelude.Bits.{bit_or-lt, bit_and-lt, complement}
use freedom_metal.Prelude.Fields.{extract, extract-insert_self, bit_and-mask}
use freedom_metal.Prelude.Machine.{Registers}
use mathlib.Core.Path.{subst}
use freedom_metal.Watchdog.{
  Reg, wdogcfg, wdogkey, wdogcmp, scale_mask, cmp_mask, distance, closest, unlock, unlock_clear,
  unlock_set, get_rate, set_rate, get_timeout, set_timeout,
}
use freedom_metal.Watchdog.Closest.{far, IsLeast, closest-IsLeast}

-- `7 & scale`
low_scale : (m : ℕ) → m < 8 → bit_and scale_mask m ≡ m
low_scale zero h = refl
low_scale (suc zero) h = refl
low_scale (suc (suc zero)) h = refl
low_scale (suc (suc (suc zero))) h = refl
low_scale (suc (suc (suc (suc zero)))) h = refl
low_scale (suc (suc (suc (suc (suc zero))))) h = refl
low_scale (suc (suc (suc (suc (suc (suc zero)))))) h = refl
low_scale (suc (suc (suc (suc (suc (suc (suc zero))))))) h = refl
low_scale (suc (suc (suc (suc (suc (suc (suc (suc m)))))))) h = absurd (omega (arith, h))

module _ (regs : Registers Reg) (magic_key magic_food : ℕ) where
  -- A write holds where the magic word is the last that was written before it.
  pub record IsWatchdog : Type 1 where
    pub Armed : regs.State → Type 0
    pub arms : (s : regs.State) → Armed (regs.write s wdogkey magic_key)
    pub back :
        (s : regs.State) (r : Reg) (v : ℕ)
        → Armed s
        → r ≢ wdogkey
        → v < 2 ^ 32
        → regs.read (regs.write s r v) r ≡ v
    pub other :
        (s : regs.State) (a b : Reg) (v : ℕ)
        → a ≢ b
        → regs.read (regs.write s a v) b ≡ regs.read s b
    pub fits : (s : regs.State) (r : Reg) → regs.read s r < 2 ^ 32

  module _ (laws : IsWatchdog) where
    -- The three bits of the scale, cleared and set.
    scale_set :
        (s : regs.State) (m : ℕ)
        → m < 2 ^ 3
        → bit_and
            (regs.read
              (unlock_set regs magic_key magic_food
                (unlock_clear regs magic_key magic_food s wdogcfg scale_mask)
                wdogcfg
                m)
              wdogcfg)
            scale_mask
          ≡ m
    scale_set s m small =
        let s0 : regs.State = unlock regs magic_key magic_food s in
        let old : ℕ = regs.read s0 wdogcfg in
        let cleared : ℕ = bit_and old (complement 32 scale_mask) in
        let s1 : regs.State = regs.write s0 wdogcfg cleared in
        let s2 : regs.State = unlock regs magic_key magic_food s1 in
        let low : cleared < 2 ^ 32 = bit_and-lt 32 old _ (laws.fits s0 wdogcfg) in
        let kept : regs.read s2 wdogcfg ≡ cleared =
          laws.other s1 wdogkey wdogcfg _ (λ e. cc)
          ∙ laws.back s0 wdogcfg cleared (laws.arms s) (λ e. cc) low in
        let word : bit_or (regs.read s2 wdogcfg) m < 2 ^ 32 =
          bit_or-lt 32 _ m (laws.fits s2 wdogcfg) (omega (arith, small)) in
        let now : regs.read (regs.write s2 wdogcfg (bit_or (regs.read s2 wdogcfg) m)) wdogcfg
            ≡ bit_or cleared (m * 2 ^ 0) =
          laws.back s2 wdogcfg _ (laws.arms s1) (λ e. cc) word
          ∙ ap (λ (x : ℕ). bit_or x m) kept
          ∙ ap (λ (x : ℕ). bit_or cleared x) (omega arith) in
        let field : extract 3 0 (bit_or cleared (m * 2 ^ 0)) ≡ m =
          extract-insert_self 32 3 0 old m small (omega arith) in
        ap (λ (x : ℕ). bit_and x scale_mask) now
        ∙ omega (arith, bit_and-mask 3 0 (bit_or cleared (m * 2 ^ 0)), field)

    -- On registers that take a write after the magic word, and hold it, for a rate below that of
    -- the clock, which is below LONG_MAX: set_rate returns the rate of the clock divided by two
    -- to a scale below 7, which is nearest to the rate asked for among the scales from 0 to 6,
    -- and get_rate then gives the rate that was returned.
    pub set_rate-get_rate :
        (long_max clock_rate rate j : ℕ) (s : regs.State)
        → rate < clock_rate
        → clock_rate < long_max
        → j < 7
        → (scale : ℕ) × (after : regs.State) × (set_rate regs magic_key magic_food long_max
              clock_rate rate s
            ≡ (clock_rate / 2 ^ scale, after))
          × (get_rate regs magic_key magic_food clock_rate after ≡ some (clock_rate / 2 ^ scale))
          × (scale < 7)
          × (distance rate (clock_rate / 2 ^ scale) ≤ distance rate (clock_rate / 2 ^ j))
    unfolding set_rate get_rate
    set_rate-get_rate long_max clock_rate rate j s below bounded inside =
        let found : IsLeast clock_rate rate 7 0 long_max 0
            (closest clock_rate rate 7 0 long_max 0) =
          closest-IsLeast clock_rate rate 7 0 long_max 0 in
        let d : ℕ = (closest clock_rate rate 7 0 long_max 0).0 in
        let m : ℕ = (closest clock_rate rate 7 0 long_max 0).1 in
        let whole : clock_rate / 2 ^ 0 ≡ clock_rate = omega arith in
        let first : d ≤ far clock_rate rate 0 = found.least 0 (omega arith) (omega arith) in
        let near : d < long_max = omega (arith, first, whole, below, bounded) in
        let slower : leb clock_rate rate ≡ false = ground (arith, below) in
        let running : (clock_rate == 0) ≡ false = ground (arith, below) in
        elim (found.at) [
          | inl (same, z) ↦ absurd (omega (arith, same, near))
          | inr (is_far, from, to) ↦
              let nibble : bit_and scale_mask m ≡ m = low_scale m (omega (arith, to)) in
              let after : regs.State =
                unlock_set regs magic_key magic_food
                  (unlock_clear regs magic_key magic_food s wdogcfg scale_mask) wdogcfg
                  (bit_and scale_mask m) in
              let field : bit_and (regs.read after wdogcfg) scale_mask ≡ m =
                scale_set s (bit_and scale_mask m) (omega (arith, nibble, to)) ∙ nibble in
              (
                m,
                after,
                rw (slower) refl,
                rw (running) (ap (λ (x : ℕ). some (clock_rate / 2 ^ x)) field),
                omega (arith, to),
                subst (λ (x : ℕ). x ≤ far clock_rate rate j) is_far
                    (found.least j (omega arith) (omega (arith, inside))),
              )
        ]

    -- On registers that take a write after the magic word, and hold it, set_timeout returns the
    -- timeout asked for, or 65535 where it is more, and get_timeout then gives what was
    -- returned.
    pub set_timeout-get_timeout :
        (timeout : ℕ) (s : regs.State)
        → (after : regs.State) × (set_timeout regs magic_key magic_food timeout s
            ≡ (min timeout 65535, after))
          × (get_timeout regs magic_key magic_food after ≡ min timeout 65535)
    unfolding set_timeout get_timeout
    set_timeout-get_timeout timeout s =
        let capped : (if ltb cmp_mask timeout then cmp_mask else timeout) ≡ min timeout 65535 =
          ground arith in
        let v : ℕ = min timeout 65535 in
        let old : ℕ = regs.read s wdogcmp in
        let cleared : ℕ = bit_and old (complement 32 cmp_mask) in
        let low : cleared < 2 ^ 32 = bit_and-lt 32 old _ (laws.fits s wdogcmp) in
        let small : v < 2 ^ 16 = omega arith in
        let word : bit_or cleared v < 2 ^ 32 = bit_or-lt 32 cleared v low (omega (arith, small)) in
        let field : extract 16 0 (bit_or cleared (v * 2 ^ 0)) ≡ v =
          extract-insert_self 32 16 0 old v small (omega arith) in
        let now : regs.read
              (regs.write (unlock regs magic_key magic_food s) wdogcmp (bit_or cleared v)) wdogcmp
            ≡ bit_or cleared (v * 2 ^ 0) =
          laws.back (unlock regs magic_key magic_food s) wdogcmp _ (laws.arms s) (λ e. cc) word
          ∙ ap (λ (x : ℕ). bit_or cleared x) (omega arith) in
        (
          regs.write (unlock regs magic_key magic_food s) wdogcmp (bit_or cleared v),
          rw (capped) refl,
          ap (λ (x : ℕ). bit_and x cmp_mask) now
              ∙ omega (arith, bit_and-mask 16 0 (bit_or cleared (v * 2 ^ 0)), field),
        )
