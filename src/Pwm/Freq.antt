-- ===== src/Pwm/Freq.antt =====
-- The count and the prescaler that src/drivers/sifive_pwm0.c sets for a frequency.
use freedom_metal.Prelude.{
  ℕ, ◌+◌, ◌-◌, ◌/◌, ◌^◌, ◌≤◌, ◌<◌, ◌≡◌, ◌≢◌, ◌∙◌, refl, ap, false, some, ◌==◌, ◌⊎◌, inl, inr, arith,
  bit_or, bit_and,
}
use freedom_metal.Prelude.Bits.{bit_or-lt, bit_or-zero}
use freedom_metal.Prelude.Fields.{bit_and-mask}
use freedom_metal.Prelude.Machine.{Registers, set_bits}
use native.Mathlib.Nat.{le-div_iff_mul-le, mul-div-le}
use freedom_metal.Pwm.{Reg, pwmcfg, pwmcmp, Pwm, set_count}
use freedom_metal.Pwm.Search.{count_at, Found, search-Found, Found-positive}

module _ (regs : Registers Reg) where
  -- The configuration holds what is written, and a comparator what fits in its width.
  pub record IsPwm (width : ℕ) : Type 0 where
    pub back_cfg :
        (s : regs.State) (v : ℕ) → v < 2 ^ 32 → regs.read (regs.write s pwmcfg v) pwmcfg ≡ v
    pub back_cmp :
        (s : regs.State) (x v : ℕ)
        → v < 2 ^ width
        → regs.read (regs.write s (pwmcmp x) v) (pwmcmp x) ≡ v
    pub other :
        (s : regs.State) (a b : Reg) (v : ℕ)
        → a ≢ b
        → regs.read (regs.write s a v) b ≡ regs.read s b
    pub fits : (s : regs.State) (r : Reg) → regs.read s r < 2 ^ 32

  module _ (width : ℕ) (laws : IsPwm width) where
    -- The two registers after a count and a prescaler.
    set_count-registers :
        (s : regs.State) (count bits : ℕ)
        → bits < 2 ^ 32
        → (count < 2 ^ width
            → regs.read (set_bits regs (regs.write s (pwmcmp 0) count) pwmcfg bits) (pwmcmp 0)
              ≡ count)
          × (regs.read (set_bits regs (regs.write s (pwmcmp 0) count) pwmcfg bits) pwmcfg
              ≡ bit_or (regs.read s pwmcfg) bits)
    set_count-registers s count bits narrow =
        let s1 : regs.State = regs.write s (pwmcmp 0) count in
        let kept : regs.read s1 pwmcfg ≡ regs.read s pwmcfg =
          laws.other s (pwmcmp 0) pwmcfg count (λ e. cc) in
        (
          λ small. laws.other s1 pwmcfg (pwmcmp 0) _ (λ e. cc) ∙ laws.back_cmp s 0 count small,
          laws.back_cfg s1 _ (bit_or-lt 32 _ bits (laws.fits s1 pwmcfg) narrow)
              ∙ ap (λ (x : ℕ). bit_or x bits) kept,
        )

    -- Where pwmcfg holds what is written and a comparator what fits in its width, with a
    -- frequency that is not 0 and that the clock, of fewer than 2^32 Hz, reaches, and a largest
    -- count that is not 0 and fits in the width: the frequency is set, with a prescaler p of at
    -- most 15, and p is the first prescaler at which the count for the frequency is no more than
    -- the largest, or 15. The count less 1 is kept. Where the count is no more than the largest,
    -- the count less 1 is in the first comparator, the frequency that is kept is no less than
    -- the one asked for, and the bits of p are set in pwmcfg, where those of the last prescaler
    -- stay. Where it is more, pwmcfg is as it was.
    pub set_count-freq :
        (clock_rate freq : ℕ) (u : Pwm regs)
        → 1 ≤ freq
        → freq ≤ clock_rate
        → clock_rate < 2 ^ 32
        → 1 ≤ u.max_count
        → u.max_count < 2 ^ width
        → (p : ℕ) × (after : Pwm regs) × (set_count regs clock_rate freq u ≡ some after)
          × (p ≤ 15)
          × ((i : ℕ) → i < p → u.max_count < count_at clock_rate freq i)
          × (after.count_val + 1 ≡ count_at clock_rate freq p)
          × (((after.count_val + 1 ≤ u.max_count)
                × (regs.read after.io (pwmcmp 0) ≡ after.count_val)
                × (freq ≤ after.freq)
                × (regs.read after.io pwmcfg ≡ bit_or (regs.read u.io pwmcfg) p))
              ⊎ ((p ≡ 15)
                  × (u.max_count < after.count_val + 1)
                  × (regs.read after.io pwmcfg ≡ regs.read u.io pwmcfg)))
    unfolding set_count
    set_count-freq clock_rate freq u some_freq reached word some_max narrow =
        let found : Found clock_rate freq u.max_count 15 0 =
          search-Found clock_rate freq u.max_count 15 0 in
        let p : ℕ = found.at in
        let count : ℕ = count_at clock_rate freq p in
        let positive : 1 ≤ count =
          Found-positive clock_rate freq u.max_count 15 found some_freq reached some_max in
        let asked : (freq == 0) ≡ false = ground (arith, some_freq) in
        let counted : (count == 0) ≡ false = ground (arith, positive) in
        let low : p ≤ 15 = omega (arith, found.upto) in
        let nibble : bit_and p 15 ≡ p = omega (arith, bit_and-mask 4 0 p, low) in
        let one : count - 1 + 1 ≡ count = omega (arith, positive) in
        elim (found.ends) [
          | inl (ends, fits) ↦
              let (cmp, cfg) =
                set_count-registers u.io (count - 1) (bit_and p 15) (omega (arith, nibble, low)) in
              (
                p,
                record u {
                  freq = clock_rate / 2 ^ p / count;
                  count_val = count - 1;
                  io = set_bits regs (regs.write u.io (pwmcmp 0) (count - 1)) pwmcfg (bit_and p 15);
                },
                rw (ends, asked, counted) refl,
                low,
                λ i below. found.earlier i (omega arith) below,
                one,
                inl (
                  omega (arith, one, fits),
                  cmp (omega (arith, fits, positive, narrow)),
                  (le-div_iff_mul-le {k = count} {x = freq} {y = clock_rate / 2 ^ p} positive).1
                      (mul-div-le (clock_rate / 2 ^ p) freq),
                  cfg ∙ ap (λ (x : ℕ). bit_or (regs.read u.io pwmcfg) x) nibble,
                ),
              )
          | inr (ends, last, large) ↦
              let at : p ≡ 15 = omega (arith, last) in
              let raised : bit_and (p + 1) 15 ≡ 0 = ap (λ (x : ℕ). bit_and (x + 1) 15) at in
              let (cmp, cfg) =
                set_count-registers u.io (count - 1) (bit_and (p + 1) 15) (omega (arith, raised)) in
              (
                p,
                record u {
                  freq = clock_rate / 2 ^ (p + 1) / count;
                  count_val = count - 1;
                  io =
                      set_bits regs (regs.write u.io (pwmcmp 0) (count - 1)) pwmcfg
                        (bit_and (p + 1) 15);
                },
                rw (ends, asked, counted) refl,
                low,
                λ i below. found.earlier i (omega arith) below,
                one,
                inr (
                  at,
                  omega (arith, one, large),
                  cfg
                      ∙ ap (λ (x : ℕ). bit_or (regs.read u.io pwmcfg) x) raised
                      ∙ bit_or-zero (regs.read u.io pwmcfg),
                ),
              )
        ]
