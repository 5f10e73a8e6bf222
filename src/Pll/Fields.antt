-- ===== src/Pll/Fields.antt =====
-- The fields of the two registers of the PLL under the driver's writes. Bit 31 of pllcfg, the lock,
-- is the hardware's.
use freedom_metal.Prelude.{ℕ, ◌+◌, ◌*◌, ◌^◌, ◌≤◌, ◌<◌, ◌≡◌, ◌≢◌, ◌⊎◌, arith, bit_or, bit_and, ◌∙◌}
use freedom_metal.Prelude.Bits.{complement, bit_or-lt, bit_and-lt}
use freedom_metal.Prelude.Fields.{mask, extract, shifted-lt}
use freedom_metal.Prelude.Low.{
  Agree, extract-Agree, extract-or_other, extract-or_self, extract-or_one, extract-clear_self,
  extract-clear_other,
}
use freedom_metal.Prelude.Machine.{set_bits, clear_bits}
use freedom_metal.Pll.{Prci, PllReg, replace}

module _ (prci : Prci) where
  open prci use {regs, mtime, tick}

  -- What the driver relies on: below bit 31 a register holds what was written, through writes to the
  -- other and through time; and the timer advances.
  pub record IsPrci : Type 0 where
    pub fits : (s : regs.State) (r : PllReg) → regs.read s r < 2 ^ 32
    pub back :
        (s : regs.State) (r : PllReg) (v : ℕ)
        → v < 2 ^ 32
        → Agree 31 (regs.read (regs.write s r v) r) v
    pub kept :
        (s : regs.State) (r r' : PllReg) (v : ℕ)
        → r ≢ r'
        → Agree 31 (regs.read (regs.write s r v) r') (regs.read s r')
    pub tick_kept : (s : regs.State) (r : PllReg) → Agree 31 (regs.read (tick s) r) (regs.read s r)
    pub timer_runs : (s : regs.State) → mtime s < mtime (tick s)

  -- The field of `w` bits at bit `i` of a register.
  abbrev pub field : PllReg → ℕ → ℕ → regs.State → ℕ
  field r w i s = extract w i (regs.read s r)

  module _ (laws : IsPrci) where
    module _ (r : PllReg) (w i v : ℕ) (s : regs.State) (fits : v < 2 ^ w)
        (inside : i + w ≤ 31) where
      or-lt : bit_or (regs.read s r) (v * 2 ^ i) < 2 ^ 32
      or-lt =
          bit_or-lt 32 (regs.read s r) (v * 2 ^ i) (laws.fits s r)
            (shifted-lt 32 w i v fits (omega arith))

      pub field-set_bits_other :
          (w' i' : ℕ)
          → i' + w' ≤ 31
          → (i' + w' ≤ i) ⊎ (i + w ≤ i')
          → field r w' i' (set_bits regs s r (v * 2 ^ i)) ≡ field r w' i' s
      field-set_bits_other w' i' inside' apart =
          extract-Agree 31 _ _ w' i' (laws.back s r _ or-lt) inside'
          ∙ extract-or_other (regs.read s r) w i v w' i' fits apart

      pub field-set_bits_self : field r w i s ≡ 0 → field r w i (set_bits regs s r (v * 2 ^ i)) ≡ v
      field-set_bits_self empty =
          extract-Agree 31 _ _ w i (laws.back s r _ or-lt) inside
          ∙ extract-or_self (regs.read s r) w i v fits empty

    pub field-set_bit :
        (r : PllReg) (i : ℕ) (s : regs.State)
        → i < 31
        → field r 1 i (set_bits regs s r (1 * 2 ^ i)) ≡ 1
    field-set_bit r i s low =
        extract-Agree 31 _ _ 1 i (laws.back s r _ (or-lt r 1 i 1 s (omega arith) (omega arith)))
          (omega arith)
        ∙ extract-or_one (regs.read s r) i

    module _ (r : PllReg) (w i : ℕ) (s : regs.State) (inside : i + w ≤ 31) where
      and-lt : bit_and (regs.read s r) (complement 32 (mask w i)) < 2 ^ 32
      and-lt = bit_and-lt 32 (regs.read s r) _ (laws.fits s r)

      pub field-clear_bits_self : field r w i (clear_bits regs 32 s r (mask w i)) ≡ 0
      field-clear_bits_self =
          extract-Agree 31 _ _ w i (laws.back s r _ and-lt) inside
          ∙ extract-clear_self 32 (regs.read s r) w i (omega arith)

      pub field-clear_bits_other :
          (w' i' : ℕ)
          → i' + w' ≤ 31
          → (i' + w' ≤ i) ⊎ (i + w ≤ i')
          → field r w' i' (clear_bits regs 32 s r (mask w i)) ≡ field r w' i' s
      field-clear_bits_other w' i' inside' apart =
          extract-Agree 31 _ _ w' i' (laws.back s r _ and-lt) inside'
          ∙ extract-clear_other 32 (regs.read s r) w i w' i' (omega arith) (omega arith) apart

    -- The other register.
    pub field-write_kept :
        (r r' : PllReg) (v w' i' : ℕ) (s : regs.State)
        → r ≢ r'
        → i' + w' ≤ 31
        → field r' w' i' (regs.write s r v) ≡ field r' w' i' s
    field-write_kept r r' v w' i' s ne inside =
        extract-Agree 31 _ _ w' i' (laws.kept s r r' v ne) inside

    module _ (r : PllReg) (w i v : ℕ) (s : regs.State) (fits : v < 2 ^ w)
        (inside : i + w ≤ 31) where
      pub field-replace_self : field r w i (replace prci r (mask w i) (v * 2 ^ i) s) ≡ v
      unfolding replace
      field-replace_self =
          field-set_bits_self r w i v (clear_bits regs 32 s r (mask w i)) fits inside
            (field-clear_bits_self r w i s inside)

      pub field-replace_other :
          (w' i' : ℕ)
          → i' + w' ≤ 31
          → (i' + w' ≤ i) ⊎ (i + w ≤ i')
          → field r w' i' (replace prci r (mask w i) (v * 2 ^ i) s) ≡ field r w' i' s
      unfolding replace
      field-replace_other w' i' inside' apart =
          field-set_bits_other r w i v (clear_bits regs 32 s r (mask w i)) fits inside w' i' inside'
            apart
          ∙ field-clear_bits_other r w i s inside w' i' inside' apart

    pub field-replace_kept :
        (r r' : PllReg) (m v w' i' : ℕ) (s : regs.State)
        → r ≢ r'
        → i' + w' ≤ 31
        → field r' w' i' (replace prci r m v s) ≡ field r' w' i' s
    unfolding replace
    field-replace_kept r r' m v w' i' s ne inside =
        field-write_kept r r' _ w' i' (clear_bits regs 32 s r m) ne inside
        ∙ field-write_kept r r' _ w' i' s ne inside

    pub field-tick :
        (r : PllReg) (w i : ℕ) (s : regs.State) → i + w ≤ 31 → field r w i (tick s) ≡ field r w i s
    field-tick r w i s inside = extract-Agree 31 _ _ w i (laws.tick_kept s r) inside
