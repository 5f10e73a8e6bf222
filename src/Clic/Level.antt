-- ===== src/Clic/Level.antt =====
-- The level and the priority of an interrupt in src/drivers/sifive_clic0.c, and its vector bit, which
-- share a byte.
use freedom_metal.Prelude.{
  ℕ, zero, suc, true, false, ◌+◌, ◌-◌, ◌*◌, ◌/◌, ◌%◌, ◌^◌, ◌≤◌, ◌<◌, ◌≡◌, ◌≢◌, ◌⊎◌, ◌∙◌, refl, ap,
  arith, some, ◌==◌, if◌then◌else◌, bit_and, bit_or,
}
use freedom_metal.Prelude.Bits.{complement}
use freedom_metal.Prelude.Fields.{
  mask, mask-lt, extract, insert, extract-lt, bit_and-mask, insert-lt, extract-insert_self,
  extract-insert_other,
}
use freedom_metal.Prelude.Machine.{Registers}
use freedom_metal.Clic.{
  Reg, max_nlbits, cliccfg, intctl, Cfg, byte_mask, shifted_ones, configuration, current, replace,
  fields, level_bits, interrupt_set_level, interrupt_get_level,
}
use freedom_metal.Clic.Masks.{byte_mask-mask, get_field-mask, mask-some, extract-byte, extract-none}
use freedom_metal.Pll.{get_field}

-- Bytes of memory: what is written reads back and other bytes stay.
pub record IsBytes (regs : Registers Reg) : Type 0 where
  pub back : (s : regs.State) (r : Reg) (v : ℕ) → v < 2 ^ 8 → regs.read (regs.write s r v) r ≡ v
  pub other :
      (s : regs.State) (a b : Reg) (v : ℕ) → a ≢ b → regs.read (regs.write s a v) b ≡ regs.read s b
  pub fits : (s : regs.State) (r : Reg) → regs.read s r < 2 ^ 8

level_of_mask :
    (a w x : ℕ)
    → a + w ≤ 8
    → (if mask w (8 - (a + w)) == 0
        then some 255
        else some (
            bit_or
              (get_field x (mask w (8 - (a + w))) % 2 ^ 8 * 2 ^ (max_nlbits - w))
              (255 / 2 ^ w)))
      ≡ some (bit_or (extract w (8 - (a + w)) x * 2 ^ (8 - w)) (255 / 2 ^ w))
level_of_mask a zero x inside =
    let empty : (mask 0 (8 - (a + 0)) == 0) ≡ true = ground arith in
    rw (empty, extract-none (8 - (a + 0)) x) refl
level_of_mask a (suc w) x inside =
    let p : ℕ = 8 - (a + suc w) in
    let filled : (mask (suc w) p == 0) ≡ false =
      ground (arith, mask-some (suc w) p (omega arith)) in
    let value : get_field x (mask (suc w) p) % 2 ^ 8 ≡ extract (suc w) p x = omega (
      arith,
      get_field-mask (suc w) p x (omega arith) (omega arith),
      extract-byte (suc w) p x (omega arith),
    ) in
    rw (filled, value) refl

module _ (regs : Registers Reg) (num_intbits num_subinterrupts : ℕ) where
  abbrev pub cfg_of : regs.State → Cfg
  cfg_of s = current regs num_intbits num_subinterrupts s

  -- The bits of a byte that the privilege mode and the level take.
  abbrev pub used : regs.State → ℕ
  used s = (cfg_of s).nmbits + (cfg_of s).nlbits

  abbrev pub replaced : ℕ → ℕ → ℕ → regs.State → regs.State
  replaced id m value s = replace regs num_intbits num_subinterrupts id m value s

module _ (regs : Registers Reg) (num_intbits num_subinterrupts : ℕ) (laws : IsBytes regs) where
  -- Replacing by a mask inserts a field.
  pub replace-insert :
      (id w p value : ℕ) (s : regs.State)
      → p + w ≤ 8
      → regs.read (replaced regs num_intbits num_subinterrupts id (mask w p) value s) (intctl id)
        ≡ insert 8 w p (regs.read s (intctl id)) (extract w p value)
  replace-insert id w p value s inside =
      let x : ℕ = regs.read s (intctl id) in
      let written : bit_or (bit_and x (complement 8 (mask w p))) (bit_and value (mask w p))
          ≡ insert 8 w p x (extract w p value) =
        ap (bit_or (bit_and x (complement 8 (mask w p)))) (bit_and-mask w p value) in
      let small =
        insert-lt 8 w p x (extract w p value) (laws.fits s (intctl id)) (extract-lt w p value)
          inside in
      laws.back s (intctl id) _ (rw (written) small) ∙ written

  replace-cfg :
      (id m value : ℕ) (s : regs.State)
      → regs.read (replaced regs num_intbits num_subinterrupts id m value s) cliccfg
        ≡ regs.read s cliccfg
  replace-cfg id m value s = laws.other s (intctl id) cliccfg _ (λ e. cc)

  -- A shift of ones that is a mask.
  shifted_ones-mask : (a w : ℕ) → a + w ≤ 8 → shifted_ones a w ≡ some (mask w (8 - (a + w)))
  shifted_ones-mask a w inside =
      let small : mask w (8 - (a + w)) < 2 ^ 8 = mask-lt 8 w (8 - (a + w)) (omega arith) in
      ground (arith, small)

  -- What is left of the byte where a level is set.
  pub set_level-insert :
      (id value : ℕ) (s : regs.State)
      → used regs num_intbits num_subinterrupts s ≤ 8
      → (regs.read (interrupt_set_level regs num_intbits num_subinterrupts id value s) (intctl id)
          ≡ insert 8
              (cfg_of regs num_intbits num_subinterrupts s).nlbits
              (8 - (used regs num_intbits num_subinterrupts s))
              (regs.read s (intctl id))
              (extract
                (cfg_of regs num_intbits num_subinterrupts s).nlbits
                (8 - (used regs num_intbits num_subinterrupts s))
                value))
        × (cfg_of regs num_intbits num_subinterrupts
              (interrupt_set_level regs num_intbits num_subinterrupts id value s)
            ≡ cfg_of regs num_intbits num_subinterrupts s)
  unfolding interrupt_set_level configuration
  set_level-insert id value s inside =
      let a : ℕ = (cfg_of regs num_intbits num_subinterrupts s).nmbits in
      let w : ℕ = (cfg_of regs num_intbits num_subinterrupts s).nlbits in
      let m : ℕ = byte_mask a (255 / 2 ^ (a + w)) in
      (
        ap
              (λ (m : ℕ).
                regs.read (replaced regs num_intbits num_subinterrupts id m value s) (intctl id))
              (byte_mask-mask a w inside)
            ∙ replace-insert id w (8 - (a + w)) value s (omega arith),
        ap (fields regs num_intbits num_subinterrupts) (replace-cfg id m value s),
      )

  -- The level that is read back.
  get_level-extract :
      (id : ℕ) (s : regs.State)
      → used regs num_intbits num_subinterrupts s ≤ num_intbits
      → num_intbits ≤ 8
      → interrupt_get_level regs num_intbits num_subinterrupts id s
        ≡ some (
            bit_or
              (extract
                  (cfg_of regs num_intbits num_subinterrupts s).nlbits
                  (8 - (used regs num_intbits num_subinterrupts s))
                  (regs.read s (intctl id))
                * 2 ^ (8 - (cfg_of regs num_intbits num_subinterrupts s).nlbits))
              (255 / 2 ^ (cfg_of regs num_intbits num_subinterrupts s).nlbits))
  unfolding interrupt_get_level
  get_level-extract id s fits byte =
      let a : ℕ = (cfg_of regs num_intbits num_subinterrupts s).nmbits in
      let w : ℕ = (cfg_of regs num_intbits num_subinterrupts s).nlbits in
      let bits : level_bits regs num_intbits num_subinterrupts
            (cfg_of regs num_intbits num_subinterrupts s)
          ≡ w =
        ground arith in
      let shown = shifted_ones-mask a w (omega arith) in
      rw (bits, shown) (level_of_mask a w (regs.read s (intctl id)) (omega arith))

  -- On registers that hold bytes, where the bits of the privilege mode and of the level that
  -- cliccfg gives are at most the bits that the controller has, 8 at most: after the level of an
  -- interrupt is set, the level that is read is the bits of the value at the place of the level
  -- in the byte, moved to the top and filled up with ones; and any field of the byte apart from
  -- that place is kept.
  pub set_level-get_level :
      (id value w p : ℕ) (s : regs.State)
      → used regs num_intbits num_subinterrupts s ≤ num_intbits
      → num_intbits ≤ 8
      → p + w ≤ 8
      → (p + w ≤ 8 - used regs num_intbits num_subinterrupts s)
        ⊎ (8 - (cfg_of regs num_intbits num_subinterrupts s).nmbits ≤ p)
      → let n = (cfg_of regs num_intbits num_subinterrupts s).nlbits in
        let after = interrupt_set_level regs num_intbits num_subinterrupts id value s in
        (interrupt_get_level regs num_intbits num_subinterrupts id after
          ≡ some (
              bit_or
                (extract n (8 - used regs num_intbits num_subinterrupts s) value * 2 ^ (8 - n))
                (255 / 2 ^ n)))
        × (extract w p (regs.read after (intctl id)) ≡ extract w p (regs.read s (intctl id)))
  set_level-get_level id value w p s fits byte inside apart =
      let n : ℕ = (cfg_of regs num_intbits num_subinterrupts s).nlbits in
      let q : ℕ = 8 - used regs num_intbits num_subinterrupts s in
      let x : ℕ = regs.read s (intctl id) in
      let v : ℕ = extract n q value in
      let after : regs.State = interrupt_set_level regs num_intbits num_subinterrupts id value s in
      let (written, same) = set_level-insert id value s (omega arith) in
      let low = extract-lt n q value in
      let shown = get_level-extract id after (rw (same) fits) byte in
      (
        shown ∙ rw (same, written, extract-insert_self 8 n q x v low (omega arith)) refl,
        ap (extract w p) written
            ∙ extract-insert_other 8 n q x v w p low (omega arith) inside (ground (arith, apart)),
      )
