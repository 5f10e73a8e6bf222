-- ===== src/Clic/Vectored.antt =====
-- The vector bit of an interrupt in src/drivers/sifive_clic0.c, which stands in the byte of its level and its
-- priority.
use freedom_metal.Prelude.{
  ℕ, true, false, ◌+◌, ◌-◌, ◌/◌, ◌%◌, ◌^◌, ◌≤◌, ◌<◌, ◌≡◌, ◌∙◌, refl, sym, ap, arith, some, leb,
  ◌==◌,
}
use freedom_metal.Prelude.Fields.{mask, mask-lt, extract, insert, extract-lt, extract-insert_inner}
use freedom_metal.Prelude.Machine.{Registers}
use freedom_metal.Clic.{
  Reg, intctl, byte_mask, interrupt_set_level, interrupt_set_priority, interrupt_is_vectored,
  set_preemptive_level, vector_bit,
}
use freedom_metal.Clic.Masks.{byte_mask-mask, extract-lowest, get_field-mask, mask-some}
use freedom_metal.Clic.Level.{IsBytes, used, replace-insert, set_level-insert}

module _ (regs : Registers Reg) (num_intbits num_subinterrupts : ℕ) (laws : IsBytes regs) where
  -- The lowest bit that the controller has.
  is_vectored-bit :
      (id : ℕ) (s : regs.State)
      → 1 ≤ num_intbits
      → num_intbits ≤ 8
      → interrupt_is_vectored regs num_intbits num_subinterrupts id s
        ≡ some (extract 1 (8 - num_intbits) (regs.read s (intctl id)))
  unfolding interrupt_is_vectored
  is_vectored-bit id s some_bits byte =
      let p : ℕ = 8 - num_intbits in
      let one : mask 1 p ≡ 2 ^ p = omega arith in
      let small : mask 1 p < 2 ^ 8 = mask-lt 8 1 p (omega arith) in
      let selected : vector_bit regs num_intbits num_subinterrupts ≡ some (mask 1 p) =
        ground (arith, one, small) in
      let filled : (mask 1 p == 0) ≡ false = ground (arith, mask-some 1 p (omega arith)) in
      rw
        (selected, filled, get_field-mask 1 p (regs.read s (intctl id)) (omega arith) (omega arith))
        refl

  set_priority-insert :
      (id value : ℕ) (s : regs.State)
      → used regs num_intbits num_subinterrupts s ≤ num_intbits
      → num_intbits ≤ 8
      → regs.read (interrupt_set_priority regs num_intbits num_subinterrupts id value s) (intctl id)
        ≡ insert 8
            (num_intbits - (used regs num_intbits num_subinterrupts s))
            (8 - num_intbits)
            (regs.read s (intctl id))
            (extract
              (num_intbits - (used regs num_intbits num_subinterrupts s))
              (8 - num_intbits)
              value)
  unfolding interrupt_set_priority
  set_priority-insert id value s within byte =
      let taken : ℕ = used regs num_intbits num_subinterrupts s in
      let w : ℕ = num_intbits - taken in
      let p : ℕ = 8 - num_intbits in
      let here : 8 - (taken + w) ≡ p = omega arith in
      let masked : byte_mask taken (255 / 2 ^ (taken + w)) ≡ mask w p =
        byte_mask-mask taken w (omega arith) ∙ ap (mask w) here in
      let test : leb taken num_intbits ≡ true = ground arith in
      rw (test, masked)
        (replace-insert regs num_intbits num_subinterrupts laws id w p value s (omega arith))

  -- On registers that hold bytes, where the bits of the privilege mode and of the level that
  -- cliccfg gives are fewer than the bits that the controller has, 8 at most: after the
  -- preemptive level of an interrupt is set, whether it is vectored is what the lowest bit that
  -- the controller has is in the level that was asked for, whatever it was before.
  pub set_preemptive_level-vectored :
      (id level : ℕ) (s : regs.State)
      → used regs num_intbits num_subinterrupts s < num_intbits
      → num_intbits ≤ 8
      → interrupt_is_vectored regs num_intbits num_subinterrupts id
          (set_preemptive_level regs num_intbits num_subinterrupts id level s)
        ≡ some (level / 2 ^ (8 - num_intbits) % 2)
  unfolding set_preemptive_level
  set_preemptive_level-vectored id level s fewer byte =
      let taken : ℕ = used regs num_intbits num_subinterrupts s in
      let w : ℕ = num_intbits - taken in
      let p : ℕ = 8 - num_intbits in
      let after : regs.State = interrupt_set_level regs num_intbits num_subinterrupts id level s in
      let final : regs.State =
        interrupt_set_priority regs num_intbits num_subinterrupts id level after in
      let (_, same) =
        set_level-insert regs num_intbits num_subinterrupts laws id level s (omega arith) in
      let at_place : p + 0 ≡ p = omega arith in
      let v : ℕ = extract w p level in
      let written : regs.read final (intctl id) ≡ insert 8 w p (regs.read after (intctl id)) v =
        rw (← same) (set_priority-insert id level after (rw (same) (omega arith)) byte) in
      is_vectored-bit id final (omega arith) byte
      ∙ ap some (
          ap (λ (t : ℕ). extract 1 t (regs.read final (intctl id))) (sym at_place)
          ∙ ap (extract 1 (p + 0)) written
          ∙ extract-insert_inner 8 w p (regs.read after (intctl id)) v 1 0 (extract-lt w p level)
              (omega arith) (omega arith)
          ∙ extract-lowest w p level (omega arith))
