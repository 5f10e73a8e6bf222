-- ===== src/Clic/Config.antt =====
-- The configuration register of src/drivers/sifive_clic0.c.
use freedom_metal.Prelude.{
  ℕ, ◌*◌, ◌/◌, ◌%◌, ◌^◌, ◌<◌, ◌≡◌, inl, inr, ◌∙◌, refl, sym, ap, arith, none, some, bit_and, bit_or,
}
use freedom_metal.Prelude.Bits.{bit_or-lt}
use freedom_metal.Prelude.Fields.{extract, bit_and-mask}
use freedom_metal.Prelude.Low.{extract-or_other, extract-or_self, field_of_mask}
use freedom_metal.Prelude.Machine.{Registers}
use freedom_metal.Clic.{Reg, cliccfg, Cfg, fields, configuration, interrupt_get_priority}
use freedom_metal.Clic.Level.{IsBytes, cfg_of}

-- The byte of a configuration.
abbrev packed : ℕ → ℕ → ℕ → ℕ
packed m l v = bit_or (bit_or (m * 2 ^ 5) (l * 2 ^ 1)) v

packed-lt : (m l v : ℕ) → m < 2 ^ 2 → l < 2 ^ 4 → v < 2 ^ 1 → packed m l v < 2 ^ 8
packed-lt m l v hm hl hv =
    bit_or-lt 8 (bit_or (m * 2 ^ 5) (l * 2 ^ 1)) v
      (bit_or-lt 8 (m * 2 ^ 5) (l * 2 ^ 1) (omega arith) (omega arith)) (omega arith)

unit : (v : ℕ) → v * 2 ^ 0 ≡ v
unit v = omega arith

packed-nmbits : (m l v : ℕ) → m < 2 ^ 2 → l < 2 ^ 4 → v < 2 ^ 1 → extract 2 5 (packed m l v) ≡ m
packed-nmbits m l v hm hl hv =
    let outer : extract 2 5 (bit_or (bit_or (m * 2 ^ 5) (l * 2 ^ 1)) (v * 2 ^ 0))
        ≡ extract 2 5 (bit_or (m * 2 ^ 5) (l * 2 ^ 1)) =
      extract-or_other (bit_or (m * 2 ^ 5) (l * 2 ^ 1)) 1 0 v 2 5 hv (inr (omega arith)) in
    ap (λ (t : ℕ). extract 2 5 (bit_or (bit_or (m * 2 ^ 5) (l * 2 ^ 1)) t)) (sym (unit v))
    ∙ outer
    ∙ extract-or_other (m * 2 ^ 5) 4 1 l 2 5 hl (inr (omega arith))
    ∙ omega arith

packed-nlbits : (m l v : ℕ) → m < 2 ^ 2 → l < 2 ^ 4 → v < 2 ^ 1 → extract 4 1 (packed m l v) ≡ l
packed-nlbits m l v hm hl hv =
    ap (λ (t : ℕ). extract 4 1 (bit_or (bit_or (m * 2 ^ 5) (l * 2 ^ 1)) t)) (sym (unit v))
    ∙ extract-or_other (bit_or (m * 2 ^ 5) (l * 2 ^ 1)) 1 0 v 4 1 hv (inr (omega arith))
    ∙ extract-or_self (m * 2 ^ 5) 4 1 l hl (omega arith)

packed-nvbit : (m l v : ℕ) → m < 2 ^ 2 → l < 2 ^ 4 → v < 2 ^ 1 → extract 1 0 (packed m l v) ≡ v
packed-nvbit m l v hm hl hv =
    ap (λ (t : ℕ). extract 1 0 (bit_or (bit_or (m * 2 ^ 5) (l * 2 ^ 1)) t)) (sym (unit v))
    ∙ extract-or_self (bit_or (m * 2 ^ 5) (l * 2 ^ 1)) 1 0 v hv
        (extract-or_other (m * 2 ^ 5) 4 1 l 1 0 hl (inl (omega arith)) ∙ omega arith)

module _ (regs : Registers Reg) (num_intbits num_subinterrupts : ℕ) (laws : IsBytes regs) where
  -- On registers that hold bytes, a configuration within the widths of its fields, once it is written, is the one that the write
  -- returns and that is read afterwards.
  pub configuration-written :
      (cfg : Cfg) (s : regs.State)
      → cfg.nmbits < 4
      → cfg.nlbits < 16
      → cfg.nvbit < 2
      → let (result, after) = configuration regs num_intbits num_subinterrupts (some cfg) s in
        (result ≡ cfg) × (cfg_of regs num_intbits num_subinterrupts after ≡ cfg)
  unfolding configuration fields
  configuration-written cfg s hm hl hv =
      let val : ℕ = packed cfg.nmbits cfg.nlbits cfg.nvbit in
      let small = packed-lt cfg.nmbits cfg.nlbits cfg.nvbit hm hl hv in
      let byte : val % 2 ^ 8 ≡ val = omega (arith, small) in
      let written = laws.back s cliccfg (val % 2 ^ 8) (omega arith) ∙ byte in
      let m : bit_and val 0x60 / 2 ^ 5 ≡ cfg.nmbits =
        field_of_mask 2 5 val ∙ packed-nmbits cfg.nmbits cfg.nlbits cfg.nvbit hm hl hv in
      let l : bit_and val 0x1E / 2 ^ 1 ≡ cfg.nlbits =
        field_of_mask 4 1 val ∙ packed-nlbits cfg.nmbits cfg.nlbits cfg.nvbit hm hl hv in
      let v : bit_and val 0x01 ≡ cfg.nvbit =
        bit_and-mask 1 0 val
        ∙ unit (extract 1 0 val)
        ∙ packed-nvbit cfg.nmbits cfg.nlbits cfg.nvbit hm hl hv in
      let same : fields regs num_intbits num_subinterrupts val ≡ cfg =
        λ i. record { nmbits = m i; nlbits = l i; nvbit = v i } in
      let read = ap (fields regs num_intbits num_subinterrupts) written ∙ same in (read, read)

module _ (regs : Registers Reg) (num_intbits num_subinterrupts : ℕ) where
  -- On a controller of 8 bits that cliccfg gives to the level alone, reading the priority of an
  -- interrupt is undefined: it divides by 0.
  pub get_priority-undefined :
      (id : ℕ) (s : regs.State)
      → num_intbits ≡ 8
      → (cfg_of regs num_intbits num_subinterrupts s).nmbits ≡ 0
      → (cfg_of regs num_intbits num_subinterrupts s).nlbits ≡ 8
      → interrupt_get_priority regs num_intbits num_subinterrupts id s ≡ none
  unfolding interrupt_get_priority configuration fields
  get_priority-undefined id s eight no_mode all_level = rw (eight, no_mode, all_level) refl
