-- ===== src/Spi/Quiet.antt =====
-- What src/drivers/sifive_spi0.c hands to the controller to send, and what sends nothing.
use freedom_metal.Prelude.{
  ℕ, ◌-◌, ◌*◌, ◌%◌, ◌^◌, ◌<◌, ◌≡◌, ◌≢◌, ◌∙◌, refl, Bool, true, false, List, [], ◌∷◌, ◌++◌, ◌==◌,
  Bool-cases, inl, inr, if◌then◌else◌, bit_and, bit_or, arith, ap, sym,
}
use freedom_metal.Prelude.Bits.{bit_or-zero, bit_and-lt}
use freedom_metal.Prelude.Fields.{extract-insert_self}
use freedom_metal.Prelude.Machine.{set_bits, clear_bits}
use freedom_metal.Spi.{
  Hardware, Reg, sckmode, csid, csdef, csmode, fmt, txdata, fctrl, Config, Protocol, single, dual,
  quad, unknown, MultiWire, is_stage, choose_bit, set_frame_len, configure_lines, configure_spi,
  spi_mode_switch, release, put_bits, is_known, endian_lsb, disable_rx, frame_len_mask, proto_mask,
  proto_bits,
}

module _ (hardware : Hardware) where
  open hardware use {regs, tick, after_receive}

  -- The bytes that the transmit queue has been given are known, and csmode holds what is written.
  pub record IsSpi : Type 0 where
    pub told : regs.State → List ℕ
    pub sent : (s : regs.State) (v : ℕ) → told (regs.write s txdata v) ≡ told s ++ (v % 256 ∷ [])
    pub quiet : (s : regs.State) (r : Reg) (v : ℕ) → r ≢ txdata → told (regs.write s r v) ≡ told s
    pub ticked : (s : regs.State) → told (tick s) ≡ told s
    pub received : (s : regs.State) → told (after_receive s) ≡ told s
    pub back : (s : regs.State) (v : ℕ) → v < 2 ^ 32 → regs.read (regs.write s csmode v) csmode ≡ v
    pub fits : (s : regs.State) (r : Reg) → regs.read s r < 2 ^ 32

  module _ (laws : IsSpi) where
    open laws use {told}

    pub choose_bit-told :
        (on : Bool) (s : regs.State) (r : Reg) (b : ℕ)
        → r ≢ txdata
        → told (choose_bit hardware on s r b) ≡ told s
    unfolding choose_bit
    choose_bit-told true s r b other = laws.quiet s r _ other
    choose_bit-told false s r b other = laws.quiet s r _ other

    pub put_bits-told :
        (s : regs.State) (r : Reg) (mask bits : ℕ)
        → r ≢ txdata
        → told (put_bits hardware s r mask bits) ≡ told s
    put_bits-told s r mask bits other =
        laws.quiet (clear_bits regs 32 s r mask) r _ other ∙ laws.quiet s r _ other

    set_frame_len-told : (s : regs.State) → told (set_frame_len hardware s) ≡ told s
    unfolding set_frame_len
    set_frame_len-told s =
        elim (Bool-cases (bit_and (regs.read s fmt) frame_len_mask == 8 * 2 ^ 16)) [
          | inl same ↦ rw (same) refl
          | inr differs ↦ rw (differs) (put_bits-told s fmt frame_len_mask (8 * 2 ^ 16) (λ e. cc))
        ]

    configure_lines-told :
        (c : Config) (s : regs.State) → told (configure_lines hardware c s) ≡ told s
    unfolding configure_lines
    configure_lines-told c s =
        let s1 : regs.State = choose_bit hardware c.polarity s sckmode 2 in
        let s2 : regs.State = choose_bit hardware c.phase s1 sckmode 1 in
        let s3 : regs.State = choose_bit hardware c.little_endian s2 fmt endian_lsb in
        let s4 : regs.State = clear_bits regs 32 s3 fmt disable_rx in
        let s5 : regs.State = regs.write s4 csdef (if c.cs_active_high then 0 else 1) in
        let s6 : regs.State = set_frame_len hardware s5 in
        laws.quiet (regs.write s6 csid c.chip_select) fctrl 0 (λ e. cc)
        ∙ laws.quiet s6 csid c.chip_select (λ e. cc)
        ∙ set_frame_len-told s5
        ∙ laws.quiet s4 csdef _ (λ e. cc)
        ∙ laws.quiet s3 fmt _ (λ e. cc)
        ∙ choose_bit-told c.little_endian s2 fmt endian_lsb (λ e. cc)
        ∙ choose_bit-told c.phase s1 sckmode 1 (λ e. cc)
        ∙ choose_bit-told c.polarity s sckmode 2 (λ e. cc)

    -- A protocol of the enumeration is accepted, and configuring sends nothing.
    pub configure_spi-told :
        (c : Config) (s : regs.State)
        → is_known c.protocol ≡ true
        → ((configure_spi hardware c s).0 ≡ true) × (told ((configure_spi hardware c s).1) ≡ told s)
    unfolding configure_spi
    configure_spi-told c s known =
        let cleared : regs.State = clear_bits regs 32 s fmt proto_mask in
        rw (known) (
          refl,
          configure_lines-told c (set_bits regs cleared fmt (proto_bits c))
              ∙ put_bits-told s fmt proto_mask (proto_bits c) (λ e. cc),
        )

    pub spi_mode_switch-told :
        (c : Config) (stage : MultiWire) (s : regs.State)
        → told (spi_mode_switch hardware c stage s) ≡ told s
    unfolding spi_mode_switch
    spi_mode_switch-told c stage s = elim (Bool-cases (is_stage c.multi_wire stage)) [
      | inr other ↦ rw (other) refl
      | inl at ↦ rw (at) (by_protocol c.protocol)
    ]
      where
        by_protocol :
            (p : Protocol)
            → told (elim p [
              | single ↦ clear_bits regs 32 s fmt proto_mask
              | dual ↦ set_bits regs (clear_bits regs 32 s fmt proto_mask) fmt 1
              | quad ↦ set_bits regs (clear_bits regs 32 s fmt proto_mask) fmt 2
              | unknown ↦ clear_bits regs 32 s fmt proto_mask
            ])
              ≡ told s
        by_protocol single = laws.quiet s fmt _ (λ e. cc)
        by_protocol dual = put_bits-told s fmt proto_mask 1 (λ e. cc)
        by_protocol quad = put_bits-told s fmt proto_mask 2 (λ e. cc)
        by_protocol unknown = laws.quiet s fmt _ (λ e. cc)

    -- The mode of the chip select is automatic.
    abbrev pub IsReleased : regs.State → Type 0
    IsReleased s = regs.read s csmode % 4 ≡ 0

    pub release-IsReleased :
        (s : regs.State) → IsReleased (release hardware s) × (told (release hardware s) ≡ told s)
    release-IsReleased s =
        let low : bit_and (regs.read s csmode) (2 ^ 32 - 1 - 3) < 2 ^ 32 =
          bit_and-lt 32 _ _ (laws.fits s csmode) in
        let field : bit_or (bit_and (regs.read s csmode) (2 ^ 32 - 1 - 3)) 0 % 4 ≡ 0 =
          omega (
            arith,
            extract-insert_self 32 2 0 (regs.read s csmode) 0 (omega arith) (omega arith),
          ) in
        (
          ap (λ (x : ℕ). x % 4) (laws.back s _ low)
              ∙ ap (λ (x : ℕ). x % 4) (sym (bit_or-zero _))
              ∙ field,
          laws.quiet s csmode _ (λ e. cc),
        )
