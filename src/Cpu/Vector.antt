-- ===== src/Cpu/Vector.antt =====
-- The mode of mtvec in src/drivers/riscv_cpu.c, set and read.
use freedom_metal.Prelude.{
  ℕ, ◌+◌, ◌-◌, ◌%◌, ◌^◌, ◌≤◌, ◌<◌, ◌≡◌, ◌∙◌, refl, ap, arith, bit_and, bit_or,
}
use freedom_metal.Prelude.Bits.{
  bit_and-zero, zero-bit_and, bit_or-lt, bit_and-lt, zero-bit_or, complement,
}
use freedom_metal.Prelude.Fields.{bit_or-mod, bit_and-mod, two_pow_add, pow_pos, bit_and-mask}
use freedom_metal.Interrupt.{
  VectorMode, direct, vector, selective_nonvector, selective_vector, hardware_vector,
}
use freedom_metal.Cpu.{Platform, mtvec, mtvt, mtvec_mask, vector_mode, controller_vector}

-- The mode that is read after a mode is set.
abbrev pub seen_as : VectorMode → VectorMode
seen_as direct = direct
seen_as vector = vector
seen_as selective_nonvector = selective_vector
seen_as selective_vector = selective_vector
seen_as hardware_vector = hardware_vector

module _ (platform : Platform) where
  open platform use {width, csrs}

  -- mtvec keeps what is written to it where the base is aligned to 64 bytes.
  pub record HasMtvec : Type 0 where
    pub mtvec_back :
        (s : csrs.State) (v : ℕ)
        → v < 2 ^ width
        → v % 64 < 4
        → csrs.read (csrs.write s mtvec v) mtvec ≡ v
    pub mtvec_fits : (s : csrs.State) → csrs.read s mtvec < 2 ^ width
    pub wide : 6 ≤ width

  module _ (laws : HasMtvec) where
    -- What is read of a value whose low bits are those of a mode.
    mode_of :
        (s t : csrs.State) (v m : ℕ)
        → v < 2 ^ width
        → v % 64 ≡ m
        → m < 4
        → t ≡ csrs.write s mtvec v
        → bit_and (csrs.read t mtvec) mtvec_mask ≡ m
    mode_of s t v m small low known e =
        let back : csrs.read t mtvec ≡ v =
          ap (λ (x : csrs.State). csrs.read x mtvec) e ∙ laws.mtvec_back s v small (omega arith) in
        bit_and-mask 6 0 (csrs.read t mtvec) ∙ omega (arith, back)

    four_small : 4 < 2 ^ width
    four_small =
        let e : width ≡ 6 + (width - 6) = omega (arith, laws.wide) in
        rw e (omega (arith, two_pow_add 6 (width - 6), pow_pos (width - 6)))

    mask_low : complement width mtvec_mask % 64 ≡ 0
    mask_low =
        let e : width ≡ 6 + (width - 6) = omega (arith, laws.wide) in
        rw e (omega (arith, two_pow_add 6 (width - 6), pow_pos (width - 6)))

    -- The base of mtvec, with a mode put in.
    moded :
        (s : csrs.State) (m : ℕ)
        → m < 4
        → (bit_or (bit_and (csrs.read s mtvec) (complement width mtvec_mask)) m < 2 ^ width)
          × (bit_or (bit_and (csrs.read s mtvec) (complement width mtvec_mask)) m % 64 ≡ m)
    moded s m small =
        let x : ℕ = csrs.read s mtvec in
        let base : ℕ = bit_and x (complement width mtvec_mask) in
        let base_low : base % 64 ≡ 0 =
          bit_and-mod 6 x (complement width mtvec_mask)
          ∙ ap (λ (y : ℕ). bit_and (x % 64) y) mask_low
          ∙ bit_and-zero (x % 64) in
        let m_low : m % 64 ≡ m = omega arith in
        (
          bit_or-lt width base m
              (bit_and-lt width x (complement width mtvec_mask) (laws.mtvec_fits s))
              (omega (arith, four_small)),
          bit_or-mod 6 base m
              ∙ ap (λ (y : ℕ). bit_or y (m % 64)) base_low
              ∙ ap (bit_or 0) m_low
              ∙ zero-bit_or m,
        )

    -- Where mtvec keeps values with a base aligned to 64 bytes,
    -- __metal_controller_interrupt_vector with a table aligned to 64 bytes sets the mode that
    -- __metal_controller_interrupt_vector_mode then reads, but for the selective non-vectored
    -- mode, which reads as the selective vectored one.
    pub controller_vector-mode :
        (mode : VectorMode) (vec_table : ℕ) (s : csrs.State)
        → vec_table < 2 ^ width
        → vec_table % 64 ≡ 0
        → vector_mode platform (controller_vector platform mode vec_table s) ≡ seen_as mode
    unfolding vector_mode controller_vector
    controller_vector-mode direct vec_table s small aligned =
        let low : bit_and vec_table (complement width 3) % 64 ≡ 0 =
          bit_and-mod 6 vec_table (complement width 3)
          ∙ ap (λ (y : ℕ). bit_and y (complement width 3 % 64)) aligned
          ∙ zero-bit_and _ in
        let m =
          mode_of s _ _ 0 (bit_and-lt width vec_table (complement width 3) small) low (omega arith)
            refl in
        rw (m) refl
    controller_vector-mode vector vec_table s small aligned =
        let low : bit_or vec_table 1 % 64 ≡ 1 =
          bit_or-mod 6 vec_table 1 ∙ ap (λ (y : ℕ). bit_or y 1) aligned in
        let m =
          mode_of s _ _ 1 (bit_or-lt width vec_table 1 small (omega (arith, four_small))) low
            (omega arith) refl in
        rw (m) refl
    controller_vector-mode selective_nonvector vec_table s small aligned =
        let t = csrs.write s mtvt vec_table in
        let (fits, low) = moded s 2 (omega arith) in
        let m = mode_of t _ _ 2 fits low (omega arith) refl in rw (m) refl
    controller_vector-mode selective_vector vec_table s small aligned =
        let t = csrs.write s mtvt vec_table in
        let (fits, low) = moded s 2 (omega arith) in
        let m = mode_of t _ _ 2 fits low (omega arith) refl in rw (m) refl
    controller_vector-mode hardware_vector vec_table s small aligned =
        let t = csrs.write s mtvt vec_table in
        let (fits, low) = moded s 3 (omega arith) in
        let m = mode_of t _ _ 3 fits low (omega arith) refl in rw (m) refl
