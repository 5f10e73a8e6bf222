-- ===== src/Cpu/Bits.antt =====
-- Which bits of mie an interrupt's enabling in src/drivers/riscv_cpu.c changes.
use freedom_metal.Prelude.{
  ℕ, ◌+◌, ◌*◌, ◌%◌, ◌^◌, ◌≤◌, ◌<◌, ◌≡◌, ◌⊎◌, ◌∙◌, inl, inr, refl, ap, Bool, true, false, ◌||◌, some,
  arith, lt→ltb, ltb, ◌==◌, ==_iff, if◌then◌else◌, Bool-cases,
}
use freedom_metal.Prelude.Bits.{
  complement, bit, bit-lt, bit-or, bit-and, bit-complement, bit-two_pow,
}
use freedom_metal.Prelude.Machine.{int_to_size}
use freedom_metal.Prelude.Fields.{shifted-lt}
use freedom_metal.Cpu.Id.{is_local}
use freedom_metal.Cpu.{
  Platform, mie, ok, line_enable, line_disable, local_enable, local_disable, local_bit,
}
use freedom_metal.Cpu.Intc.{Intc, local_interrupt_enable, with_io}

-- The interrupts of mie: software, timer, external and local.
abbrev pub in_mie : ℕ → Bool
in_mie id = id == 3 || id == 7 || id == 11 || is_local id

module _ (platform : Platform) where
  open platform use {width, csrs}

  -- The bits of the interrupts that the hart has hold what is written.
  pub record HasMie (Has : ℕ → Type 0) : Type 0 where
    pub mie_back :
        (s : csrs.State) (k v : ℕ) → Has k → bit (csrs.read (csrs.write s mie v) mie) k ≡ bit v k

  module _ (Has : ℕ → Type 0) (laws : HasMie Has) where
    line-bit :
        (id b k : ℕ) (enable : Bool) (s : csrs.State)
        → b ≡ 2 ^ id
        → b < 2 ^ width
        → k < width
        → Has k
        → bit
            (csrs.read (if enable then line_enable platform b s else line_disable platform b s) mie)
            k
          ≡ (if k == id then (if enable then 1 else 0) else bit (csrs.read s mie) k)
    unfolding line_enable line_disable
    line-bit id b k true s e small low has =
        laws.mie_back s k _ has
        ∙ ground (
          arith,
          bit-or (csrs.read s mie) b k,
          ap (λ (x : ℕ). bit x k) e,
          bit-two_pow id k,
          bit-lt (csrs.read s mie) k,
        )
    line-bit id b k false s e small low has =
        laws.mie_back s k _ has
        ∙ ground (
          arith,
          bit-and (csrs.read s mie) (complement width b) k,
          bit-complement width b k small low,
          ap (λ (x : ℕ). bit x k) e,
          bit-two_pow id k,
          bit-lt (csrs.read s mie) k,
        )

    local_bit-value :
        (id : ℕ)
        → id < 32
        → (width ≡ 32) ⊎ ((width ≡ 64) × (id < 31))
        → local_bit platform id ≡ some (2 ^ id)
    unfolding local_bit
    local_bit-value id small word =
        let fits : 1 * 2 ^ id < 2 ^ 32 = shifted-lt 32 1 id 1 (omega arith) (omega arith) in
        let inside : ltb id 32 ≡ true = ground arith in
        let value : 1 * 2 ^ id % 2 ^ 32 ≡ 2 ^ id = omega (arith, fits) in
        elim word [
          | inl e ↦
              let extended : int_to_size 32 (2 ^ id) ≡ 2 ^ id = ground arith in
              rw (inside, value, e) (ap some extended)
          | inr (e, below) ↦
              let positive : ltb (2 ^ id) (2 ^ 31) ≡ true =
                let h : 1 * 2 ^ id < 2 ^ 31 = shifted-lt 31 1 id 1 (omega arith) (omega arith) in
                lt→ltb (2 ^ id) (2 ^ 31) (omega (arith, h)) in
              rw (inside, value, positive) refl
        ]

    width-fits : (id : ℕ) → id < 32 → (width ≡ 32) ⊎ ((width ≡ 64) × (id < 31)) → 2 ^ id < 2 ^ width
    width-fits id small word =
        let at_least : id + 1 ≤ width = elim word [
          | inl e ↦ omega (arith, e)
          | inr (e, below) ↦ omega (arith, e)
        ] in
        let h : 1 * 2 ^ id < 2 ^ width = shifted-lt width 1 id 1 (omega arith) at_least in
        omega (arith, h)

    abbrev lined : ℕ → Bool → Intc platform → Intc platform
    lined b enable intc =
        with_io platform intc
          (if enable then line_enable platform b intc.io else line_disable platform b intc.io)

    in_mie-small : (id : ℕ) → in_mie id ≡ true → id < 32
    unfolding is_local
    in_mie-small id among = ground (arith, among)

    local-apart :
        (id : ℕ)
        → is_local id ≡ true
        → ((id == 0) ≡ false) × ((id == 3) ≡ false) × ((id == 7) ≡ false) × ((id == 11) ≡ false)
    unfolding is_local
    local-apart id here =
        (ground (arith, here), ground (arith, here), ground (arith, here), ground (arith, here))

    enable-lined :
        (id : ℕ) (enable : Bool) (intc : Intc platform)
        → in_mie id ≡ true
        → (width ≡ 32) ⊎ ((width ≡ 64) × (id < 31))
        → local_interrupt_enable platform id enable intc ≡ some (ok, lined (2 ^ id) enable intc)
    unfolding local_interrupt_enable local_enable local_disable
    enable-lined id enable intc among word = elim (Bool-cases (is_local id)) [
      | inl here ↦
          let value = local_bit-value id (in_mie-small id among) word in
          let (a, b, c, d) = local-apart id here in
          elim (Bool-cases enable) [
            | inl on ↦ rw (a, b, c, d, here, on, value) refl
            | inr off ↦ rw (a, b, c, d, here, off, value) refl
          ]
      | inr elsewhere ↦ elim (Bool-cases (id == 3)) [
        | inl e ↦ let at : id ≡ 3 = (==_iff _ _).0 e in rw (at) refl
        | inr n3 ↦ elim (Bool-cases (id == 7)) [
          | inl e ↦ let at : id ≡ 7 = (==_iff _ _).0 e in rw (at) refl
          | inr n7 ↦ let at : id ≡ 11 = ground (arith, among, elsewhere, n3, n7) in rw (at) refl
        ]
      ]
    ]

    -- On a hart whose mie holds the bits of its interrupts, enabling or disabling the software,
    -- timer, external or a local interrupt returns 0, sets or clears its bit of mie and keeps
    -- every other, and changes nothing else of the controller; on 64 bits for interrupts below
    -- 31.
    pub local_interrupt_enable-bit :
        (id k : ℕ) (enable : Bool) (intc : Intc platform)
        → in_mie id ≡ true
        → (width ≡ 32) ⊎ ((width ≡ 64) × (id < 31))
        → k < width
        → Has k
        → (after : Intc platform) × (local_interrupt_enable platform id enable intc
            ≡ some (ok, after))
          × (bit (csrs.read after.io mie) k
              ≡ (if k == id then (if enable then 1 else 0) else bit (csrs.read intc.io mie) k))
          × (after ≡ with_io platform intc after.io)
    local_interrupt_enable-bit id k enable intc among word low has = (
      lined (2 ^ id) enable intc,
      enable-lined id enable intc among word,
      line-bit id (2 ^ id) k enable intc.io refl (width-fits id (in_mie-small id among) word) low
          has,
      refl,
    )
