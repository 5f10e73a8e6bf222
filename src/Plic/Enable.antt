-- ===== src/Plic/Enable.antt =====
-- Which sources a change of src/drivers/riscv_plic0.c to an enable bit leaves enabled.
use freedom_metal.Prelude.{
  ℕ, suc, ◌+◌, ◌*◌, ◌/◌, ◌%◌, ◌^◌, ◌≤◌, ◌<◌, ◌≡◌, ◌≢◌, ◌∙◌, inl, inr, Bool, false, ◌&&◌, arith,
  Bool-cases, ◌==◌, ==_iff, if◌then◌else◌, bit_and, bit_or, ap,
}
use freedom_metal.Prelude.Bits.{
  bit, bit-lt, bit-or, bit-and, bit-two_pow, bit-mod, bit-complement, complement,
}
use freedom_metal.Prelude.Fields.{bit_and-mask}
use freedom_metal.Plic.{Platform, Plic, source_mask, max_interrupts, enable_address, context_enable}
use native.Mathlib.Nat.{mul-le-mul_right, suc-mul}
use native.Mathlib.Decide.{dec_lt}

module _ (platform : Platform) where
  open platform use {regs, enable_per_hart}

  abbrev pub enabled : Plic platform → ℕ → ℕ → ℕ
  enabled p context id = bit (regs.read p.io (enable_address platform context id)) (id % 32)

  -- The enable bits of the sources that the hardware has hold what is written, a write changes no
  -- other register, and the words of a context do not reach the next one's.
  pub record HasEnables (Has : ℕ → ℕ → Type 0) : Type 0 where
    pub enable_back :
        (s : regs.State) (context id v : ℕ)
        → Has context id
        → bit
            (regs.read
              (regs.write s (enable_address platform context id) v)
              (enable_address platform context id))
            (id % 32)
          ≡ bit v (id % 32)
    pub write_other :
        (s : regs.State) (a b v : ℕ) → a ≢ b → regs.read (regs.write s a v) b ≡ regs.read s b
    pub spaced : max_interrupts / 8 ≤ enable_per_hart

  source_bit : (id : ℕ) → bit_and id source_mask ≡ id % 32
  source_bit id = bit_and-mask 5 0 id ∙ omega arith

  module _ (Has : ℕ → ℕ → Type 0) (laws : HasEnables Has) where
    next_context :
        (c c' : ℕ) → c < c' → c * enable_per_hart + enable_per_hart ≤ c' * enable_per_hart
    next_context c c' lt =
        omega (
          arith,
          mul-le-mul_right {m = suc c} {n = c'} enable_per_hart lt,
          suc-mul c enable_per_hart,
        )

    enable_address-inj :
        (c id c' id' : ℕ)
        → id < max_interrupts
        → id' < max_interrupts
        → enable_address platform c id ≡ enable_address platform c' id'
        → (c ≡ c') × (id / 32 ≡ id' / 32)
    unfolding enable_address
    enable_address-inj c id c' id' h h' e =
        let same : c ≡ c' = elim (dec_lt c c') [
          | yes lt ↦ absurd (omega (arith, laws.spaced, next_context c c' lt, e))
          | no not_lt ↦ elim (dec_lt c' c) [
            | yes lt ↦ absurd (omega (arith, laws.spaced, next_context c' c lt, e))
            | no not_gt ↦ omega arith
          ]
        ] in
        (same, omega (arith, e, ap (λ (x : ℕ). x * enable_per_hart) same))

    -- Where the enable bits of the sources hold what is written and the contexts are at least
    -- 128 bytes apart, __metal_plic0_enable on a source below 1024 sets its enable bit in the
    -- context to the value asked for, and leaves the enable bit of every other source and
    -- context as it was.
    pub context_enable-enabled :
        (c id c' id' : ℕ) (on : Bool) (p : Plic platform)
        → id < max_interrupts
        → id' < max_interrupts
        → Has c' id'
        → enabled ((context_enable platform c id on p).1) c' id'
          ≡ (if (c == c') && (id == id') then (if on then 1 else 0) else enabled p c' id')
    unfolding context_enable
    context_enable-enabled c id c' id' on p h h' has =
        let a : ℕ = enable_address platform c id in
        let current : ℕ = regs.read p.io a in
        let source : ℕ = 2 ^ bit_and id source_mask % 2 ^ 32 in
        let written : ℕ =
          if on then bit_or current source else bit_and current (complement 32 source) in
        let k : ℕ = id' % 32 in
        let source_k : bit source k ≡ (if k == id % 32 then 1 else 0) = ground (
          arith,
          source_bit id,
          bit-mod 32 (2 ^ bit_and id source_mask) k,
          bit-two_pow (bit_and id source_mask) k,
        ) in
        let written_k : bit written k
            ≡ (if k == id % 32 then (if on then 1 else 0) else bit current k) =
          ground (
            arith,
            source_k,
            bit-lt current k,
            bit-or current source k,
            bit-and current (complement 32 source) k,
            bit-complement 32 source k (omega arith) (omega arith),
          ) in
        let a' : ℕ = enable_address platform c' id' in
        elim (Bool-cases (a == a')) [
          | inl equal ↦
              let same : a ≡ a' = (==_iff _ _).0 equal in
              let (contexts, words) = enable_address-inj c id c' id' h h' same in
              let before : bit current k ≡ enabled p c' id' =
                ap (λ (x : ℕ). bit (regs.read p.io x) k) same in
              let after : bit (regs.read (regs.write p.io a written) a') k ≡ bit written k =
                ap (λ (x : ℕ). bit (regs.read (regs.write p.io x written) a') k) same
                ∙ laws.enable_back p.io c' id' written has in
              after ∙ written_k ∙ ground (arith, before, contexts, words)
          | inr unequal ↦
              let differ : a ≢ a' = λ e. absurd (ground (arith, e, unequal)) in
              let apart : ((c == c') && (id == id')) ≡ false = ground (
                arith,
                λ (e : c ≡ c') (e' : id ≡ id'). differ (
                    ap (λ (x : ℕ). enable_address platform x id) e
                    ∙ ap (λ (x : ℕ). enable_address platform c' x) e'),
              ) in
              rw (apart) (ap (λ (x : ℕ). bit x k) (laws.write_other p.io a a' written differ))
        ]
