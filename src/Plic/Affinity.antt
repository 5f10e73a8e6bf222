-- ===== src/Plic/Affinity.antt =====
-- The calls of src/drivers/riscv_plic0.c on the contexts of a mask: for_each_metal_affinity tests
-- what is left of the mask, not the bit of the context.
use freedom_metal.Prelude.{
  ℕ, zero, suc, ◌+◌, ◌-◌, ◌*◌, ◌/◌, ◌%◌, ◌^◌, ◌≤◌, ◌<◌, ◌≡◌, ◌≢◌, ◌∙◌, inl, inr, Bool, true, false,
  ◌&&◌, arith, Bool-cases, leb, ◌==◌, ==_iff, if◌then◌else◌, bit_or, refl,
}
use freedom_metal.Prelude.Bits.{bit_or-zero}
use freedom_metal.Prelude.Fields.{pow_pos}
use freedom_metal.Plic.{
  Platform, Plic, max_interrupts, threshold_address, context_enable, context_set_threshold,
  context_get_threshold,
}
use freedom_metal.Plic.Api.{
  for_each, affinity_bits, on_context, affinity_enable, affinity_disable, affinity_set_threshold,
  affinity_get_threshold,
}
use freedom_metal.Plic.Enable.{enabled, HasEnables, context_enable-enabled}
use native.Mathlib.Nat.{pow-suc, eq_of_mul-eq-mul_right}

module _ {S : Type 0} (body : ℕ → S → S) (seen : S → ℕ) where
  -- A call on context `c` alone sets what is seen of it: the loop does so if it gets to `c`.
  for_each-reaches :
      (c v : ℕ)
      → ((b : ℕ) (s : S) → seen (body b s) ≡ (if b == c then v else seen s))
      → (fuel start mask : ℕ) (s : S) → mask < 2 ^ fuel
      → seen (for_each body fuel start mask s)
        ≡ (if leb start c && leb (2 ^ (c - start)) mask then v else seen s)
  unfolding for_each
  for_each-reaches c v sets zero start mask s small = ground (arith, pow_pos (c - start))
  for_each-reaches c v sets (suc fuel) start mask s small =
      let halved : mask / 2 < 2 ^ fuel = omega (arith, pow-suc 2 fuel) in
      let rest = for_each-reaches c v sets fuel (start + 1) (mask / 2) (body start s) halved in
      ground (arith, pow_pos (c - start), pow-suc 2 (c - (start + 1)), rest, sets start s)

  for_each-kept :
      ((b : ℕ) (s : S) → seen (body b s) ≡ seen s)
      → (fuel start mask : ℕ) (s : S) → seen (for_each body fuel start mask s) ≡ seen s
  unfolding for_each
  for_each-kept keeps zero start mask s = refl
  for_each-kept keeps (suc fuel) start mask s =
      ground (arith, for_each-kept keeps fuel (start + 1) (mask / 2) (body start s), keeps start s)

module _ (platform : Platform) where
  open platform use {regs, num_interrupts, context_per_hart}

  -- A call that returns 0 adds no bit to the result.
  on_context-zero :
      (f : ℕ → Plic platform → ℕ × Plic platform)
      → ((b : ℕ) (p : Plic platform) → (f b p).0 ≡ 0)
      → (b : ℕ) (s : ℕ × Plic platform) → (on_context platform f b s).0 ≡ s.0
  unfolding on_context
  on_context-zero f returns b s =
      let unchanged : bit_or s.0 ((f b s.1).0 % 2 * 2 ^ b % 2 ^ affinity_bits) ≡ s.0 =
        let no_bit : (f b s.1).0 % 2 * 2 ^ b % 2 ^ affinity_bits ≡ 0 =
          rw (returns b s.1) (omega arith) in
        rw (no_bit) (bit_or-zero s.0) in
      ground (arith, unchanged)

  on_context-seen :
      (f : ℕ → Plic platform → ℕ × Plic platform) (seen : Plic platform → ℕ) (c v : ℕ)
      → c ≢ 0
      → ((b : ℕ) (p : Plic platform) → seen (f b p).1 ≡ (if b == c then v else seen p))
      → (b : ℕ) (s : ℕ × Plic platform)
      → seen (on_context platform f b s).1 ≡ (if b == c then v else seen s.1)
  unfolding on_context
  on_context-seen f seen c v nonzero sets b s = ground (arith, sets b s.1, nonzero)

  on_context-kept :
      (f : ℕ → Plic platform → ℕ × Plic platform) (seen : Plic platform → ℕ)
      → ((b : ℕ) (p : Plic platform) → b ≢ 0 → seen (f b p).1 ≡ seen p)
      → (b : ℕ) (s : ℕ × Plic platform) → seen (on_context platform f b s).1 ≡ seen s.1
  unfolding on_context
  on_context-kept f seen keeps b s = ground (arith, keeps b s.1)

  module _ (Has : ℕ → ℕ → Type 0) (laws : HasEnables platform Has) where
    on_contexts-zero :
        (on : Bool) (mask id : ℕ) (p : Plic platform)
        → (for_each
            (on_context platform (λ context. context_enable platform context id on))
            affinity_bits
            0
            mask
            (0, p)).0
          ≡ 0
    unfolding context_enable
    on_contexts-zero on mask id p =
        for_each-kept _ (λ (r : ℕ × Plic platform). r.0) (on_context-zero _ (λ b q. refl))
          affinity_bits 0 mask (0, p)

    on_contexts-enabled :
        (on : Bool) (mask id c' id' : ℕ) (p : Plic platform)
        → id < max_interrupts
        → id' < max_interrupts
        → Has c' id'
        → mask < 2 ^ affinity_bits
        → let body : ℕ → ℕ × Plic platform → ℕ × Plic platform =
            on_context platform (λ context. context_enable platform context id on) in
          (enabled platform (for_each body affinity_bits 0 mask (0, p)).1 c' id' ≡ (
            if id == id' && (leb 1 c' && leb (2 ^ c') mask)
            then (if on then 1 else 0)
            else enabled platform p c' id'))
    on_contexts-enabled on mask id c' id' p h h' has small =
        let f : ℕ → Plic platform → ℕ × Plic platform =
          λ context. context_enable platform context id on in
        let seen : Plic platform → ℕ = λ q. enabled platform q c' id' in
        let sets : (b : ℕ) (q : Plic platform)
            → seen (f b q).1
              ≡ (if (b == c') && (id == id') then (if on then 1 else 0) else seen q) =
          λ b q. context_enable-enabled platform Has laws b id c' id' on q h h' has in
        elim (Bool-cases ((id == id') && leb 1 c')) [
          | inl reached ↦
              let same : (id == id') ≡ true = ground (arith, reached) in
              let loop =
                for_each-reaches (on_context platform f) (λ (r : ℕ × Plic platform). seen r.1) c'
                  (if on then 1 else 0)
                  (on_context-seen f seen c' (if on then 1 else 0)
                    (λ (e : c' ≡ 0). absurd (ground (arith, reached, e)))
                    (λ b q. sets b q ∙ ground (arith, same)))
                  affinity_bits 0 mask (0, p) small in
              loop ∙ ground (arith, reached)
          | inr unreached ↦
              let loop =
                for_each-kept (on_context platform f) (λ (r : ℕ × Plic platform). seen r.1)
                  (on_context-kept f seen
                    (λ b q nonzero. sets b q ∙ ground (arith, unreached, nonzero)))
                  affinity_bits 0 mask (0, p) in
              loop ∙ ground (arith, unreached)
        ]

    -- Under the same conditions, affinity_enable on a source that the controller has returns 0
    -- and enables it for the contexts c from 1 with 2 ^ c at most the mask, whether or not their
    -- bit is set in the mask; every other enable bit stays.
    pub affinity_enable-enabled :
        (mask id c' id' : ℕ) (p : Plic platform)
        → num_interrupts ≤ max_interrupts
        → id < num_interrupts
        → id' < num_interrupts
        → Has c' id'
        → mask < 2 ^ affinity_bits
        → ((affinity_enable platform mask id p).0 ≡ 0)
          × (enabled platform (affinity_enable platform mask id p).1 c' id' ≡ (
              if id == id' && (leb 1 c' && leb (2 ^ c') mask)
              then 1
              else enabled platform p c' id'))
    unfolding affinity_enable
    affinity_enable-enabled mask id c' id' p some_of h h' has small =
        let accepted : leb num_interrupts id ≡ false = ground arith in
        rw (accepted, affinity_enable)
          (
            on_contexts-zero true mask id p,
            on_contexts-enabled true mask id c' id' p (omega arith) (omega arith) has small,
          )

    -- Under the same conditions, affinity_disable on a source that the controller has returns 0
    -- and disables it for the contexts c from 1 with 2 ^ c at most the mask, whether or not
    -- their bit is set in the mask; every other enable bit stays.
    pub affinity_disable-enabled :
        (mask id c' id' : ℕ) (p : Plic platform)
        → num_interrupts ≤ max_interrupts
        → id < num_interrupts
        → id' < num_interrupts
        → Has c' id'
        → mask < 2 ^ affinity_bits
        → ((affinity_disable platform mask id p).0 ≡ 0)
          × (enabled platform (affinity_disable platform mask id p).1 c' id' ≡ (
              if id == id' && (leb 1 c' && leb (2 ^ c') mask)
              then 0
              else enabled platform p c' id'))
    unfolding affinity_disable
    affinity_disable-enabled mask id c' id' p some_of h h' has small =
        let accepted : leb num_interrupts id ≡ false = ground arith in
        rw (accepted, affinity_disable)
          (
            on_contexts-zero false mask id p,
            on_contexts-enabled false mask id c' id' p (omega arith) (omega arith) has small,
          )

  -- The threshold of a context holds what is written, and the contexts are apart.
  pub record HasThresholds : Type 0 where
    pub threshold_back :
        (s : regs.State) (context v : ℕ)
        → regs.read
            (regs.write s (threshold_address platform context) v)
            (threshold_address platform context)
          ≡ v
    pub write_other :
        (s : regs.State) (a b v : ℕ) → a ≢ b → regs.read (regs.write s a v) b ≡ regs.read s b
    pub spaced : 0 < context_per_hart

  module _ (laws : HasThresholds) where
    threshold_address-inj :
        (b c : ℕ) → threshold_address platform b ≡ threshold_address platform c → b ≡ c
    unfolding threshold_address
    threshold_address-inj b c e =
        eq_of_mul-eq-mul_right context_per_hart laws.spaced b c (omega (arith, e))

    context_set_threshold-read :
        (b c v : ℕ) (p : Plic platform)
        → context_get_threshold platform c (context_set_threshold platform b v p).1
          ≡ (if b == c then v else context_get_threshold platform c p)
    unfolding context_get_threshold context_set_threshold
    context_set_threshold-read b c v p = elim (Bool-cases (b == c)) [
      | inl same ↦
          let e : b ≡ c = (==_iff _ _).0 same in rw (same) (rw e (laws.threshold_back p.io c v))
      | inr differ ↦ rw (differ) (
          laws.write_other p.io _ _ v
            (λ e. absurd (ground (arith, differ, threshold_address-inj b c e))))
    ]

    -- Where the thresholds hold what is written and are apart, affinity_set_threshold sets the
    -- threshold of the contexts c from 1 with 2 ^ c at most the mask, and of no other, as
    -- __metal_plic0_get_threshold reads them; affinity_get_threshold returns 0 for each of them.
    pub affinity_set_threshold-read :
        (mask c v : ℕ) (p : Plic platform)
        → mask < 2 ^ affinity_bits
        → let after : Plic platform = (affinity_set_threshold platform mask v p).1 in
          (context_get_threshold platform c after
            ≡ (if leb 1 c && leb (2 ^ c) mask then v else context_get_threshold platform c p))
          × (affinity_get_threshold platform c after ≡ 0)
    unfolding affinity_set_threshold affinity_get_threshold
    affinity_set_threshold-read mask c v p small =
        let f : ℕ → Plic platform → ℕ × Plic platform =
          λ context. context_set_threshold platform context v in
        let seen : Plic platform → ℕ = context_get_threshold platform c in
        (
          elim (Bool-cases (leb 1 c)) [
            | inl reached ↦
                for_each-reaches (on_context platform f) (λ (r : ℕ × Plic platform). seen r.1) c v
                  (on_context-seen f seen c v (λ (e : c ≡ 0). absurd (ground (arith, reached, e)))
                    (λ b q. context_set_threshold-read b c v q))
                  affinity_bits 0 mask (0, p) small
                ∙ ground (arith, reached)
            | inr unreached ↦
                for_each-kept (on_context platform f) (λ (r : ℕ × Plic platform). seen r.1)
                  (on_context-kept f seen (λ b q nonzero.
                    context_set_threshold-read b c v q ∙ ground (arith, unreached, nonzero)))
                  affinity_bits 0 mask (0, p)
                ∙ ground (arith, unreached)
          ],
          refl,
        )
