-- ===== src/Hpm/Access.antt =====
-- metal_hpm_enable_access and metal_hpm_disable_access of src/hpm.c: the trap that guards
-- mcounteren.
use freedom_metal.Prelude.{
  ℕ, ◌≤◌, ◌<◌, ◌^◌, ◌%◌, ◌≡◌, Bool, false, arith, inl, inr, if◌then◌else◌, ◌&&◌, Bool-cases, ◌==◌,
  refl, bit_or, bit_and, ◌∙◌, ap,
}
use freedom_metal.Prelude.Bits.{
  bit, bit-lt, bit-or, bit-and, bit-two_pow, bit-complement, complement, bit-mod,
}
use freedom_metal.Hpm.{
  Chip, mcounteren, mtvec, Hart, enable_access, disable_access, guarded, rejects, write_csr,
}

-- mtvec and mcounteren hold what is written to them, and are apart.
pub record HasTrap (chip : Chip) : Type 0 where
  pub mtvec_back :
      (s : chip.csrs.State) (v : ℕ) → chip.csrs.read (chip.csrs.write s mtvec v) mtvec ≡ v
  pub mcounteren_back :
      (s : chip.csrs.State) (v : ℕ) → chip.csrs.read (chip.csrs.write s mcounteren v) mcounteren ≡ v
  pub mcounteren_kept :
      (s : chip.csrs.State) (v : ℕ)
      → chip.csrs.read (chip.csrs.write s mtvec v) mcounteren ≡ chip.csrs.read s mcounteren

module _ (chip : Chip) (laws : HasTrap chip) where
  open chip use {csrs, has_mcounteren}

  -- mtvec is put back, and mcounteren is as `access` leaves it.
  guarded-mtvec :
      (access : Hart chip → Hart chip) (h : Hart chip)
      → csrs.read (guarded chip access h).io mtvec ≡ csrs.read h.io mtvec
  guarded-mtvec access h = unfold guarded write_csr in laws.mtvec_back _ _

  guarded_write-mcounteren :
      (f : ℕ → ℕ) (h : Hart chip)
      → csrs.read
          (guarded chip
            (λ (s : Hart chip). write_csr chip mcounteren (f (csrs.read s.io mcounteren)) s)
            h).io
          mcounteren
        ≡ (if has_mcounteren then f (csrs.read h.io mcounteren) else csrs.read h.io mcounteren)
  unfolding guarded write_csr
  guarded_write-mcounteren f h =
      let trapping : csrs.State = csrs.write h.io mtvec chip.trap_exit in
      let kept : csrs.read trapping mcounteren ≡ csrs.read h.io mcounteren =
        laws.mcounteren_kept h.io chip.trap_exit in
      elim (Bool-cases has_mcounteren) [
        | inl has ↦
            rw (has) (laws.mcounteren_kept _ _ ∙ laws.mcounteren_back trapping _ ∙ ap f kept)
        | inr has_not ↦ rw (has_not) (laws.mcounteren_kept _ _ ∙ kept)
      ]

  guarded_write-hpm_count :
      (f : ℕ → ℕ) (h : Hart chip)
      → (guarded chip
          (λ (s : Hart chip). write_csr chip mcounteren (f (csrs.read s.io mcounteren)) s)
          h).hpm_count
        ≡ h.hpm_count
  unfolding guarded write_csr
  guarded_write-hpm_count f h = elim (Bool-cases has_mcounteren) [
    | inl has ↦ rw (has) refl
    | inr has_not ↦ rw (has_not) refl
  ]

  -- On RV32, metal_hpm_enable_access on a counter that is not refused sets the bit of the
  -- counter in mcounteren and keeps every other bit, changes nothing of it on a hart without
  -- mcounteren, and leaves mtvec and hpm_count as they were.
  pub enable_access-bits :
      (gcpu : Bool) (counter k : ℕ) (h : Hart chip)
      → rejects chip gcpu counter h ≡ false
      → counter ≤ 31
      → k < 32
      → let after : Hart chip = (enable_access chip gcpu counter h).1 in
        (bit (csrs.read after.io mcounteren) k
          ≡ (if has_mcounteren && (k == counter) then 1 else bit (csrs.read h.io mcounteren) k))
        × (csrs.read after.io mtvec ≡ csrs.read h.io mtvec)
        × (after.hpm_count ≡ h.hpm_count)
  unfolding enable_access
  enable_access-bits gcpu counter k h allowed known low =
      let source : ℕ = 2 ^ counter % 2 ^ 32 in
      let old : ℕ = csrs.read h.io mcounteren in
      let bits : bit (bit_or old source) k ≡ (if k == counter then 1 else bit old k) = ground (
        arith,
        bit-or old source k,
        bit-mod 32 (2 ^ counter) k,
        bit-two_pow counter k,
        bit-lt old k,
      ) in
      let written : csrs.read (enable_access chip gcpu counter h).1.io mcounteren
          ≡ (if has_mcounteren then bit_or old source else old) =
        rw (allowed, enable_access) (guarded_write-mcounteren (λ (x : ℕ). bit_or x source) h) in
      (
        ap (λ (x : ℕ). bit x k) written ∙ elim (Bool-cases has_mcounteren) [
          | inl has ↦ rw (has) bits
          | inr has_not ↦ rw (has_not) refl
        ],
        rw (allowed, enable_access) (guarded-mtvec _ h),
        rw (allowed, enable_access) (guarded_write-hpm_count (λ (x : ℕ). bit_or x source) h),
      )

  -- On RV32, metal_hpm_disable_access on a counter that is not refused clears the bit of the
  -- counter in mcounteren and keeps every other bit, changes nothing of it on a hart without
  -- mcounteren, and leaves mtvec and hpm_count as they were.
  pub disable_access-bits :
      (gcpu : Bool) (counter k : ℕ) (h : Hart chip)
      → rejects chip gcpu counter h ≡ false
      → counter ≤ 31
      → k < 32
      → let after : Hart chip = (disable_access chip gcpu counter h).1 in
        (bit (csrs.read after.io mcounteren) k
          ≡ (if has_mcounteren && (k == counter) then 0 else bit (csrs.read h.io mcounteren) k))
        × (csrs.read after.io mtvec ≡ csrs.read h.io mtvec)
        × (after.hpm_count ≡ h.hpm_count)
  unfolding disable_access
  disable_access-bits gcpu counter k h allowed known low =
      let source : ℕ = 2 ^ counter % 2 ^ 32 in
      let old : ℕ = csrs.read h.io mcounteren in
      let bits : bit (bit_and old (complement 32 source)) k
          ≡ (if k == counter then 0 else bit old k) =
        ground (
          arith,
          bit-and old (complement 32 source) k,
          bit-complement 32 source k (omega arith) low,
          bit-mod 32 (2 ^ counter) k,
          bit-two_pow counter k,
          bit-lt old k,
        ) in
      let written : csrs.read (disable_access chip gcpu counter h).1.io mcounteren
          ≡ (if has_mcounteren then bit_and old (complement 32 source) else old) =
        rw (allowed, disable_access)
          (guarded_write-mcounteren (λ (x : ℕ). bit_and x (complement 32 source)) h) in
      (
        ap (λ (x : ℕ). bit x k) written ∙ elim (Bool-cases has_mcounteren) [
          | inl has ↦ rw (has) bits
          | inr has_not ↦ rw (has_not) refl
        ],
        rw (allowed, disable_access) (guarded-mtvec _ h),
        rw (allowed, disable_access)
            (guarded_write-hpm_count (λ (x : ℕ). bit_and x (complement 32 source)) h),
      )
