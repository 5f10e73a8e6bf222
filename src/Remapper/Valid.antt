-- ===== src/Remapper/Valid.antt =====
-- The valid registers of src/drivers/sifive_remapper2.c, which only take a write after the key.
use freedom_metal.Prelude.{
  ℕ, zero, suc, Bool, ◌+◌, ◌^◌, ◌<◌, ◌≡◌, ◌≢◌, ◌∙◌, refl, ap, true, false, ◌==◌, ==_iff, ◌&&◌, ltb,
  leb, if◌then◌else◌, inl, inr, Bool-cases, arith,
}
use freedom_metal.Prelude.Machine.{Registers}
use mathlib.Core.Path.{subst}
use freedom_metal.Remapper.{
  Reg, key, flush_reg, version, entries, valid, from_reg, to_reg, enable_key, set_key_state,
  change_valids,
}

-- The registers that hold what is written after the key: those of the entries.
abbrev pub holds : Reg → Bool
holds key = false
holds flush_reg = false
holds version = false
holds entries = false
holds (valid i) = true
holds (from_reg i) = true
holds (to_reg i) = true

-- The registers that the driver writes, but for the one that disables every entry.
abbrev pub harmless : Reg → Bool
harmless key = true
harmless r = holds r

pub valid-injective : (i j : ℕ) → valid i ≡ valid j → i ≡ j
valid-injective i j e = ap number e
  where
    number : Reg → ℕ
    number (valid i) = i
    number _ = 0

module _ (regs : Registers Reg) where
  -- A write to a register of an entry holds where the key is the last that was written before it.
  -- Neither it nor the key changes another register of an entry. Nothing is said of a flush.
  pub record IsRemapper : Type 1 where
    pub Armed : regs.State → Type 0
    pub arms : (s : regs.State) → Armed (regs.write s key enable_key)
    pub back :
        (s : regs.State) (r : Reg) (v : ℕ)
        → Armed s
        → holds r ≡ true
        → v < 2 ^ 32
        → regs.read (regs.write s r v) r ≡ v
    pub other :
        (s : regs.State) (a b : Reg) (v : ℕ)
        → a ≢ b
        → harmless a ≡ true
        → holds b ≡ true
        → regs.read (regs.write s a v) b ≡ regs.read s b
    pub fits : (s : regs.State) (r : Reg) → regs.read s r < 2 ^ 32

  module _ (laws : IsRemapper) where
    -- A write after the key.
    pub keyed-read :
        (s : regs.State) (r : Reg) (v : ℕ)
        → holds r ≡ true
        → v < 2 ^ 32
        → regs.read (regs.write (set_key_state regs s) r v) r ≡ v
    keyed-read s r v other small = laws.back (set_key_state regs s) r v (laws.arms s) other small

    pub keyed-read_other :
        (s : regs.State) (a b : Reg) (v : ℕ)
        → a ≢ b
        → harmless a ≡ true
        → key ≢ b
        → holds b ≡ true
        → regs.read (regs.write (set_key_state regs s) a v) b ≡ regs.read s b
    keyed-read_other s a b v apart safe unlocked held =
        laws.other (set_key_state regs s) a b v apart safe held
        ∙ laws.other s key b enable_key unlocked refl held

    -- The loop changes each valid register that it reaches, and no other.
    pub change_valids-read :
        (change : ℕ → ℕ → ℕ) (n i j : ℕ) (s : regs.State)
        → ((r word : ℕ) → word < 2 ^ 32 → change r word < 2 ^ 32)
        → regs.read (change_valids regs change n i s) (valid j) ≡ (
            if leb i j && ltb j (i + n)
            then change j (regs.read s (valid j))
            else regs.read s (valid j))
    unfolding change_valids
    change_valids-read change zero i j s narrow =
        let outside : (leb i j && ltb j (i + 0)) ≡ false = ground arith in rw (outside) refl
    change_valids-read change (suc n) i j s narrow =
        let word : ℕ = change i (regs.read s (valid i)) in
        let s1 : regs.State = regs.write (set_key_state regs s) (valid i) word in
        let small : word < 2 ^ 32 = narrow i _ (laws.fits s (valid i)) in
        change_valids-read change n (i + 1) j s1 narrow ∙ elim (Bool-cases (i == j)) [
          | inl here ↦
              let at : i ≡ j = (==_iff i j).0 here in
              let done : (leb (i + 1) j && ltb j (i + 1 + n)) ≡ false = ground (arith, at) in
              let inside : (leb i j && ltb j (i + suc n)) ≡ true = ground (arith, at) in
              rw (done, inside)
                (subst (λ (x : ℕ). regs.read s1 (valid x) ≡ change x (regs.read s (valid x))) at
                  (keyed-read s (valid i) word refl small))
          | inr there ↦
              let same : regs.read s1 (valid j) ≡ regs.read s (valid j) =
                keyed-read_other s (valid i) (valid j) word
                  (λ e. absurd (ground (arith, there, valid-injective i j e))) refl (λ e. cc)
                  refl in
              let range : (leb (i + 1) j && ltb j (i + 1 + n)) ≡ (leb i j && ltb j (i + suc n)) =
                ground (arith, there) in
              rw (same, range) refl
        ]
