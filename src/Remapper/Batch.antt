-- ===== src/Remapper/Batch.antt =====
-- The entries of src/drivers/sifive_remapper2.c that are enabled and disabled at once.
use freedom_metal.Prelude.{
  ℕ, ◌+◌, ◌*◌, ◌/◌, ◌%◌, ◌^◌, ◌<◌, ◌≡◌, ◌∙◌, refl, sym, ap, Bool, true, false, some, List, [], ◌∷◌,
  ◌==◌, ==_iff, ◌&&◌, ◌||◌, ltb, leb, if◌then◌else◌, inl, inr, Bool-cases, arith, bit_or, bit_and,
}
use freedom_metal.Prelude.Bits.{
  bit, bit-lt, bit-or, bit-and, bit-of_zero, bit-two_pow, bit-complement, complement, bit_or-lt,
  bit_and-lt,
}
use freedom_metal.Prelude.Machine.{Registers}
use mathlib.Core.Path.{subst}
use freedom_metal.Prelude.Fields.{shifted-lt}
use freedom_metal.Remapper.{
  Reg, key, valid, set_key_state, collect, enable_remap, disable_remap, enable_remaps,
  disable_remaps, change_valids, valid_regs_num,
}
use freedom_metal.Remapper.Valid.{
  valid-injective, IsRemapper, keyed-read, keyed-read_other, change_valids-read,
}

abbrev pub has : ℕ → List ℕ → Bool
has n [] = false
has n (x ∷ xs) = (n == x) || has n xs

-- The entries that the seven valid registers have.
abbrev pub all_valid : List ℕ → Bool
all_valid [] = true
all_valid (x ∷ xs) = ltb x 224 && all_valid xs

one_bit : (x : ℕ) → 2 ^ (x % 32) < 2 ^ 32
one_bit x =
    let e : 1 * 2 ^ (x % 32) ≡ 2 ^ (x % 32) = omega arith in
    omega (arith, e, shifted-lt 32 1 (x % 32) 1 (omega arith) (omega arith))

-- The bit of an entry after another's is set.
bit_set :
    (words : ℕ → ℕ) (x n : ℕ)
    → bit
        (if n / 32 == x / 32 then bit_or (words (n / 32)) (2 ^ (x % 32)) else words (n / 32))
        (n % 32)
      ≡ (if n == x then 1 else bit (words (n / 32)) (n % 32))
bit_set words x n = elim (Bool-cases (n / 32 == x / 32)) [
  | inl same ↦ rw (same) (
      ground (
        arith,
        bit-or (words (n / 32)) (2 ^ (x % 32)) (n % 32),
        bit-two_pow (x % 32) (n % 32),
        bit-lt (words (n / 32)) (n % 32),
      ))
  | inr differs ↦ let apart : (n == x) ≡ false = ground (arith, differs) in rw (differs, apart) refl
]

-- The bit of an entry after another's is cleared.
bit_cleared :
    (words : ℕ → ℕ) (x n : ℕ)
    → bit
        (if n / 32 == x / 32
          then bit_and (words (n / 32)) (complement 32 (2 ^ (x % 32)))
          else words (n / 32))
        (n % 32)
      ≡ (if n == x then 0 else bit (words (n / 32)) (n % 32))
bit_cleared words x n = elim (Bool-cases (n / 32 == x / 32)) [
  | inl same ↦ rw (same) (
      ground (
        arith,
        bit-and (words (n / 32)) (complement 32 (2 ^ (x % 32))) (n % 32),
        bit-complement 32 (2 ^ (x % 32)) (n % 32) (one_bit x) (omega arith),
        bit-two_pow (x % 32) (n % 32),
        bit-lt (words (n / 32)) (n % 32),
      ))
  | inr differs ↦ let apart : (n == x) ≡ false = ground (arith, differs) in rw (differs, apart) refl
]

collect-bits :
    (idxs : List ℕ) (words : ℕ → ℕ)
    → all_valid idxs ≡ true
    → ((r : ℕ) → words r < 2 ^ 32)
    → (e : ℕ → ℕ) × (collect idxs words ≡ some e)
      × ((r : ℕ) → e r < 2 ^ 32)
      × ((n : ℕ)
          → bit (e (n / 32)) (n % 32) ≡ (if has n idxs then 1 else bit (words (n / 32)) (n % 32)))
unfolding collect
collect-bits [] words ok narrow = (words, refl, narrow, λ n. refl)
collect-bits (x ∷ xs) words ok narrow =
    let words' : ℕ → ℕ = λ r. if r == x / 32 then bit_or (words r) (2 ^ (x % 32)) else words r in
    let low : ltb (x / 32) valid_regs_num ≡ true = ground (arith, ok) in
    let narrow' : (r : ℕ) → words' r < 2 ^ 32 =
      λ r. ground (arith, narrow r, bit_or-lt 32 (words r) (2 ^ (x % 32)) (narrow r) (one_bit x)) in
    let (e, ends, fits, bits) = collect-bits xs words' (ground (arith, ok)) narrow' in
    (e, rw (low) ends, fits, λ n. bits n ∙ ground (arith, bit_set words x n))

module _ (regs : Registers Reg) where
  -- The bit of an entry in the valid registers.
  abbrev pub is_enabled : regs.State → ℕ → ℕ
  is_enabled s n = bit (regs.read s (valid (n / 32))) (n % 32)

  unfoldable pub enable_each : List ℕ → regs.State → regs.State
  enable_each [] s = s
  enable_each (x ∷ xs) s = enable_each xs (enable_remap regs x s).1

  unfoldable pub disable_each : List ℕ → regs.State → regs.State
  disable_each [] s = s
  disable_each (x ∷ xs) s = disable_each xs (disable_remap regs x s).1

  module _ (laws : IsRemapper regs) where
    -- One valid register is changed.
    change_one :
        (change : ℕ → ℕ) (r j : ℕ) (s : regs.State)
        → ((word : ℕ) → word < 2 ^ 32 → change word < 2 ^ 32)
        → regs.read
            (regs.write
              (set_key_state regs s)
              (valid r)
              (change (regs.read (set_key_state regs s) (valid r))))
            (valid j)
          ≡ (if j == r then change (regs.read s (valid j)) else regs.read s (valid j))
    change_one change r j s narrow =
        let s0 : regs.State = set_key_state regs s in
        let word : ℕ = change (regs.read s0 (valid r)) in
        let kept : regs.read s0 (valid j) ≡ regs.read s (valid j) =
          laws.other s key (valid j) _ (λ e. cc) refl refl in
        elim (Bool-cases (j == r)) [
          | inl here ↦
              let at : r ≡ j = sym ((==_iff j r).0 here) in
              rw (here) (
                subst
                  (λ (x : ℕ).
                    regs.read (regs.write s0 (valid r) word) (valid x)
                    ≡ change (regs.read s (valid x)))
                  at
                  (keyed-read regs laws s (valid r) word refl (narrow _ (laws.fits s0 (valid r)))
                    ∙ ap change (laws.other s key (valid r) _ (λ e. cc) refl refl)))
          | inr there ↦ rw (there) (
              keyed-read_other regs laws s (valid r) (valid j) word
                (λ e. absurd (ground (arith, there, valid-injective r j e))) refl (λ e. cc) refl)
        ]

    enable_remap-enabled :
        (x n : ℕ) (s : regs.State)
        → is_enabled (enable_remap regs x s).1 n ≡ (if n == x then 1 else is_enabled s n)
    unfolding enable_remap
    enable_remap-enabled x n s =
        ap (λ (word : ℕ). bit word (n % 32))
          (change_one (λ word. bit_or word (2 ^ (x % 32))) (x / 32) (n / 32) s
            (λ word small. bit_or-lt 32 word (2 ^ (x % 32)) small (one_bit x)))
        ∙ bit_set (λ r. regs.read s (valid r)) x n

    disable_remap-enabled :
        (x n : ℕ) (s : regs.State)
        → is_enabled (disable_remap regs x s).1 n ≡ (if n == x then 0 else is_enabled s n)
    unfolding disable_remap
    disable_remap-enabled x n s =
        ap (λ (word : ℕ). bit word (n % 32))
          (change_one (λ word. bit_and word (complement 32 (2 ^ (x % 32)))) (x / 32) (n / 32) s
            (λ word small. bit_and-lt 32 word _ small))
        ∙ bit_cleared (λ r. regs.read s (valid r)) x n

    enable_each-enabled :
        (idxs : List ℕ) (n : ℕ) (s : regs.State)
        → is_enabled (enable_each idxs s) n ≡ (if has n idxs then 1 else is_enabled s n)
    unfolding enable_each
    enable_each-enabled [] n s = refl
    enable_each-enabled (x ∷ xs) n s =
        enable_each-enabled xs n (enable_remap regs x s).1
        ∙ ground (arith, enable_remap-enabled x n s)

    disable_each-enabled :
        (idxs : List ℕ) (n : ℕ) (s : regs.State)
        → is_enabled (disable_each idxs s) n ≡ (if has n idxs then 0 else is_enabled s n)
    unfolding disable_each
    disable_each-enabled [] n s = refl
    disable_each-enabled (x ∷ xs) n s =
        disable_each-enabled xs n (disable_remap regs x s).1
        ∙ ground (arith, disable_remap-enabled x n s)

    -- Where the registers of the entries, the valid registers with them, take a write after the
    -- key, hold it, and change with no write to another of them or of the key: enabling a list
    -- of entries of the seven valid registers at once ends, returns 0, and leaves each entry as
    -- enabling them one after the other does: an entry of the list is enabled, and another is as
    -- it was.
    pub enable_remaps-each :
        (idxs : List ℕ) (n : ℕ) (s : regs.State)
        → all_valid idxs ≡ true
        → n < 224
        → (after : regs.State) × (enable_remaps regs idxs s ≡ some (0, after))
          × (is_enabled after n ≡ is_enabled (enable_each idxs s) n)
          × (is_enabled after n ≡ (if has n idxs then 1 else is_enabled s n))
    unfolding enable_remaps
    enable_remaps-each idxs n s ok inside =
        let (enables, ends, fits, bits) = collect-bits idxs (λ r. 0) ok (λ r. omega arith) in
        let change : ℕ → ℕ → ℕ = λ i word. bit_or word (enables i) in
        let after : regs.State = change_valids regs change valid_regs_num 0 s in
        let reached : (leb 0 (n / 32) && ltb (n / 32) (0 + 7)) ≡ true = ground arith in
        let word : regs.read after (valid (n / 32))
            ≡ bit_or (regs.read s (valid (n / 32))) (enables (n / 32)) =
          change_valids-read regs laws change 7 0 (n / 32) s
            (λ r word small. bit_or-lt 32 word (enables r) small (fits r))
          ∙ rw (reached) refl in
        let entry : is_enabled after n ≡ (if has n idxs then 1 else is_enabled s n) =
          ap (λ (w : ℕ). bit w (n % 32)) word
          ∙ ground (
            arith,
            bit-or (regs.read s (valid (n / 32))) (enables (n / 32)) (n % 32),
            bits n,
            bit-of_zero (n % 32),
            bit-lt (regs.read s (valid (n / 32))) (n % 32),
          ) in
        (after, rw (ends) refl, entry ∙ sym (enable_each-enabled idxs n s), entry)

    -- Disabling a list of entries of the seven valid registers at once ends, returns 0, and leaves
    -- each entry as disabling them one after the other does: an entry of the list is disabled, and
    -- another is as it was.
    pub disable_remaps-each :
        (idxs : List ℕ) (n : ℕ) (s : regs.State)
        → all_valid idxs ≡ true
        → n < 224
        → (after : regs.State) × (disable_remaps regs idxs s ≡ some (0, after))
          × (is_enabled after n ≡ is_enabled (disable_each idxs s) n)
          × (is_enabled after n ≡ (if has n idxs then 0 else is_enabled s n))
    unfolding disable_remaps
    disable_remaps-each idxs n s ok inside =
        let (disables, ends, fits, bits) = collect-bits idxs (λ r. 0) ok (λ r. omega arith) in
        let change : ℕ → ℕ → ℕ = λ i word. bit_and word (complement 32 (disables i)) in
        let after : regs.State = change_valids regs change valid_regs_num 0 s in
        let reached : (leb 0 (n / 32) && ltb (n / 32) (0 + 7)) ≡ true = ground arith in
        let word : regs.read after (valid (n / 32))
            ≡ bit_and (regs.read s (valid (n / 32))) (complement 32 (disables (n / 32))) =
          change_valids-read regs laws change 7 0 (n / 32) s
            (λ r word small. bit_and-lt 32 word _ small)
          ∙ rw (reached) refl in
        let entry : is_enabled after n ≡ (if has n idxs then 0 else is_enabled s n) =
          ap (λ (w : ℕ). bit w (n % 32)) word
          ∙ ground (
            arith,
            bit-and (regs.read s (valid (n / 32))) (complement 32 (disables (n / 32))) (n % 32),
            bit-complement 32 (disables (n / 32)) (n % 32) (fits (n / 32)) (omega arith),
            bits n,
            bit-of_zero (n % 32),
            bit-lt (regs.read s (valid (n / 32))) (n % 32),
          ) in
        (after, rw (ends) refl, entry ∙ sym (disable_each-enabled idxs n s), entry)
