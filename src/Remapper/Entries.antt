-- ===== src/Remapper/Entries.antt =====
-- The addresses of the entries of src/drivers/sifive_remapper2.c.
use freedom_metal.Prelude.{
  ℕ, ◌%◌, ◌^◌, ◌≡◌, ◌≢◌, ◌∙◌, refl, sym, ap, false, Option, none, some, List, [], ◌∷◌, ◌==◌, ==_iff,
  if◌then◌else◌, inl, inr, Bool-cases, arith,
}
use freedom_metal.Prelude.Machine.{Registers}
use mathlib.Core.Path.{subst}
use freedom_metal.Remapper.{
  Reg, from_reg, to_reg, Entry, set_key_state, set_remap, set_remaps, get_from, get_to,
}
use freedom_metal.Remapper.Valid.{IsRemapper, keyed-read, keyed-read_other}

-- The last entry of a list for an index.
abbrev pub last_for : ℕ → List Entry → Option Entry
last_for j [] = none
last_for j (e ∷ es) = elim (last_for j es) [
  | some later ↦ some later
  | none ↦ if j == e.idx then some e else none
]

-- What is read for an entry, or else what was read before.
abbrev pub low_word : (Entry → ℕ) → Option Entry → ℕ → ℕ
low_word address none old = old
low_word address (some e) old = address e % 2 ^ 32

apart_regs : (i j : ℕ) → (j == i) ≡ false → (from_reg i ≢ from_reg j) × (to_reg i ≢ to_reg j)
apart_regs i j differ = (
  λ e. absurd (ground (arith, differ, ap number e)),
  λ e. absurd (ground (arith, differ, ap number e)),
)
  where
    number : Reg → ℕ
    number (from_reg i) = i
    number (to_reg i) = i
    number _ = 0

later-low_word :
    (address : Entry → ℕ) (j : ℕ) (e : Entry) (es : List Entry) (old : ℕ)
    → low_word address (last_for j es) (if j == e.idx then address e % 2 ^ 32 else old)
      ≡ low_word address (last_for j (e ∷ es)) old
later-low_word address j e es old = by_later (last_for j es)
  where
    by_later :
        (o : Option Entry)
        → low_word address o (if j == e.idx then address e % 2 ^ 32 else old)
          ≡ low_word address
              (elim o [ some later ↦ some later | none ↦ if j == e.idx then some e else none ])
              old
    by_later (some later) = refl
    by_later none = elim (Bool-cases (j == e.idx)) [
      | inl here ↦ rw (here) refl
      | inr there ↦ rw (there) refl
    ]

module _ (regs : Registers Reg) (laws : IsRemapper regs) where
  set_remap-reads :
      (e : Entry) (j : ℕ) (s : regs.State)
      → (get_from regs j (set_remap regs e s).1
          ≡ (if j == e.idx then e.from_addr % 2 ^ 32 else get_from regs j s))
        × (get_to regs j (set_remap regs e s).1
            ≡ (if j == e.idx then e.to_addr % 2 ^ 32 else get_to regs j s))
  unfolding set_remap get_from get_to
  set_remap-reads e j s =
      let f : ℕ = e.from_addr % 2 ^ 32 in
      let t : ℕ = e.to_addr % 2 ^ 32 in
      let s1 : regs.State = regs.write (set_key_state regs s) (from_reg e.idx) f in
      let s2 : regs.State = regs.write (set_key_state regs s1) (to_reg e.idx) t in
      let from_kept : (r : ℕ) → regs.read s2 (from_reg r) ≡ regs.read s1 (from_reg r) = λ r.
        keyed-read_other regs laws s1 (to_reg e.idx) (from_reg r) t (λ x. cc) refl (λ x. cc) refl in
      let to_kept : (r : ℕ) → regs.read s1 (to_reg r) ≡ regs.read s (to_reg r) = λ r.
        keyed-read_other regs laws s (from_reg e.idx) (to_reg r) f (λ x. cc) refl (λ x. cc) refl in
      elim (Bool-cases (j == e.idx)) [
        | inl here ↦
            let at : e.idx ≡ j = sym ((==_iff j e.idx).0 here) in
            rw (here) (
              subst (λ (x : ℕ). regs.read s2 (from_reg x) ≡ f) at
                  (from_kept e.idx ∙ keyed-read regs laws s (from_reg e.idx) f refl (omega arith)),
              subst (λ (x : ℕ). regs.read s2 (to_reg x) ≡ t) at
                  (keyed-read regs laws s1 (to_reg e.idx) t refl (omega arith)),
            )
        | inr there ↦
            let (apart_from, apart_to) = apart_regs e.idx j there in
            rw (there) (
              from_kept j
                  ∙ keyed-read_other regs laws s (from_reg e.idx) (from_reg j) f apart_from refl
                      (λ x. cc) refl,
              keyed-read_other regs laws s1 (to_reg e.idx) (to_reg j) t apart_to refl (λ x. cc) refl
                  ∙ to_kept j,
            )
      ]

  -- Where the registers of the entries take a write after the key, hold it, and change with no
  -- write to another of them or of the key: after a list of entries is set the addresses that
  -- are read at an index are the low 32 bits of those of the last entry of the list for that
  -- index, or as they were where it has none.
  pub set_remaps-latest :
      (es : List Entry) (j : ℕ) (s : regs.State)
      → ((set_remaps regs es s).0 ≡ 0)
        × (get_from regs j (set_remaps regs es s).1
            ≡ low_word (λ e. e.from_addr) (last_for j es) (get_from regs j s))
        × (get_to regs j (set_remaps regs es s).1
            ≡ low_word (λ e. e.to_addr) (last_for j es) (get_to regs j s))
  unfolding set_remaps
  set_remaps-latest [] j s = (refl, refl, refl)
  set_remaps-latest (e ∷ es) j s =
      let (returns, from, to) = set_remaps-latest es j (set_remap regs e s).1 in
      let (one_from, one_to) = set_remap-reads e j s in
      (
        returns,
        from
            ∙ ap (λ (x : ℕ). low_word (λ e. e.from_addr) (last_for j es) x) one_from
            ∙ later-low_word (λ e. e.from_addr) j e es (get_from regs j s),
        to
            ∙ ap (λ (x : ℕ). low_word (λ e. e.to_addr) (last_for j es) x) one_to
            ∙ later-low_word (λ e. e.to_addr) j e es (get_to regs j s),
      )
