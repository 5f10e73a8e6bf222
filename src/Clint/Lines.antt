-- ===== src/Clint/Lines.antt =====
-- Which controller src/drivers/riscv_clint0.c hands an interrupt to.
use freedom_metal.Prelude.{
  ℕ, zero, suc, ◌+◌, ◌≤◌, ◌<◌, ◌≡◌, ◌≢◌, ◌∙◌, Option, some, none, arith, refl, ap, ◌==◌, ==_iff,
  if◌then◌else◌, Bool-cases, inl, inr, true, false, Bool, ◌&&◌, sym, Option-cases,
}
use freedom_metal.Clint.{
  Platform, same_intc, find_intc, register, enable, disable, minus_one, supported,
}
use native.Mathlib.Decide.{dec_lt}

module _ (platform : Platform) where
  open platform use {
    num_interrupts, interrupt_parents, interrupt_lines, cpu_intc, Parents, parent_enable,
    parent_disable, parent_register, vector_mode, Handler,
  }

  -- Interrupt `i` goes to the controller of this hart, on line `id`.
  abbrev pub IsOwn : ℕ → ℕ → ℕ → Type 0
  IsOwn intc id i =
      (cpu_intc ≡ some intc) × (interrupt_parents i ≡ some intc) × (interrupt_lines i ≡ id)

  same_intc-equal : (a b : Option ℕ) → same_intc platform a b ≡ true → a ≡ b
  unfolding same_intc
  same_intc-equal none none e = refl
  same_intc-equal (some a) (some b) e = ap some ((==_iff a b).0 e)
  same_intc-equal none (some b) e = absurd cc
  same_intc-equal (some a) none e = absurd cc

  same_intc-some : (a : ℕ) → same_intc platform (some a) (some a) ≡ true
  unfolding same_intc
  same_intc-some a = (==_iff a a).1 refl

  -- The test of the loops.
  abbrev hit : ℕ → ℕ → Bool
  hit id i = same_intc platform cpu_intc (interrupt_parents i) && id == interrupt_lines i

  hit-own : (intc id i : ℕ) → IsOwn intc id i → hit id i ≡ true
  hit-own intc id i own = rw (own.0, own.1) (ground (arith, same_intc-some intc, own.2))

  hit-parent : (id i : ℕ) → hit id i ≡ true → interrupt_parents i ≡ cpu_intc
  hit-parent id i h = sym (same_intc-equal cpu_intc (interrupt_parents i) (ground (arith, h)))

  hit-line : (id i : ℕ) → hit id i ≡ true → interrupt_lines i ≡ id
  hit-line id i h = ground (arith, h)

  find_intc-own :
      (intc id left start i : ℕ)
      → start ≤ i
      → i < start + left
      → IsOwn intc id i
      → find_intc platform left start id ≡ some intc
  unfolding find_intc
  find_intc-own intc id zero start i from to own = absurd (omega arith)
  find_intc-own intc id (suc left) start i from to own = elim (Bool-cases (hit id start)) [
    | inl found ↦ rw (found) (hit-parent id start found ∙ own.0)
    | inr passed ↦
        let later : start < i = elim (dec_lt start i) [
          | yes lt ↦ lt
          | no not_lt ↦
              let same : start ≡ i = omega arith in
              absurd (ground (arith, passed, hit-own intc id i own, ap (hit id) same))
        ] in
        rw (passed) (find_intc-own intc id left (start + 1) i (omega arith) (omega arith) own)
  ]

  find_intc-missing :
      (id left start : ℕ)
      → ((intc i : ℕ) → i < start + left → ¬ IsOwn intc id i)
      → find_intc platform left start id ≡ none
  unfolding find_intc
  find_intc-missing id zero start missing = refl
  find_intc-missing id (suc left) start missing =
      let rest = find_intc-missing id left (start + 1) (λ intc i h. missing intc i (omega arith)) in
      elim (Bool-cases (hit id start)) [
        | inl found ↦ elim (Option-cases cpu_intc) [
          | inl null ↦ rw (found) (hit-parent id start found ∙ null)
          | inr (intc, is) ↦ absurd (
              missing intc start (omega arith)
                (is, hit-parent id start found ∙ is, hit-line id start found))
        ]
        | inr passed ↦ rw (passed) rest
      ]

  -- For a line other than 0 on which an interrupt of the CLINT goes to the controller of the
  -- current hart, enable and disable do on that controller and line what it does itself and
  -- return its result, and so does register in direct or vectored mode; in the other modes
  -- register returns -1.
  pub enable-own :
      (intc id i priv : ℕ) (isr : Option Handler) (ps : Parents)
      → id ≢ 0
      → i < num_interrupts
      → IsOwn intc id i
      → (enable platform id ps ≡ parent_enable intc id ps)
        × (disable platform id ps ≡ parent_disable intc id ps)
        × (register platform id isr priv ps ≡ (
            if supported vector_mode then parent_register intc id isr priv ps else (minus_one, ps)))
  unfolding enable disable register
  enable-own intc id i priv isr ps nonzero inside own =
      let found : find_intc platform num_interrupts 0 id ≡ some intc =
        find_intc-own intc id num_interrupts 0 i (omega arith) (omega arith) own in
      let test : (id == 0) ≡ false = ground (arith, nonzero) in
      (rw (test, found) refl, rw (test, found) refl, rw (found, register) refl)

  -- For a line on which no interrupt of the CLINT goes to the controller of the current hart,
  -- enable, disable and register return -1 and call no controller.
  pub enable-missing :
      (id priv : ℕ) (isr : Option Handler) (ps : Parents)
      → ((intc i : ℕ) → i < num_interrupts → ¬ IsOwn intc id i)
      → (enable platform id ps ≡ (minus_one, ps))
        × (disable platform id ps ≡ (minus_one, ps))
        × (register platform id isr priv ps ≡ (minus_one, ps))
  unfolding enable disable register
  enable-missing id priv isr ps missing =
      let lost : find_intc platform num_interrupts 0 id ≡ none =
        find_intc-missing id num_interrupts 0 (λ intc i h. missing intc i (omega arith)) in
      (ground (arith, lost), ground (arith, lost), ground (arith, lost))
