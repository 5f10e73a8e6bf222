-- ===== src/Cpu/Dispatch.antt =====
-- From interrupt_register to the trap handler of src/drivers/riscv_cpu.c, in direct mode.
use freedom_metal.Prelude.{
  ℕ, ◌+◌, ◌-◌, ◌^◌, ◌<◌, ◌≡◌, ◌≢◌, ◌⊎◌, ◌∙◌, inl, inr, refl, ap, true, false, ◌||◌, Option, none,
  some, arith, ltb, ◌==◌, if◌then◌else◌, bit_and, Bool-cases, ==_iff,
}
use freedom_metal.Prelude.Fields.{bit_and-mask}
use freedom_metal.Cpu.Id.{id_beu, valid_interrupt_id, is_local}
use freedom_metal.Cpu.{
  Platform, mcause, mtvec, mtvec_mask, mcause_cause, Rc, ok, minus, vector_mode,
}
use freedom_metal.Cpu.Intc.{
  Intc, calls, calls_exception, interrupt_register, register_isr, register_default, set_default,
  exception_handler, is_interrupt, call_interrupt, call_entry, call_exception, exception_register,
  max_me, is_direct,
}

-- The trap cause of interrupt `id`, in words of `w` bits.
abbrev pub interrupt_cause : ℕ → ℕ → ℕ
interrupt_cause w id = 2 ^ (w - 1) + id

module _ (platform : Platform) (word : (platform.width ≡ 32) ⊎ (platform.width ≡ 64)) where
  open platform use {width, csrs, has_cpu, Handler, ExceptionHandler}

  cause_id : (id : ℕ) → id < 1024 → bit_and (interrupt_cause width id) mcause_cause ≡ id
  cause_id id small =
      bit_and-mask 10 0 (interrupt_cause width id)
      ∙ elim word [ inl e ↦ rw (e) (omega arith) | inr e ↦ rw (e) (omega arith) ]

  cause_bit : (id : ℕ) → id < 1024 → is_interrupt platform (interrupt_cause width id) ≡ true
  unfolding is_interrupt
  cause_bit id small = elim word [
    | inl e ↦
        let high : bit_and (2 ^ 31 + id) (2 ^ 31) ≡ 2 ^ 31 =
          bit_and-mask 1 31 (2 ^ 31 + id) ∙ omega arith in
        rw (e) (ground (arith, high))
    | inr e ↦
        let high : bit_and (2 ^ 63 + id) (2 ^ 63) ≡ 2 ^ 63 =
          bit_and-mask 1 63 (2 ^ 63 + id) ∙ omega arith in
        rw (e) (ground (arith, high))
  ]

  -- mtvec has no mode bits: direct mode.
  abbrev pub IsDirect : csrs.State → Type 0
  IsDirect s = bit_and (csrs.read s mtvec) mtvec_mask ≡ 0

  direct_mode : (s : csrs.State) → IsDirect s → is_direct (vector_mode platform s) ≡ true
  unfolding vector_mode
  direct_mode s d = rw (d) refl

  valid-cases : (id : ℕ) → valid_interrupt_id id ≡ true → (id ≡ id_beu) ⊎ (id < 32)
  unfolding valid_interrupt_id is_local
  valid-cases id v = ground (arith, v)

  takes-table :
      (id : ℕ) (f : Handler) (intc : Intc platform)
      → id < 32
      → has_cpu ≡ true
      → IsDirect intc.io
      → csrs.read intc.io mcause ≡ interrupt_cause width id
      → (intc.metal_int_table id).handler ≡ some f
      → exception_handler platform intc ≡ some (calls f id (intc.metal_int_table id).exint_data)
  unfolding exception_handler call_interrupt call_entry is_interrupt
  takes-table id f intc small cpu d cause has =
      let i = cause_id id (omega arith) in
      let b = cause_bit id (omega arith) in
      let not_beu : (id == 128) ≡ false = ground arith in
      let inside : ltb id 32 ≡ true = ground arith in
      let either : (ltb id 12 || true) ≡ true = ground arith in
      rw (cpu, cause, b, i, not_beu, d, either, inside, has) refl

  takes-beu :
      (f : Handler) (intc : Intc platform)
      → has_cpu ≡ true
      → csrs.read intc.io mcause ≡ interrupt_cause width 128
      → intc.metal_int_beu.handler ≡ some f
      → exception_handler platform intc ≡ some (calls f 128 intc.metal_int_beu.exint_data)
  unfolding exception_handler call_entry is_interrupt
  takes-beu f intc cpu cause has =
      let i = cause_id 128 (omega arith) in
      let b = cause_bit 128 (omega arith) in rw (cpu, cause, b, i, has) refl

  -- On a hart of 32 or 64 bits in direct mode, registering a handler for a valid interrupt, the
  -- bus error unit included, returns 0, and when that interrupt is the cause of a trap the trap
  -- handler then calls that handler with the interrupt and its data.
  pub register-calls :
      (id priv : ℕ) (isr : Handler) (intc : Intc platform)
      → valid_interrupt_id id ≡ true
      → has_cpu ≡ true
      → IsDirect intc.io
      → csrs.read intc.io mcause ≡ interrupt_cause width id
      → ((interrupt_register platform id (some isr) priv intc).0 ≡ ok)
        × (exception_handler platform (interrupt_register platform id (some isr) priv intc).1
            ≡ some (calls isr id priv))
  unfolding interrupt_register register_isr
  register-calls id priv isr intc v cpu d cause =
      let mode = direct_mode intc.io d in
      elim (valid-cases id v) [
        | inl e ↦
            let cause' : csrs.read intc.io mcause ≡ interrupt_cause width 128 =
              cause ∙ ap (interrupt_cause width) e in
            rw (v, mode, e) (refl, takes-beu isr _ cpu cause' refl)
        | inr small ↦
            let not_beu : (id == 128) ≡ false = ground arith in
            let same : (id == id) ≡ true = ground arith in
            let entry = record (intc.metal_int_table id) {
              handler = some isr;
              exint_data = priv;
            } in
            let registered : Intc platform = record intc {
              metal_int_table = λ j. if j == id then entry else intc.metal_int_table j;
            } in
            let has : (registered.metal_int_table id).handler ≡ some isr = rw (same) refl in
            let given : (registered.metal_int_table id).exint_data ≡ priv = rw (same) refl in
            rw (v, not_beu)
              (
                refl,
                takes-table id isr registered small cpu d cause has
                    ∙ ap (λ (x : ℕ). some (calls isr id x)) given,
              )
      ]

  -- On a hart of 32 or 64 bits, registering a handler for an exception code below 12 returns 0,
  -- and when that exception is the cause of a trap the trap handler then calls that handler with
  -- its code.
  pub exception_register-calls :
      (ecode : ℕ) (isr : ExceptionHandler) (intc : Intc platform)
      → ecode < max_me
      → has_cpu ≡ true
      → csrs.read intc.io mcause ≡ ecode
      → ((exception_register platform ecode (some isr) intc).0 ≡ ok)
        × (exception_handler platform (exception_register platform ecode (some isr) intc).1
            ≡ some (calls_exception isr ecode))
  unfolding exception_register exception_handler call_exception is_interrupt
  exception_register-calls ecode isr intc small cpu cause =
      let inside : ltb ecode 12 ≡ true = ground arith in
      let same : (ecode == ecode) ≡ true = ground arith in
      let i : bit_and ecode 0x3ff ≡ ecode = bit_and-mask 10 0 ecode ∙ omega arith in
      let b : bit_and ecode (2 ^ (width - 1)) ≡ 0 = elim word [
        | inl e ↦ rw (e) (bit_and-mask 1 31 ecode ∙ omega arith)
        | inr e ↦ rw (e) (bit_and-mask 1 63 ecode ∙ omega arith)
      ] in
      rw (inside, cpu, cause, b, i, inside, same) (refl, refl)

  default-ok :
      (id priv : ℕ) (intc : Intc platform)
      → valid_interrupt_id id ≡ true
      → (register_default platform id priv intc).0 ≡ ok
  unfolding register_default set_default valid_interrupt_id
  default-ok id priv intc v = ground (arith, v)

  isr-ok :
      (id priv : ℕ) (f : Handler) (intc : Intc platform)
      → (register_isr platform id f priv intc).0 ≡ ok
  unfolding register_isr
  isr-ok id priv f intc = ground arith

  registers :
      (id priv : ℕ) (isr : Option Handler) (intc : Intc platform)
      → valid_interrupt_id id ≡ true
      → (elim isr as (λ _. Rc × Intc platform) [
        | none ↦ register_default platform id priv intc
        | some f ↦ register_isr platform id f priv intc
      ]).0
        ≡ ok
  registers id priv none intc v = default-ok id priv intc v
  registers id priv (some f) intc v = isr-ok id priv f intc

  -- interrupt_register, of a handler or of the default, either returns -11 for an interrupt that
  -- is not valid, or -13 for the bus error unit outside direct mode, both with nothing changed,
  -- or returns 0 for every other valid interrupt; it never returns -12.
  pub interrupt_register-cases :
      (id priv : ℕ) (isr : Option Handler) (intc : Intc platform)
      → let (rc, after) = interrupt_register platform id isr priv intc in
        ((valid_interrupt_id id ≡ false) × (rc ≡ minus 11) × (after ≡ intc))
        ⊎ ((id ≡ id_beu)
            × (is_direct (vector_mode platform intc.io) ≡ false)
            × (rc ≡ minus 13)
            × (after ≡ intc))
        ⊎ ((valid_interrupt_id id ≡ true)
            × ((id ≢ id_beu) ⊎ (is_direct (vector_mode platform intc.io) ≡ true))
            × (rc ≡ ok))
  unfolding interrupt_register
  interrupt_register-cases id priv isr intc = elim (Bool-cases (valid_interrupt_id id)) [
    | inl v ↦ elim (Bool-cases (id == 128)) [
      | inl beu ↦ elim (Bool-cases (is_direct (vector_mode platform intc.io))) [
        | inl d ↦ inr (inr (v, inr d, rw (v, beu, d) (registers id priv isr intc v)))
        | inr nd ↦ inr (inl ((==_iff _ _).0 beu, nd, rw (v, beu, nd) refl, rw (v, beu, nd) refl))
      ]
      | inr other ↦ inr (
          inr (
            v,
            inl (λ e. absurd (ground (arith, e, other))),
            rw (v, other) (registers id priv isr intc v),
          ))
    ]
    | inr nv ↦ inl (nv, rw (nv) refl, rw (nv) refl)
  ]
