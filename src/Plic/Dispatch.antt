-- ===== src/Plic/Dispatch.antt =====
-- From __metal_driver_riscv_plic0_register to __metal_plic0_handler of
-- src/drivers/riscv_plic0.c: the handler that a claimed source is given.
use freedom_metal.Prelude.{ℕ, ◌<◌, ◌≡◌, true, false, some, arith, ltb, leb, ap, ◌∙◌, ◌==◌, refl}
use freedom_metal.Plic.{Platform, Plic, claim_address, claim_interrupt, complete_interrupt, handler}
use freedom_metal.Plic.Api.{register}

module _ (platform : Platform) where
  open platform use {regs, num_interrupts, myhart_id, context_ids, Handler}

  -- The context that the handler serves.
  abbrev pub own_context : ℕ
  own_context = context_ids myhart_id

  -- A claimed source with a handler.
  handler-calls :
      (call : Handler → ℕ → ℕ → Plic platform → Plic platform) (isr : Handler) (p : Plic platform)
      → let id : ℕ = regs.read p.io (claim_address platform own_context) in
        id < num_interrupts
        → p.metal_exint_table id ≡ some isr
        → handler platform call p
          ≡ complete_interrupt platform own_context id (
              call isr id
                (p.metal_exdata_table id).exint_data
                (claim_interrupt platform own_context p).1)
  unfolding handler claim_interrupt
  handler-calls call isr p known has =
      let id : ℕ = regs.read p.io (claim_address platform own_context) in
      let inside : ltb id num_interrupts ≡ true = ground arith in rw (inside, has) refl

  register-tables :
      (id priv : ℕ) (isr : Handler) (p : Plic platform)
      → id < num_interrupts
      → let registered : Plic platform = (register platform id (some isr) priv p).1 in
        (registered.metal_exint_table id ≡ some isr)
        × ((registered.metal_exdata_table id).exint_data ≡ priv)
  unfolding register
  register-tables id priv isr p known =
      let accepted : leb num_interrupts id ≡ false = ground arith in
      let same : (id == id) ≡ true = ground arith in rw (accepted, same) (refl, refl)

  -- After a source that the controller has is registered with a handler and its data, the
  -- interrupt handler of the controller, when the claim of its context gives that source, calls
  -- that handler with the source and the data, and then completes the source.
  pub register-handler :
      (call : Handler → ℕ → ℕ → Plic platform → Plic platform) (id priv : ℕ) (isr : Handler)
      (p : Plic platform)
      → id < num_interrupts
      → let registered : Plic platform = (register platform id (some isr) priv p).1 in
        regs.read registered.io (claim_address platform own_context) ≡ id
        → handler platform call registered
          ≡ complete_interrupt platform own_context id
              (call isr id priv (claim_interrupt platform own_context registered).1)
  register-handler call id priv isr p known claims =
      let registered : Plic platform = (register platform id (some isr) priv p).1 in
      let (has, given) = register-tables id priv isr p known in
      handler-calls call isr registered (omega (arith, claims, known))
        (ap registered.metal_exint_table claims ∙ has)
      ∙ ap
          (λ (x : ℕ). complete_interrupt platform own_context x (
            call isr x (registered.metal_exdata_table x).exint_data
              (claim_interrupt platform own_context registered).1))
          claims
      ∙ ap
          (λ (x : ℕ).
            complete_interrupt platform own_context id
              (call isr id x (claim_interrupt platform own_context registered).1))
          given
