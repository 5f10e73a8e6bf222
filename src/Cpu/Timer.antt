-- ===== src/Cpu/Timer.antt =====
-- The driver of a hart over the CLINT: src/drivers/riscv_cpu.c calls src/drivers/riscv_clint0.c.
use freedom_metal.Prelude.{
  ℕ, ◌≤◌, ◌≡◌, ◌≢◌, ◌∙◌, refl, sym, false, Option, none, some, arith, ◌==◌, if◌then◌else◌,
}
use freedom_metal.Prelude.Split.{IsSplit}
use freedom_metal.Interrupt.{Command}
use freedom_metal.Clint
use freedom_metal.Clint.Time.{HasMsip, mtime_get-moment, ipi_set-get}
use freedom_metal.Cpu.Id.{id_sw, id_tmr, valid_interrupt_id}
use freedom_metal.Cpu.{Platform}
use freedom_metal.Cpu.Intc.{Intc, interrupt_register, register_default, register_isr, set_default}
use freedom_metal.Cpu.Api.{
  Controllers, cpu_mtime_get, software_request, set_sw_ipi, clear_sw_ipi, get_msip,
}

-- The only controller is a CLINT, with `fuel` rounds for its loop.
abbrev pub clint_controllers : Clint.Platform → ℕ → Controllers
clint_controllers clint fuel = record {
  State = clint.regs.State;
  command_request = λ controller. Clint.command_request clint fuel;
  mtimecmp_set = λ controller. Clint.mtimecmp_set clint;
}

module _ (platform : Platform) (clint : Clint.Platform) (fuel : ℕ) where
  open clint use {regs, tick}

  -- What Clint.init does to the controller of this hart, for its two interrupts, and the handlers
  -- that users register then.
  abbrev pub wired :
      ℕ → (isr isr' : platform.Handler) → (priv priv' : ℕ) → Intc platform → Intc platform
  wired controller isr isr' priv priv' intc =
      let a = (interrupt_register platform id_sw none controller intc).1 in
      let b = (interrupt_register platform id_tmr none controller a).1 in
      let c = (interrupt_register platform id_sw (some isr) priv b).1 in
      (interrupt_register platform id_tmr (some isr') priv' c).1

  wired-sub_int :
      (controller : ℕ) (isr isr' : platform.Handler) (priv priv' : ℕ) (intc : Intc platform)
      → let w = wired controller isr isr' priv priv' intc in
        ((w.metal_int_table id_sw).sub_int ≡ controller)
        × ((w.metal_int_table id_tmr).sub_int ≡ controller)
  unfolding interrupt_register register_default register_isr set_default valid_interrupt_id
  wired-sub_int controller isr isr' priv priv' intc = (refl, refl)

  request-forwarded :
      (command : Command) (rc hart v : ℕ) (held : Option ℕ) (w : Intc platform) (s t : regs.State)
      → (w.metal_int_table id_sw).sub_int ≢ 0
      → Clint.command_request clint fuel command (some hart) s ≡ some (v, held, t)
      → software_request platform (clint_controllers clint fuel) command rc (some w) hart s
        ≡ some (v, t)
  unfolding software_request
  request-forwarded command rc hart v held w s t nonnull given =
      let null_test : ((w.metal_int_table id_sw).sub_int == 0) ≡ false = ground (arith, nonnull) in
      rw (null_test, given) refl

  -- With a CLINT whose pending bit of each hart holds a 0 or a 1 that is written and stays where
  -- another hart's is written, as the controller of a hart's software interrupts, which is not
  -- null, registered by a null handler and with handlers of users registered afterwards: the
  -- hart's set_sw_ipi and clear_sw_ipi return 0, and get_msip reads 1 after the first and 0
  -- after the second on that hart, and on any other hart what its register held before.
  pub set_sw_ipi-get :
      (laws : HasMsip clint) (controller hart other : ℕ) (isr isr' : platform.Handler)
      (priv priv' : ℕ) (intc : Intc platform) (s : regs.State)
      → controller ≢ 0
      → let cs = clint_controllers clint fuel in
        let w = some (wired controller isr isr' priv priv' intc) in
        (after : regs.State) × (cleared : regs.State) × (set_sw_ipi platform cs w hart s
          ≡ some (0, after))
        × (get_msip platform cs w other after
            ≡ some ((if other == hart then 1 else regs.read s (Clint.msip clint other)), after))
        × (clear_sw_ipi platform cs w hart after ≡ some (0, cleared))
        × (get_msip platform cs w other cleared
            ≡ some ((if other == hart then 0 else regs.read s (Clint.msip clint other)), cleared))
  unfolding set_sw_ipi get_msip clear_sw_ipi
  set_sw_ipi-get laws controller hart other isr isr' priv priv' intc s nonnull =
      let w : Intc platform = wired controller isr isr' priv priv' intc in
      let to_clint : (w.metal_int_table id_sw).sub_int ≢ 0 =
        λ e. nonnull (sym (wired-sub_int controller isr isr' priv priv' intc).0 ∙ e) in
      let (after, cleared, set, read, clear, read') = ipi_set-get clint laws fuel hart other s in
      (
        after,
        cleared,
        request-forwarded _ _ hart _ _ w s after to_clint set,
        request-forwarded _ _ other _ _ w after after to_clint read,
        request-forwarded _ _ hart _ _ w after cleared to_clint clear,
        request-forwarded _ _ other _ _ w cleared cleared to_clint read',
      )

  -- With a CLINT as the controller of a hart's timer, registered by a null handler and with
  -- handlers of users registered afterwards, and a timer that never runs backwards and advances
  -- by less than 2 ^ 28 in one access, the hart's mtime_get ends within two rounds and returns
  -- the time of one moment between the start and the end of the call.
  pub cpu_mtime_get-moment :
      (controller : ℕ) (isr isr' : platform.Handler) (priv priv' : ℕ) (intc : Intc platform)
      (s : regs.State) (count : regs.State → ℕ)
      → controller ≢ 0
      → IsSplit
          (λ (s' : regs.State). regs.read s' (Clint.mtime_high clint))
          (λ (s' : regs.State). regs.read s' (Clint.mtime_low clint))
          tick
          count
      → 2 ≤ fuel
      → let cs = clint_controllers clint fuel in
        let w = some (wired controller isr isr' priv priv' intc) in
        (now : regs.State) × (end : regs.State) × (cpu_mtime_get platform cs w s
          ≡ some (count now, end))
        × (count s ≤ count now)
        × (count now ≤ count end)
  unfolding cpu_mtime_get
  cpu_mtime_get-moment controller isr isr' priv priv' intc s count nonnull laws enough =
      let w : Intc platform = wired controller isr isr' priv priv' intc in
      let e = (wired-sub_int controller isr isr' priv priv' intc).1 in
      let null_test : ((w.metal_int_table id_tmr).sub_int == 0) ≡ false =
        ground (arith, λ (z : (w.metal_int_table id_tmr).sub_int ≡ 0). nonnull (sym e ∙ z)) in
      let (now, end, reads, later, last) = mtime_get-moment clint fuel 0 s count laws enough in
      (now, end, rw (null_test, reads) refl, later, last)
