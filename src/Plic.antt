-- ===== src/Plic.antt =====
-- src/drivers/riscv_plic0.c: the platform-level interrupt controller. Its registers are 32-bit words
-- at addresses, a parameter; the sums that make an address are taken not to wrap.
use freedom_metal.Prelude.{
  ℕ, zero, suc, ◌+◌, ◌-◌, ◌*◌, ◌/◌, ◌%◌, ◌^◌, ◌≤◌, ◌<◌, ◌≡◌, Bool, true, false, not, ◌&&◌, ◌||◌,
  Option, none, some, ltb, leb, ◌==◌, if◌then◌else◌, bit_and, bit_or,
}
use freedom_metal.Prelude.Bits.{complement}
use freedom_metal.Prelude.Machine.{Registers}
mod Api
mod Enable
mod Affinity
mod Dispatch
mod Examples

-- METAL_PLIC_SOURCE_MASK, METAL_PLIC_SOURCE_SHIFT, METAL_PLIC_SOURCE_PRIORITY_SHIFT,
-- PLIC0_MAX_INTERRUPTS
abbrev pub source_mask : ℕ
source_mask = 0x1f

abbrev pub source_shift : ℕ
source_shift = 5

abbrev pub source_priority_shift : ℕ
source_priority_shift = 2

abbrev pub max_interrupts : ℕ
max_interrupts = 1024

-- The hardware, the constants and functions of the generated headers, the parent controllers and
-- the handlers that users register.
pub record Platform : Type 1 where
  pub regs : Registers ℕ
  pub after_claim : regs.State → ℕ → regs.State
  pub control_base : ℕ
  pub priority_base : ℕ
  pub enable_base : ℕ
  pub enable_per_hart : ℕ
  pub context_base : ℕ
  pub context_per_hart : ℕ
  pub context_threshold : ℕ
  pub context_claim : ℕ
  pub max_priority : ℕ
  pub num_interrupts : ℕ
  pub num_parents : ℕ
  pub myhart_id : ℕ
  pub context_ids : ℕ → ℕ
  pub Handler : Type 0
  pub default_handler : Handler

-- __metal_interrupt_data; a pointer is a number
pub record InterruptData : Type 0 where
  pub sub_int : ℕ
  pub exint_data : ℕ

module _ (platform : Platform) where
  open platform use {
    regs, after_claim, control_base, priority_base, enable_base, enable_per_hart, context_base,
    context_per_hart, context_threshold, context_claim, max_priority, num_interrupts, num_parents,
    myhart_id, context_ids, Handler, default_handler,
  }

  -- struct __metal_driver_riscv_plic0, and the registers
  pub record Plic : Type 0 where
    pub init_done : Bool
    pub metal_exint_table : ℕ → Option Handler
    pub metal_exdata_table : ℕ → InterruptData
    pub io : regs.State

  pub claim_address : ℕ → ℕ
  claim_address context_id =
      control_base + context_base + context_id * context_per_hart + context_claim

  pub threshold_address : ℕ → ℕ
  threshold_address context_id =
      control_base + context_base + context_id * context_per_hart + context_threshold

  pub priority_address : ℕ → ℕ
  priority_address id = control_base + priority_base + id * 2 ^ source_priority_shift

  pub enable_address : ℕ → ℕ → ℕ
  enable_address context_id id =
      control_base + enable_base + context_id * enable_per_hart + id / 2 ^ source_shift * 4

  -- Reading the claim register takes the interrupt.
  pub claim_interrupt : ℕ → Plic → ℕ × Plic
  claim_interrupt context_id p = (
    regs.read p.io (claim_address context_id),
    record p { io = after_claim p.io (claim_address context_id) },
  )

  pub complete_interrupt : ℕ → ℕ → Plic → Plic
  complete_interrupt context_id id p = record p {
    io = regs.write p.io (claim_address context_id) id;
  }

  pub context_set_threshold : ℕ → ℕ → Plic → ℕ × Plic
  context_set_threshold context_id threshold p =
      (0, record p { io = regs.write p.io (threshold_address context_id) threshold })

  pub context_get_threshold : ℕ → Plic → ℕ
  context_get_threshold context_id p = regs.read p.io (threshold_address context_id)

  -- `false` is the -1 of a priority that is refused.
  pub set_priority : ℕ → ℕ → Plic → Bool × Plic
  set_priority id priority p =
      if not (max_priority == 0) && ltb priority max_priority
      then (true, record p { io = regs.write p.io (priority_address id) priority })
      else (false, p)

  pub get_priority : ℕ → Plic → ℕ
  get_priority id p = regs.read p.io (priority_address id)

  pub context_enable : ℕ → ℕ → Bool → Plic → ℕ × Plic
  context_enable context_id id enable p =
      let current = regs.read p.io (enable_address context_id id) in
      let source = 2 ^ bit_and id source_mask % 2 ^ 32 in
      (
        0,
        record p {
          io =
              regs.write p.io (enable_address context_id id)
                (if enable then bit_or current source else bit_and current (complement 32 source));
        },
      )

  -- The interrupt handler of the controller; `call` is the effect of a handler of a device on the
  -- state of the controller.
  pub handler : (Handler → ℕ → ℕ → Plic → Plic) → Plic → Plic
  handler call p =
      let contextid = context_ids myhart_id in
      let (idx, claimed) = claim_interrupt contextid p in
      let handled : Plic =
        if ltb idx num_interrupts
        then elim (claimed.metal_exint_table idx) [
          | none ↦ claimed
          | some isr ↦ call isr idx (claimed.metal_exdata_table idx).exint_data claimed
        ]
        else claimed in
      complete_interrupt contextid idx handled
