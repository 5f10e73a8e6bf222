-- ===== src/Clint.antt =====
-- src/drivers/riscv_clint0.c: the core-local interruptor, the timer and the software interrupts of
-- the harts. Its registers are 32-bit words at addresses, a parameter, as are the controllers of
-- the harts that it hands its interrupts to. An `int` is its pattern of 32 bits.
use freedom_metal.Prelude.{
  ℕ, zero, suc, ◌+◌, ◌*◌, ◌/◌, ◌%◌, ◌^◌, Bool, true, false, not, ◌&&◌, Option, none, some, ltb, leb,
  ◌==◌, ◌>>=◌, if◌then◌else◌,
}
use freedom_metal.Interrupt.{
  VectorMode, direct, vector, selective_nonvector, selective_vector, hardware_vector, Command,
  timer_mtime_get, software_ipi_clear, software_ipi_set, software_msip_get, unknown,
}
use freedom_metal.Prelude.Machine.{Registers}
use freedom_metal.Prelude.Split.{read_split}
pub mod Time
mod Lines
pub mod Examples

-- The modes that register and set_vector_mode let pass.
abbrev pub supported : VectorMode → Bool
supported direct = true
supported vector = true
supported selective_nonvector = false
supported selective_vector = false
supported hardware_vector = false

abbrev pub minus_one : ℕ
minus_one = 0xFFFFFFFF

-- A controller of a hart is a number; a null pointer to one is `none`.
pub record Platform : Type 1 where
  pub regs : Registers ℕ
  pub tick : regs.State → regs.State
  pub control_base : ℕ
  pub mtime : ℕ
  pub mtimecmp_base : ℕ
  pub num_interrupts : ℕ
  pub interrupt_parents : ℕ → Option ℕ
  pub interrupt_lines : ℕ → ℕ
  pub cpu_intc : Option ℕ
  pub current_hartid : ℕ
  pub vector_mode : VectorMode
  pub Handler : Type 0
  pub Parents : Type 0
  pub parent_register : ℕ → ℕ → Option Handler → ℕ → Parents → ℕ × Parents
  pub parent_enable : ℕ → ℕ → Parents → ℕ × Parents
  pub parent_disable : ℕ → ℕ → Parents → ℕ × Parents
  pub parent_set_vector_mode : ℕ → VectorMode → Parents → ℕ × Parents

module _ (platform : Platform) where
  open platform use {
    regs, tick, control_base, mtime, mtimecmp_base, num_interrupts, interrupt_parents,
    interrupt_lines, cpu_intc, current_hartid, vector_mode, Handler, Parents, parent_register,
    parent_enable, parent_disable, parent_set_vector_mode,
  }

  abbrev pub mtime_low : ℕ
  mtime_low = control_base + mtime

  abbrev pub mtime_high : ℕ
  mtime_high = control_base + mtime + 4

  unfoldable pub cmp_low : ℕ → ℕ
  cmp_low hartid = control_base + 8 * hartid + mtimecmp_base

  unfoldable pub cmp_high : ℕ → ℕ
  cmp_high hartid = control_base + 8 * hartid + mtimecmp_base + 4

  unfoldable pub msip : ℕ → ℕ
  msip hartid = control_base + hartid * 4

  -- The loop ends where the high word reads the same again; `none` is out of fuel.
  unfoldable pub mtime_get : ℕ → regs.State → Option (ℕ × regs.State)
  mtime_get fuel s =
      read_split (λ s'. regs.read s' mtime_high) (λ s'. regs.read s' mtime_low) tick fuel s

  -- The three writes of mtimecmp_set.
  unfoldable pub lift_high : ℕ → regs.State → regs.State
  lift_high hartid s = regs.write s (cmp_high hartid) 0xFFFFFFFF

  unfoldable pub set_low : ℕ → ℕ → regs.State → regs.State
  set_low hartid time s = regs.write s (cmp_low hartid) (time % 2 ^ 32)

  unfoldable pub set_high : ℕ → ℕ → regs.State → regs.State
  set_high hartid time s = regs.write s (cmp_high hartid) (time / 2 ^ 32 % 2 ^ 32)

  unfoldable pub mtimecmp_set : ℕ → ℕ → regs.State → ℕ × regs.State
  mtimecmp_set hartid time s = (0, set_high hartid time (set_low hartid time (lift_high hartid s)))

  unfoldable pub same_intc : Option ℕ → Option ℕ → Bool
  same_intc none none = true
  same_intc (some a) (some b) = a == b
  same_intc none (some b) = false
  same_intc (some a) none = false

  -- The loops of register, enable and disable over the interrupts of this controller, from `i`
  -- with `left` rounds left: the controller of this hart, where one of its lines is `id`.
  unfoldable pub find_intc : ℕ → ℕ → ℕ → Option ℕ
  find_intc zero i id = none
  find_intc (suc left) i id =
      let rest = find_intc left (i + 1) id in
      if same_intc cpu_intc (interrupt_parents i) && id == interrupt_lines i
      then interrupt_parents i
      else rest

  unfoldable pub register : ℕ → Option Handler → ℕ → Parents → ℕ × Parents
  register id isr priv ps =
      if supported vector_mode
      then elim (find_intc num_interrupts 0 id) [
        | none ↦ (minus_one, ps)
        | some intc ↦ parent_register intc id isr priv ps
      ]
      else (minus_one, ps)

  pub vector_register : ℕ → ℕ → ℕ
  vector_register id priv = minus_one

  pub get_vector_mode : VectorMode
  get_vector_mode = vector_mode

  unfoldable pub set_vector_mode : VectorMode → Parents → ℕ × Parents
  set_vector_mode mode ps = elim cpu_intc [
    | none ↦ (minus_one, ps)
    | some intc ↦ if supported mode then parent_set_vector_mode intc mode ps else (minus_one, ps)
  ]

  unfoldable pub enable : ℕ → Parents → ℕ × Parents
  enable id ps = if id == 0 then (minus_one, ps) else elim (find_intc num_interrupts 0 id) [
    | none ↦ (minus_one, ps)
    | some intc ↦ parent_enable intc id ps
  ]

  unfoldable pub disable : ℕ → Parents → ℕ × Parents
  disable id ps = if id == 0 then (minus_one, ps) else elim (find_intc num_interrupts 0 id) [
    | none ↦ (minus_one, ps)
    | some intc ↦ parent_disable intc id ps
  ]

  -- init of a controller that is not initialised yet, from interrupt `i`; a parent that is null
  -- is undefined behaviour.
  unfoldable pub init_lines : ℕ → ℕ → ℕ → Parents → Option Parents
  init_lines zero i controller ps = some ps
  init_lines (suc left) i controller ps = elim (interrupt_parents i) [
    | none ↦ none
    | some intc ↦
        init_lines left (i + 1) controller
          (parent_register intc (interrupt_lines i) none controller ps).1
  ]

  unfoldable pub init : ℕ → Bool × Parents → Option (Bool × Parents)
  init controller (init_done, ps) =
      let told = init_lines num_interrupts 0 controller ps in
      if init_done then some (true, ps) else (told >>= (λ after. some (true, after)))

  -- The result, what `*data` is then, and the registers. A null `data` is `none`; for the commands
  -- on a hart it holds the hart's id.
  unfoldable pub command_request :
      ℕ → Command → Option ℕ → regs.State → Option (ℕ × Option ℕ × regs.State)
  command_request fuel timer_mtime_get none s = some (minus_one, none, s)
  command_request fuel timer_mtime_get (some old) s = elim (mtime_get fuel s) [
    | none ↦ none
    | some (time, after) ↦ some (0, some time, after)
  ]
  command_request fuel software_ipi_clear none s = some (minus_one, none, s)
  command_request fuel software_ipi_clear (some hartid) s =
      some (0, some hartid, regs.write s (msip hartid) 0)
  command_request fuel software_ipi_set none s = some (minus_one, none, s)
  command_request fuel software_ipi_set (some hartid) s =
      some (0, some hartid, regs.write s (msip hartid) 1)
  command_request fuel software_msip_get none s = some (0, none, s)
  command_request fuel software_msip_get (some hartid) s =
      some (regs.read s (msip hartid), some hartid, s)
  command_request fuel unknown data_pointer s = some (minus_one, data_pointer, s)

  unfoldable pub clear_interrupt : ℕ → regs.State → Option (ℕ × Option ℕ × regs.State)
  clear_interrupt fuel s = command_request fuel software_ipi_clear (some current_hartid) s

  unfoldable pub set_interrupt : ℕ → regs.State → Option (ℕ × Option ℕ × regs.State)
  set_interrupt fuel s = command_request fuel software_ipi_set (some current_hartid) s
