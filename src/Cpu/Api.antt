-- ===== src/Cpu/Api.antt =====
-- src/drivers/riscv_cpu.c: the driver of a hart, over its interrupt controller and the controllers
-- of the timer and of the software interrupts, which the entries 7 and 3 of its table point at.
use freedom_metal.Prelude.{
  ℕ, ◌+◌, ◌%◌, ◌^◌, Bool, Option, none, some, ◌==◌, if◌then◌else◌, ◌>>=◌, bit_and,
}
use freedom_metal.Prelude.Split.{read_split}
use freedom_metal.Interrupt.{
  Command, timer_mtime_get, software_ipi_set, software_ipi_clear, software_msip_get,
}
use freedom_metal.Cpu.Id.{id_sw, id_tmr}
use freedom_metal.Cpu.{
  Platform, mcycle, mcycleh, mepc, Rc, ok, minus, global_enable, global_disable,
}
use freedom_metal.Cpu.Intc.{Intc, exception_register, with_io}

-- The controllers behind the pointers: their entries command_request and mtimecmp_set. An `int` is
-- its pattern of 32 bits.
pub record Controllers : Type 1 where
  pub State : Type 0
  pub command_request : ℕ → Command → Option ℕ → State → Option (ℕ × Option ℕ × State)
  pub mtimecmp_set : ℕ → ℕ → ℕ → State → ℕ × State

abbrev pub minus_one : ℕ
minus_one = 0xFFFFFFFF

abbrev pub result : ℕ → Option ℕ → ℕ
result held none = held
result held (some v) = v

module _ (platform : Platform) where
  open platform use {csrs, tick, hartid, ExceptionHandler}

  unfoldable pub mcycle_get : ℕ → csrs.State → Option (ℕ × csrs.State)
  mcycle_get fuel s =
      read_split (λ s'. csrs.read s' mcycleh) (λ s'. csrs.read s' mcycle) tick fuel s

  -- `timebase` is the hart's constant; `cpu` is whether the pointer is not null.
  pub timebase_get : Bool → ℕ → ℕ
  timebase_get cpu timebase = if cpu then timebase else 0

  -- A hart without an interrupt controller is `none`.
  module _ (controllers : Controllers) where
    open controllers use {State, command_request}

    unfoldable pub cpu_mtime_get : Option (Intc platform) → State → Option (ℕ × State)
    cpu_mtime_get none s = some (0, s)
    cpu_mtime_get (some intc) s =
        let tmr_intc = (intc.metal_int_table id_tmr).sub_int in
        if tmr_intc == 0
        then some (0, s)
        else command_request tmr_intc timer_mtime_get (some 0) s >>= (λ r. some (result 0 r.1, r.2))

    unfoldable pub cpu_mtimecmp_set : Option (Intc platform) → ℕ → State → ℕ × State
    cpu_mtimecmp_set none time s = (minus_one, s)
    cpu_mtimecmp_set (some intc) time s =
        let tmr_intc = (intc.metal_int_table id_tmr).sub_int in
        if tmr_intc == 0 then (minus_one, s) else controllers.mtimecmp_set tmr_intc hartid time s

    -- The calls on software interrupts, with their result where there is no controller.
    unfoldable pub software_request :
        Command → ℕ → Option (Intc platform) → ℕ → State → Option (ℕ × State)
    software_request command rc none hart s = some (rc, s)
    software_request command rc (some intc) hart s =
        let sw_intc = (intc.metal_int_table id_sw).sub_int in
        if sw_intc == 0
        then some (rc, s)
        else command_request sw_intc command (some hart) s >>= (λ r. some (r.0, r.2))

    unfoldable pub set_sw_ipi : Option (Intc platform) → ℕ → State → Option (ℕ × State)
    set_sw_ipi intc hart s = software_request software_ipi_set minus_one intc hart s

    unfoldable pub clear_sw_ipi : Option (Intc platform) → ℕ → State → Option (ℕ × State)
    clear_sw_ipi intc hart s = software_request software_ipi_clear minus_one intc hart s

    unfoldable pub get_msip : Option (Intc platform) → ℕ → State → Option (ℕ × State)
    get_msip intc hart s = software_request software_msip_get 0 intc hart s

    -- __metal_default_timer_handler
    unfoldable pub default_timer : Option (Intc platform) → State → Option State
    default_timer intc s =
        cpu_mtime_get intc s >>= (λ r. some (cpu_mtimecmp_set intc ((r.0 + 10) % 2 ^ 64) r.1).1)

  pub cpu_enable_interrupt : Option (Intc platform) → Rc × Option (Intc platform)
  cpu_enable_interrupt none = (minus 1, none)
  cpu_enable_interrupt (some intc) =
      (ok, some (with_io platform intc (global_enable platform intc.io)))

  pub cpu_disable_interrupt : Option (Intc platform) → Rc × Option (Intc platform)
  cpu_disable_interrupt none = (minus 1, none)
  cpu_disable_interrupt (some intc) =
      (ok, some (with_io platform intc (global_disable platform intc.io)))

  pub cpu_exception_register :
      ℕ → Option ExceptionHandler → Option (Intc platform) → Rc × Option (Intc platform)
  cpu_exception_register ecode isr none = (minus 1, none)
  cpu_exception_register ecode isr (some intc) =
      let (rc, after) = exception_register platform ecode isr intc in (rc, some after)

  pub get_exception_pc : csrs.State → ℕ
  get_exception_pc s = csrs.read s mepc

  pub set_exception_pc : ℕ → csrs.State → Rc × csrs.State
  set_exception_pc pc s = (ok, csrs.write s mepc pc)

-- The length of the instruction of which `half` are the first 16 bits: METAL_INSN_LENGTH_MASK and
-- METAL_INSN_NOT_COMPRESSED are 3.
unfoldable pub get_instruction_length : ℕ → ℕ
get_instruction_length half = if bit_and half 3 == 3 then 4 else 2
