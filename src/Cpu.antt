-- ===== src/Cpu.antt =====
-- src/drivers/riscv_cpu.c: the control registers of a hart that its interrupt controller uses, in
-- words of `width` bits, and the mode of mtvec.
use freedom_metal.Prelude.{
  ℕ, ◌+◌, ◌-◌, ◌*◌, ◌%◌, ◌^◌, Bool, true, false, not, ◌&&◌, ◌||◌, Option, none, some, ltb, leb,
  ◌==◌, if◌then◌else◌, ◌>>=◌, bit_and, bit_or,
}
use freedom_metal.Prelude.Bits.{complement}
use freedom_metal.Prelude.Machine.{Registers, set_bits, clear_bits, shift_int, int_to_size}
use freedom_metal.Interrupt.{
  VectorMode, direct, vector, selective_nonvector, selective_vector, hardware_vector,
}
pub mod Id
pub mod Intc
mod Api
mod Vector
mod Bits
mod Dispatch
mod Timer
pub mod Examples

pub data Csr : Type 0 where
  mstatus : Csr
  mie : Csr
  mtvec : Csr
  mtvt : Csr
  mcause : Csr
  mepc : Csr
  mcycle : Csr
  mcycleh : Csr

-- METAL_MTVEC_MASK, and the modes in mtvec
abbrev pub mtvec_mask : ℕ
mtvec_mask = 0x3f

abbrev pub mtvec_vectored : ℕ
mtvec_vectored = 1

abbrev pub mtvec_clic : ℕ
mtvec_clic = 2

abbrev pub mtvec_clic_vectored : ℕ
mtvec_clic_vectored = 3

-- METAL_MIE_INTERRUPT, METAL_MCAUSE_CAUSE
abbrev pub mie_interrupt : ℕ
mie_interrupt = 8

abbrev pub mcause_cause : ℕ
mcause_cause = 0x3ff

-- The results of the driver: 0, and a negative number.
pub data Rc : Type 0 where
  ok : Rc
  minus : ℕ → Rc

-- The hardware, the addresses that the linker gives, and the handlers: those of users, and the
-- driver's own by name.
pub record Platform : Type 1 where
  pub width : ℕ
  pub csrs : Registers Csr
  pub tick : csrs.State → csrs.State
  pub exception_entry : ℕ
  pub vector_table : ℕ
  pub early_trap_vector : ℕ
  pub hartid : ℕ
  pub has_cpu : Bool
  pub Handler : Type 0
  pub default_interrupt_handler : Handler
  pub default_sw_handler : Handler
  pub default_timer_handler : Handler
  pub default_beu_handler : Handler
  pub ExceptionHandler : Type 0
  pub default_exception_handler : ExceptionHandler

module _ (platform : Platform) where
  open platform use {width, csrs}

  unfoldable pub global_enable : csrs.State → csrs.State
  global_enable s = set_bits csrs s mstatus mie_interrupt

  unfoldable pub global_disable : csrs.State → csrs.State
  global_disable s = clear_bits csrs width s mstatus mie_interrupt

  -- software_enable, timer_enable, external_enable and their converses, by the bit of mie
  unfoldable pub line_enable : ℕ → csrs.State → csrs.State
  line_enable b s = set_bits csrs s mie b

  unfoldable pub line_disable : ℕ → csrs.State → csrs.State
  line_disable b s = clear_bits csrs width s mie b

  -- `uintptr_t b = 1 << id`
  unfoldable pub local_bit : ℕ → Option ℕ
  local_bit id = shift_int 1 id >>= (λ i. some (int_to_size width i))

  unfoldable pub local_enable : ℕ → csrs.State → Option csrs.State
  local_enable id s = local_bit id >>= (λ b. some (line_enable b s))

  unfoldable pub local_disable : ℕ → csrs.State → Option csrs.State
  local_disable id s = local_bit id >>= (λ b. some (line_disable b s))

  -- __metal_controller_interrupt_vector_mode
  unfoldable pub vector_mode : csrs.State → VectorMode
  vector_mode s =
      let val = bit_and (csrs.read s mtvec) mtvec_mask in
      if val == mtvec_clic
      then selective_vector
      else if val == mtvec_clic_vectored
      then hardware_vector
      else if val == mtvec_vectored
      then vector
      else direct

  -- __metal_controller_interrupt_vector
  unfoldable pub controller_vector : VectorMode → ℕ → csrs.State → csrs.State
  controller_vector mode vec_table s =
      let val = bit_and (csrs.read s mtvec) (complement width mtvec_mask) in
      elim mode [
        | selective_nonvector ↦
            csrs.write (csrs.write s mtvt vec_table) mtvec (bit_or val mtvec_clic)
        | selective_vector ↦ csrs.write (csrs.write s mtvt vec_table) mtvec (bit_or val mtvec_clic)
        | hardware_vector ↦
            csrs.write (csrs.write s mtvt vec_table) mtvec (bit_or val mtvec_clic_vectored)
        | vector ↦ csrs.write s mtvec (bit_or vec_table mtvec_vectored)
        | direct ↦ csrs.write s mtvec (bit_and vec_table (complement width mtvec_clic_vectored))
      ]
