-- ===== src/Interrupt.antt =====
-- metal/interrupt.h and metal/drivers/riscv_cpu.h: what the interrupt controllers share.
-- metal_vector_mode
pub data VectorMode : Type 0 where
  direct : VectorMode
  vector : VectorMode
  selective_nonvector : VectorMode
  selective_vector : VectorMode
  hardware_vector : VectorMode

-- The commands of command_request, and any other number.
pub data Command : Type 0 where
  timer_mtime_get : Command
  software_ipi_clear : Command
  software_ipi_set : Command
  software_msip_get : Command
  unknown : Command
