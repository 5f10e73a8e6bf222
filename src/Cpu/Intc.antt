-- ===== src/Cpu/Intc.antt =====
-- src/drivers/riscv_cpu.c: the interrupt controller of a hart, its tables and its trap handlers.
use freedom_metal.Prelude.{
  ℕ, ◌+◌, ◌-◌, ◌^◌, Bool, true, false, not, ◌&&◌, ◌||◌, Option, none, some, ltb, ◌==◌,
  if◌then◌else◌, ◌>>=◌, bit_and,
}
use freedom_metal.Interrupt.{
  VectorMode, direct, vector, selective_nonvector, selective_vector, hardware_vector,
}
use freedom_metal.Cpu.Id.{
  id_base, id_sw, id_tmr, id_ext, id_csw, id_beu, is_local, valid_interrupt_id,
}
use freedom_metal.Cpu.{
  Platform, mcause, mtvec, mtvt, mtvec_mask, mtvec_clic, mcause_cause, Rc, ok, minus, global_enable,
  global_disable, line_enable, line_disable, local_enable, local_disable, vector_mode,
  controller_vector,
}

-- METAL_MAX_MI, METAL_MAX_ME
abbrev pub max_mi : ℕ
max_mi = 32

abbrev pub max_me : ℕ
max_me = 12

abbrev pub is_direct : VectorMode → Bool
is_direct direct = true
is_direct vector = false
is_direct selective_nonvector = false
is_direct selective_vector = false
is_direct hardware_vector = false

module _ (platform : Platform) where
  open platform use {
    width, csrs, exception_entry, vector_table, early_trap_vector, has_cpu, Handler,
    default_interrupt_handler, default_sw_handler, default_timer_handler, default_beu_handler,
    ExceptionHandler, default_exception_handler,
  }

  -- __metal_interrupt_data; a null handler is `none`, and a null pointer 0
  pub record Entry : Type 0 where
    pub handler : Option Handler
    pub sub_int : ℕ
    pub exint_data : ℕ

  -- struct __metal_driver_riscv_cpu_intc, and the control registers
  pub record Intc : Type 0 where
    pub init_done : Bool
    pub metal_int_table : ℕ → Entry
    pub metal_int_beu : Entry
    pub metal_exception_table : ℕ → ExceptionHandler
    pub io : csrs.State

  abbrev pub set_entry : ℕ → Entry → (ℕ → Entry) → ℕ → Entry
  set_entry id entry table i = if i == id then entry else table i

  abbrev pub no_entry : Entry
  no_entry = record { handler = none; sub_int = 0; exint_data = 0 }

  abbrev pub with_io : Intc → csrs.State → Intc
  with_io intc s = record intc { io = s }

  unfoldable pub exception_register : ℕ → Option ExceptionHandler → Intc → Rc × Intc
  exception_register ecode isr intc = elim isr [
    | none ↦ (minus 1, intc)
    | some f ↦
        if ltb ecode max_me
        then (
          ok,
          record intc {
            metal_exception_table = λ i. if i == ecode then f else intc.metal_exception_table i;
          },
        )
        else (minus 1, intc)
  ]

  -- interrupt_init
  unfoldable pub controller_init : Intc → Intc
  controller_init intc =
      let reset : Intc = record intc {
        init_done = true;
        metal_int_table = λ i. if ltb i max_mi then no_entry else intc.metal_int_table i;
        metal_exception_table =
            λ i. if ltb i max_me then default_exception_handler else intc.metal_exception_table i;
      } in
      if intc.init_done
      then intc
      else if csrs.read intc.io mtvec == early_trap_vector
      then with_io reset (controller_vector platform direct exception_entry intc.io)
      else reset

  -- interrupt_register of a handler, and of the default where there is none
  unfoldable pub register_isr : ℕ → Handler → ℕ → Intc → Rc × Intc
  register_isr id isr priv intc =
      if id == id_beu
      then (
        ok,
        record intc {
          metal_int_beu = record (intc.metal_int_beu) { handler = some isr; exint_data = priv };
        },
      )
      else (
        ok,
        record intc {
          metal_int_table =
              set_entry id
                (record (intc.metal_int_table id) { handler = some isr; exint_data = priv })
                intc.metal_int_table;
        },
      )

  unfoldable pub set_default : ℕ → Handler → ℕ → Intc → Rc × Intc
  set_default id f priv intc = (
    ok,
    record intc {
      metal_int_table =
          set_entry id (record (intc.metal_int_table id) { handler = some f; sub_int = priv })
            intc.metal_int_table;
    },
  )

  unfoldable pub register_default : ℕ → ℕ → Intc → Rc × Intc
  register_default id priv intc =
      if id == id_sw
      then set_default id default_sw_handler priv intc
      else if id == id_tmr
      then set_default id default_timer_handler priv intc
      else if id == id_beu
      then (
        ok,
        record intc {
          metal_int_beu = record (intc.metal_int_beu) {
            handler = some default_beu_handler;
            exint_data = priv;
          };
        },
      )
      else if id == id_ext || is_local id
      then set_default id default_interrupt_handler priv intc
      else (minus 12, intc)

  unfoldable pub interrupt_register : ℕ → Option Handler → ℕ → Intc → Rc × Intc
  interrupt_register id isr priv intc =
      if not (valid_interrupt_id id)
      then (minus 11, intc)
      else if id == id_beu && not (is_direct (vector_mode platform intc.io))
      then (minus 13, intc)
      else elim isr [ none ↦ register_default id priv intc | some f ↦ register_isr id f priv intc ]

  -- __metal_local_interrupt_enable on a controller that is not null
  unfoldable pub local_interrupt_enable : ℕ → Bool → Intc → Option (Rc × Intc)
  local_interrupt_enable id enable intc =
      let s = intc.io in
      if id == id_base
      then some (
        ok,
        with_io intc (if enable then global_enable platform s else global_disable platform s),
      )
      else if id == id_sw
      then some (
        ok,
        with_io intc (if enable then line_enable platform 8 s else line_disable platform 8 s),
      )
      else if id == id_tmr
      then some (
        ok,
        with_io intc (if enable then line_enable platform 128 s else line_disable platform 128 s),
      )
      else if id == id_ext
      then some (
        ok,
        with_io intc (if enable then line_enable platform 2048 s else line_disable platform 2048 s),
      )
      else if is_local id
      then (if enable then local_enable platform id s else local_disable platform id s)
        >>= (λ after. some (ok, with_io intc after))
      else some (minus 1, intc)

  pub interrupt_enable : ℕ → Intc → Option (Rc × Intc)
  interrupt_enable id intc = local_interrupt_enable id true intc

  pub interrupt_disable : ℕ → Intc → Option (Rc × Intc)
  interrupt_disable id intc = local_interrupt_enable id false intc

  unfoldable pub set_vector_mode : VectorMode → Intc → Rc × Intc
  set_vector_mode mode intc = elim mode [
    | direct ↦ (ok, with_io intc (controller_vector platform direct exception_entry intc.io))
    | vector ↦ (ok, with_io intc (controller_vector platform vector vector_table intc.io))
    | _ ↦ (minus 1, intc)
  ]

  unfoldable pub get_vector_mode : Intc → VectorMode
  get_vector_mode intc = vector_mode platform intc.io

  -- Enabling and disabling vectors, of which `mtvec_table` is the address of the controller's own.
  pub enable_vector : ℕ → VectorMode → ℕ → Intc → Rc × Intc
  enable_vector id mode mtvec_table intc =
      if id == id_base
      then elim mode [
        | direct ↦ (ok, with_io intc (controller_vector platform direct exception_entry intc.io))
        | vector ↦ (ok, with_io intc (controller_vector platform vector mtvec_table intc.io))
        | _ ↦ (minus 1, intc)
      ]
      else (minus 1, intc)

  pub disable_vector : ℕ → Intc → Rc × Intc
  disable_vector id intc =
      if id == id_base
      then (ok, with_io intc (controller_vector platform direct exception_entry intc.io))
      else (minus 1, intc)

  -- The call that a trap ends in.
  pub data Trap : Type 0 where
    calls : Handler → ℕ → ℕ → Trap
    calls_exception : ExceptionHandler → ℕ → Trap
    calls_at : ℕ → ℕ → ℕ → Trap
    returns : Trap

  -- A null handler, and an entry past the end of its table, are undefined.
  unfoldable pub call_entry : Entry → ℕ → Option Trap
  call_entry entry id = entry.handler >>= (λ f. some (calls f id entry.exint_data))

  unfoldable pub call_interrupt : ℕ → Intc → Option Trap
  call_interrupt id intc = if ltb id max_mi then call_entry (intc.metal_int_table id) id else none

  unfoldable pub call_exception : ℕ → ℕ → Intc → Option Trap
  call_exception ecode id intc =
      if ltb ecode max_me
      then some (calls_exception (intc.metal_exception_table ecode) id)
      else none

  -- __METAL_IRQ_VECTOR_HANDLER
  unfoldable pub irq_vector_handler : ℕ → Intc → Option Trap
  irq_vector_handler id intc = if has_cpu then call_interrupt id intc else some returns

  -- metal_lc0_interrupt_vector_handler to metal_lc15_interrupt_vector_handler
  pub lc_interrupt_vector_handler : ℕ → Intc → Option Trap
  lc_interrupt_vector_handler n intc = irq_vector_handler (16 + n) intc

  pub default_sw : ℕ → Intc → Option Trap
  default_sw id intc =
      if has_cpu
      then call_exception (bit_and (csrs.read intc.io mcause) mcause_cause) id intc
      else some returns

  -- The interrupt bit of mcause is its highest.
  unfoldable pub is_interrupt : ℕ → Bool
  is_interrupt cause = not (bit_and cause (2 ^ (width - 1)) == 0)

  unfoldable pub exception_handler : Intc → Option Trap
  exception_handler intc =
      let cause = csrs.read intc.io mcause in
      let mode = bit_and (csrs.read intc.io mtvec) mtvec_mask in
      let id = bit_and cause mcause_cause in
      if not has_cpu
      then some returns
      else if is_interrupt cause
      then if id == id_beu
        then call_entry intc.metal_int_beu id
        else if ltb id id_csw || mode == 0
        then call_interrupt id intc
        else if mode == mtvec_clic
        then some (calls_at (csrs.read intc.io mtvt) id (intc.metal_int_table id_sw).sub_int)
        else some returns
      else call_exception id id intc
