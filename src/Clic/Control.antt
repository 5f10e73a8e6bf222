-- ===== src/Clic/Control.antt =====
-- src/drivers/sifive_clic0.c: the controller: its tables of handlers, its start, its modes, its timer and its
-- software interrupts, above the controller of the hart.
use freedom_metal.Prelude.{
  ℕ, zero, suc, ◌+◌, ◌-◌, ◌^◌, Bool, true, false, not, Option, none, some, ◌>>=◌, ltb, ◌==◌,
  if◌then◌else◌,
}
use freedom_metal.Prelude.Machine.{Registers}
use freedom_metal.Interrupt.{
  VectorMode, direct, vector, selective_nonvector, selective_vector, hardware_vector,
}
use freedom_metal.Cpu.{Platform, Rc, ok, minus, vector_mode, controller_vector}
use freedom_metal.Cpu.Id.{id_csw}
use freedom_metal.Cpu.Intc.{Entry, Intc, controller_init, interrupt_register, no_entry, with_io}
use freedom_metal.Clic.{
  Reg, max_nlbits, Cfg, configuration, current, interrupt_set_level, interrupt_is_vectored,
  interrupt_set_vector_mode, interrupt_disable,
}

-- The 32-bit registers, of a hart where there is one for each.
pub data Word : Type 0 where
  msip : ℕ → Word
  cmp_low : ℕ → Word
  cmp_high : ℕ → Word
  mtime_low : Word
  mtime_high : Word

-- CLIC0_MAX_INTERRUPTS
abbrev pub max_interrupts : ℕ
max_interrupts = 1024

module _ (platform : Platform) where
  -- The registers, the values of the device tree, the addresses of the controller and of its table, and
  -- its own handlers. A handler without arguments is a `VectorHandler`.
  pub record Board : Type 1 where
    pub State : Type 0
    pub read8 : State → Reg → ℕ
    pub write8 : State → Reg → ℕ → State
    pub read32 : State → Word → ℕ
    pub write32 : State → Word → ℕ → State
    pub tick : State → State
    pub num_intbits : ℕ
    pub num_subinterrupts : ℕ
    pub num_interrupts : ℕ
    pub interrupt_lines : ℕ → ℕ
    pub max_levels : ℕ
    pub clic : ℕ
    pub metal_mtvt : ℕ
    pub default_handler : platform.Handler
    pub VectorHandler : Type 0
    pub clic_handler : VectorHandler
    pub default_vector_handler : VectorHandler

  module _ (board : Board) where
    open board use {
      State, read8, write8, read32, write32, tick, num_intbits, num_subinterrupts, num_interrupts,
      interrupt_lines, max_levels, clic, metal_mtvt, default_handler, VectorHandler, clic_handler,
      default_vector_handler,
    }

    abbrev pub bytes : Registers Reg
    bytes = record { State = State; read = read8; write = write8 }

    -- struct __metal_driver_sifive_clic0, its registers, and the controller of its hart
    pub record Clic : Type 0 where
      pub init_done : Bool
      pub metal_mtvt_table : ℕ → Option VectorHandler
      pub metal_exint_table : ℕ → Entry platform
      pub io : State
      pub intc : Intc platform

    unfoldable pub configure_set_vector_mode : VectorMode → Clic → Rc × Clic
    configure_set_vector_mode mode c =
        let cfg = current bytes num_intbits num_subinterrupts c.io in
        let set : ℕ → Rc × Clic = λ nvbit. (
          ok,
          record c {
            io =
                (configuration bytes num_intbits num_subinterrupts
                  (some (record cfg { nvbit = nvbit })) c.io).1;
            intc = with_io platform c.intc (controller_vector platform mode metal_mtvt c.intc.io);
          },
        ) in
        elim mode [
          | selective_nonvector ↦ set 0
          | selective_vector ↦ set 1
          | hardware_vector ↦ set 1
          | direct ↦ (minus 1, c)
          | vector ↦ (minus 1, c)
        ]

    unfoldable pub configure_get_vector_mode : Clic → VectorMode
    configure_get_vector_mode c = elim (vector_mode platform c.intc.io) [
      | selective_vector ↦
          if (current bytes num_intbits num_subinterrupts c.io).nvbit == 0
          then selective_nonvector
          else selective_vector
      | selective_nonvector ↦ selective_nonvector
      | hardware_vector ↦ hardware_vector
      | direct ↦ direct
      | vector ↦ vector
    ]

    -- __metal_clic0_handler: the handler that it calls, with the number and the data.
    unfoldable pub handler : ℕ → Clic → Option (platform.Handler × ℕ × ℕ)
    handler id c =
        let entry = c.metal_exint_table id in
        if ltb id num_subinterrupts
        then entry.handler >>= (λ f. some (f, id, entry.exint_data))
        else none

    abbrev pub set_exint : ℕ → Entry platform → Clic → Clic
    set_exint id entry c = record c {
      metal_exint_table = λ i. if i == id then entry else c.metal_exint_table i;
    }

    abbrev pub set_mtvt : ℕ → Option VectorHandler → Clic → Clic
    set_mtvt id f c = record c {
      metal_mtvt_table = λ i. if i == id then f else c.metal_mtvt_table i;
    }

    -- The registration of the lines of the controller at that of its hart, from line `i` with `left` left.
    unfoldable pub register_lines : ℕ → ℕ → Intc platform → Intc platform
    register_lines zero i intc = intc
    register_lines (suc left) i intc =
        register_lines left (i + 1)
          (interrupt_register platform (interrupt_lines i) none clic intc).1

    -- One round of the loop of init.
    unfoldable pub init_interrupt : ℕ → ℕ → Clic → Clic
    init_interrupt level i c =
        let cleared = set_exint i (no_entry platform) (set_mtvt i none c) in
        let levelled = interrupt_set_level bytes num_intbits num_subinterrupts i level c.io in
        let here = if ltb i num_subinterrupts then record cleared { io = levelled } else c in
        record here { io = interrupt_disable bytes num_intbits num_subinterrupts i here.io }

    unfoldable pub init_interrupts : ℕ → ℕ → ℕ → Clic → Clic
    init_interrupts zero level i c = c
    init_interrupts (suc left) level i c =
        init_interrupts left level (i + 1) (init_interrupt level i c)

    unfoldable pub init : Clic → Clic
    init c =
        let started = controller_init platform c.intc in
        let vectored =
          with_io platform started
            (controller_vector platform selective_nonvector metal_mtvt started.io) in
        let nlbits = if ltb max_nlbits max_levels then max_nlbits else max_levels in
        let cfg : Cfg = record { nmbits = 0; nlbits = nlbits; nvbit = 0 } in
        let level = 2 ^ nlbits - 1 in
        let configured = (configuration bytes num_intbits num_subinterrupts (some cfg) c.io).1 in
        let off = interrupt_disable bytes num_intbits num_subinterrupts 0 configured in
        let zeroth = interrupt_set_level bytes num_intbits num_subinterrupts 0 level off in
        let reset = record (set_mtvt 0 (some clic_handler) c) {
          intc = register_lines num_interrupts 0 vectored;
          io = zeroth;
        } in
        if c.init_done
        then c
        else record (init_interrupts (max_interrupts - 1) level 1 reset) { init_done = true }

    -- Whether register refuses an interrupt for the mode of the controller.
    unfoldable pub refuses : ℕ → Clic → Option Bool
    refuses id c = elim (configure_get_vector_mode c) [
      | selective_vector ↦
          interrupt_is_vectored bytes num_intbits num_subinterrupts id c.io
          >>= (λ v. some (not (v == 0)))
      | selective_nonvector ↦ some false
      | hardware_vector ↦ some true
      | vector ↦ some true
      | direct ↦ some true
    ]

    unfoldable pub register_sub : ℕ → Option platform.Handler → ℕ → Clic → Rc × Clic
    register_sub id isr priv c =
        let entry = c.metal_exint_table id in
        let set : Clic = elim isr [
          | none ↦ set_exint id (record entry { handler = some default_handler; sub_int = priv }) c
          | some f ↦ set_exint id (record entry { handler = some f; exint_data = priv }) c
        ] in
        if ltb id num_subinterrupts then (ok, set) else (minus 1, c)

    unfoldable pub register : ℕ → Option platform.Handler → ℕ → Clic → Option (Rc × Clic)
    register id isr priv c = refuses id c >>= (λ refused.
        let (rc, intc) = interrupt_register platform id isr priv c.intc in
        if refused
        then some (minus 1, c)
        else if ltb id id_csw
        then some (rc, record c { intc = intc })
        else some (register_sub id isr priv c))

    -- Whether vector_register refuses it.
    unfoldable pub refuses_vector : ℕ → Clic → Option Bool
    refuses_vector id c = elim (configure_get_vector_mode c) [
      | selective_vector ↦
          interrupt_is_vectored bytes num_intbits num_subinterrupts id c.io >>= (λ v. some (v == 0))
      | hardware_vector ↦ some false
      | selective_nonvector ↦ some true
      | vector ↦ some true
      | direct ↦ some true
    ]

    unfoldable pub vector_register : ℕ → Option VectorHandler → ℕ → Clic → Option (Rc × Clic)
    vector_register id isr priv c =
        let entry = c.metal_exint_table id in
        let set : Clic = elim isr [
          | none ↦
              set_exint id (record entry { sub_int = priv })
                (set_mtvt id (some default_vector_handler) c)
          | some f ↦ set_exint id (record entry { exint_data = priv }) (set_mtvt id (some f) c)
        ] in
        refuses_vector id c >>= (λ refused.
          if refused
          then some (minus 1, c)
          else if ltb id num_subinterrupts
          then some (ok, set)
          else some (minus 1, c))

    -- The interrupt's own vector bit, where the number is one of the controller's.
    unfoldable pub set_vector : ℕ → Bool → Clic → Option (Rc × Clic)
    set_vector id enable c =
        if ltb id num_subinterrupts
        then interrupt_set_vector_mode bytes num_intbits num_subinterrupts id enable c.io
          >>= (λ s. some (ok, record c { io = s }))
        else some (minus 1, c)

    pub enable_interrupt_vector : ℕ → Clic → Option (Rc × Clic)
    enable_interrupt_vector id c = elim (configure_get_vector_mode c) [
      | selective_vector ↦ set_vector id true c
      | hardware_vector ↦ set_vector id true c
      | selective_nonvector ↦ some (minus 1, c)
      | vector ↦ some (minus 1, c)
      | direct ↦ some (minus 1, c)
    ]

    pub disable_interrupt_vector : ℕ → Clic → Option (Rc × Clic)
    disable_interrupt_vector id c = set_vector id false c
