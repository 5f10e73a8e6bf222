-- ===== src/Clic.antt =====
-- src/drivers/sifive_clic0.c: the registers of the core-local interrupt controller that configure its
-- interrupts. The registers are bytes; an interrupt's number and the values that are set are not
-- negative. `none` is undefined behaviour: a shift by a negative number or a division by 0.
use freedom_metal.Prelude.{
  ℕ, ◌+◌, ◌-◌, ◌*◌, ◌/◌, ◌%◌, ◌^◌, min, Bool, true, false, Option, none, some, ◌>>=◌, ltb, leb,
  ◌==◌, if◌then◌else◌, bit_and, bit_or,
}
use freedom_metal.Prelude.Bits.{complement}
use freedom_metal.Prelude.Machine.{Registers}
use freedom_metal.Pll.{get_field}
mod Masks
mod Level
mod Vectored
mod Config
pub mod Control
mod Timer
mod Dispatch
mod Examples

pub data Reg : Type 0 where
  cliccfg : Reg
  intctl : ℕ → Reg
  intie : ℕ → Reg
  intip : ℕ → Reg

-- METAL_CLIC_MAX_NLBITS
abbrev pub max_nlbits : ℕ
max_nlbits = 8

-- struct __metal_clic_cfg
pub record Cfg : Type 0 where
  pub nmbits : ℕ
  pub nlbits : ℕ
  pub nvbit : ℕ

-- __METAL_GET_FIELD of a mask that may be 0
abbrev pub get_field? : ℕ → ℕ → Option ℕ
get_field? reg m = if m == 0 then none else some (get_field reg m)

-- The bits of a byte below its highest `above` bits, of which the lowest `below` are left out.
abbrev pub byte_mask : ℕ → ℕ → ℕ
byte_mask above below = complement 8 (bit_or below (complement 8 (255 / 2 ^ above)))

-- `((1 << n) - 1) << (8 - (above + n))` in a byte
abbrev pub shifted_ones : ℕ → ℕ → Option ℕ
shifted_ones above n =
    if ltb 8 (above + n) then none else some ((2 ^ n - 1) * 2 ^ (8 - (above + n)) % 2 ^ 8)

module _ (regs : Registers Reg) (num_intbits num_subinterrupts : ℕ) where
  -- The fields of cliccfg.
  unfoldable pub fields : ℕ → Cfg
  fields val = record {
    nmbits = bit_and val 0x60 / 2 ^ 5;
    nlbits = bit_and val 0x1E / 2 ^ 1;
    nvbit = bit_and val 0x01;
  }

  unfoldable pub configuration : Option Cfg → regs.State → Cfg × regs.State
  configuration none s = (fields (regs.read s cliccfg), s)
  configuration (some cfg) s =
      let val = bit_or (bit_or (cfg.nmbits * 2 ^ 5) (cfg.nlbits * 2 ^ 1)) cfg.nvbit % 2 ^ 8 in
      let written = regs.write s cliccfg val in (fields (regs.read written cliccfg), written)

  abbrev pub current : regs.State → Cfg
  current s = (configuration none s).0

  pub interrupt_set_mode : ℕ → ℕ → regs.State → regs.State
  interrupt_set_mode id mode s =
      let cfg = current s in
      let mask = 255 / 2 ^ cfg.nmbits in
      let val = bit_and (regs.read s (intctl id)) mask in
      if leb (cfg.nmbits * 2) mode
      then s
      else regs.write s (intctl id) (bit_or val (mode * 2 ^ (8 - cfg.nmbits)) % 2 ^ 8)

  -- `val &= ~mask`, and `val | (value & mask)` is written.
  abbrev pub replace : ℕ → ℕ → ℕ → regs.State → regs.State
  replace id mask value s =
      let val = bit_and (regs.read s (intctl id)) (complement 8 mask) in
      regs.write s (intctl id) (bit_or val (bit_and value mask))

  unfoldable pub interrupt_set_level : ℕ → ℕ → regs.State → regs.State
  interrupt_set_level id level s =
      let cfg = current s in
      replace id (byte_mask cfg.nmbits (255 / 2 ^ (cfg.nmbits + cfg.nlbits))) level s

  -- The number of bits of a level that get_level goes by.
  abbrev pub level_bits : Cfg → ℕ
  level_bits cfg =
      if leb num_intbits (cfg.nmbits + cfg.nlbits)
      then num_intbits - cfg.nmbits
      else min (num_intbits - cfg.nmbits) cfg.nlbits

  unfoldable pub interrupt_get_level : ℕ → regs.State → Option ℕ
  interrupt_get_level id s =
      let cfg = current s in
      let bits = level_bits cfg in
      let freebits = 255 / 2 ^ bits in
      shifted_ones cfg.nmbits bits >>= (λ mask.
        if mask == 0
        then some 255
        else some (
            bit_or (get_field (regs.read s (intctl id)) mask % 2 ^ 8 * 2 ^ (max_nlbits - bits))
              freebits))

  unfoldable pub interrupt_set_priority : ℕ → ℕ → regs.State → regs.State
  interrupt_set_priority id priority s =
      let cfg = current s in
      let used = cfg.nmbits + cfg.nlbits in
      let npbits = num_intbits - used in
      let changed = replace id (byte_mask used (255 / 2 ^ (used + npbits))) priority s in
      if leb used num_intbits then changed else s

  -- A number of bits below 0 wraps around in a byte, and the shift by it is undefined.
  unfoldable pub interrupt_get_priority : ℕ → regs.State → Option ℕ
  interrupt_get_priority id s =
      let cfg = current s in
      let bits =
        if leb num_intbits (cfg.nmbits + cfg.nlbits)
        then (num_intbits + 2 ^ 8 - cfg.nmbits) % 2 ^ 8
        else cfg.nlbits in
      let freebits = 255 / 2 ^ bits in
      shifted_ones cfg.nmbits bits
      >>= (λ mask. if mask == 0 then some 255 else get_field? (regs.read s (intctl id)) freebits)

  -- `1 << (8 - num_intbits)` in a byte
  abbrev pub vector_bit : Option ℕ
  vector_bit = if ltb 8 num_intbits then none else some (2 ^ (8 - num_intbits) % 2 ^ 8)

  unfoldable pub interrupt_set_vector_mode : ℕ → Bool → regs.State → Option regs.State
  interrupt_set_vector_mode id enable s =
      let val = regs.read s (intctl id) in
      vector_bit >>= (λ mask. some (
        regs.write s (intctl id)
          (if enable then bit_or val mask else bit_and val (complement 8 mask))))

  unfoldable pub interrupt_is_vectored : ℕ → regs.State → Option ℕ
  interrupt_is_vectored id s = vector_bit >>= (λ mask. get_field? (regs.read s (intctl id)) mask)

  unfoldable pub interrupt_enable : ℕ → regs.State → regs.State
  interrupt_enable id s = regs.write s (intie id) 1

  unfoldable pub interrupt_disable : ℕ → regs.State → regs.State
  interrupt_disable id s = regs.write s (intie id) 0

  pub interrupt_is_enabled : ℕ → regs.State → ℕ
  interrupt_is_enabled id s = if leb num_subinterrupts id then 0 else regs.read s (intie id)

  pub interrupt_is_pending : ℕ → regs.State → ℕ
  interrupt_is_pending id s = if leb num_subinterrupts id then 0 else regs.read s (intip id)

  pub interrupt_set : ℕ → regs.State → regs.State
  interrupt_set id s = if ltb id num_subinterrupts then regs.write s (intip id) 1 else s

  pub interrupt_clear : ℕ → regs.State → regs.State
  interrupt_clear id s = if ltb id num_subinterrupts then regs.write s (intip id) 0 else s

  unfoldable pub configure_set_privilege : ℕ → regs.State → regs.State
  configure_set_privilege priv s =
      (configuration (some (record (current s) { nmbits = priv % 2 ^ 2 })) s).1

  unfoldable pub configure_get_privilege : regs.State → ℕ
  configure_get_privilege s = (current s).nmbits

  unfoldable pub configure_set_level : ℕ → regs.State → regs.State
  configure_set_level level s =
      (configuration (some (record (current s) { nlbits = bit_and level 0xF })) s).1

  unfoldable pub configure_get_level : regs.State → ℕ
  configure_get_level s = (current s).nlbits

  unfoldable pub set_preemptive_level : ℕ → ℕ → regs.State → regs.State
  set_preemptive_level id level s = interrupt_set_priority id level (interrupt_set_level id level s)
