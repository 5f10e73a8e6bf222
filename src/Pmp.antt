-- ===== src/Pmp.antt =====
-- src/pmp.c and metal/pmp.h: physical memory protection. The CSRs are the registers of a hart that
-- is a parameter; `none` is behaviour that C leaves undefined.
pub mod Mode
pub mod Api
mod Lanes
pub mod Regions
pub mod Granularity
pub mod Rv64
pub mod Calls
pub mod Locking
mod Examples
use freedom_metal.Prelude.{
  ℕ, zero, suc, ◌+◌, ◌-◌, ◌*◌, ◌/◌, ◌%◌, ◌^◌, ◌≤◌, ◌<◌, ◌≡◌, Bool, true, false, not, ◌&&◌, ◌||◌,
  Option, none, some, ◌>>=◌, ltb, leb, ◌==◌, if◌then◌else◌,
}
use freedom_metal.Prelude.Machine.{Registers, set_bits, clear_bits, shift_int, int_to_size}

pub data Csr : Type 0 where
  pmpaddr : ℕ → Csr
  pmpcfg : ℕ → Csr

pub data Xlen : Type 0 where
  rv32 rv64 : Xlen

abbrev pub width : Xlen → ℕ
width rv32 = 32
width rv64 = 64

-- Regions to one pmpcfg register: its bytes.
abbrev pub lanes : Xlen → ℕ
lanes rv32 = 4
lanes rv64 = 8

-- What the code calls and does not implement: `__riscv_xlen`, the hart's CSRs, the current hart's
-- number and `__metal_driver_cpu_num_pmp_regions` of the generated headers.
pub record Hart : Type 1 where
  pub xlen : Xlen
  pub csrs : Registers Csr
  pub current_hartid : ℕ
  pub num_pmp_regions : ℕ → ℕ

-- enum metal_pmp_locked
abbrev pub unlocked : ℕ
unlocked = 0

abbrev pub locked : ℕ
locked = 1

-- struct metal_pmp_config, each bit field by its bits
pub record Config : Type 0 where
  pub r : ℕ
  pub w : ℕ
  pub x : ℕ
  pub a : ℕ
  pub pad : ℕ
  pub l : ℕ

-- CONFIG_TO_INT: the first byte of the struct
pub config_to_int : Config → ℕ
config_to_int c = c.r + 2 * c.w + 4 * c.x + 8 * c.a + 32 * c.pad + 128 * c.l

-- INT_TO_CONFIG
pub int_to_config : ℕ → Config
int_to_config b = record {
  r = b % 2;
  w = b / 2 % 2;
  x = b / 4 % 2;
  a = b / 8 % 4;
  pad = b / 32 % 4;
  l = b / 128 % 2;
}

-- The index of the lowest 1 bit from `index` up, with fuel for the bits of the word; `none` past
-- the word, where the shift is undefined.
pub lowest_one : ℕ → ℕ → ℕ → Option ℕ
lowest_one zero address index = none
lowest_one (suc fuel) address index =
    let rest = lowest_one fuel address (index + 1) in
    if address / 2 ^ index % 2 == 0 then rest else some index

-- The index of the lowest 0 bit.
pub lowest_zero : ℕ → ℕ → ℕ → Option ℕ
lowest_zero zero address index = none
lowest_zero (suc fuel) address index =
    let rest = lowest_zero fuel address (index + 1) in
    if address / 2 ^ index % 2 == 1 then rest else some index

-- What metal_pmp_get_region leaves: its return code and its two out parameters.
pub record Reading : Type 0 where
  pub rc : ℕ
  pub config : Config
  pub address : ℕ

module _ (hart : Hart) where
  open hart use {xlen, csrs, current_hartid, num_pmp_regions}

  -- The device, `struct metal_pmp`, and the CSRs of the current hart.
  pub record Pmp : Type 0 where
    pub granularity : ℕ → ℕ
    pub regs : csrs.State

  pub get_detected_granularity : ℕ → Option ℕ
  get_detected_granularity address = if address == 0 then some (2 ^ width xlen - 1) else do
    index ← lowest_one (width xlen) address 0
    granularity ← shift_int 1 (index + 2)
    some (int_to_size (width xlen) granularity)

  pub get_pmpaddr_granularity : ℕ → Option ℕ
  get_pmpaddr_granularity address = do
    index ← lowest_zero (width xlen) address 0
    granularity ← shift_int 1 (index + 3)
    some (int_to_size (width xlen) granularity)

  pub pmp_regions : ℕ
  pmp_regions = num_pmp_regions current_hartid

  -- The register that the switch on `region / lanes` names, if it has a case for it.
  pub config_csr : ℕ → Option Csr
  config_csr region = elim xlen [
    | rv32 ↦ if ltb (region / 4) 4 then some (pmpcfg (region / 4)) else none
    | rv64 ↦ if ltb (region / 8) 2 then some (pmpcfg (2 * (region / 8))) else none
  ]

  pub read_config : ℕ → csrs.State → ℕ
  read_config region s =
      let word : ℕ = elim (config_csr region) [ none ↦ 0 | some c ↦ csrs.read s c ] in
      word / 2 ^ (8 * (region % lanes xlen)) % 2 ^ 8

  -- `*address` keeps what it held where the switch has no case.
  pub read_address : ℕ → ℕ → csrs.State → ℕ
  read_address region held s = if ltb region 16 then csrs.read s (pmpaddr region) else held

  -- `pmp` and `out` say whether the handle, and both out pointers, are not NULL; `held` is what the
  -- out parameters hold before the call.
  pub get_region : Bool → ℕ → Bool → Reading → Pmp → Reading
  get_region pmp region out held p =
      if not pmp || not out
      then record held { rc = 1 }
      else if ltb pmp_regions region
      then record held { rc = 2 }
      else record {
        rc = 0;
        config = int_to_config (read_config region p.regs);
        address = read_address region held.address p.regs;
      }

  pub write_address : ℕ → ℕ → ℕ → csrs.State → csrs.State
  write_address region old new s =
      if old == new then s else if ltb region 16 then csrs.write s (pmpaddr region) new else s

  -- `csrc` with the mask, then `csrs` with the configuration
  pub replace_config : ℕ → ℕ → ℕ → csrs.State → csrs.State
  replace_config region mask config s = elim (config_csr region) [
    | none ↦ s
    | some c ↦ set_bits csrs (clear_bits csrs (width xlen) s c mask) c config
  ]

  pub write_config : ℕ → Config → Config → csrs.State → Option csrs.State
  write_config region old new s = if config_to_int old == config_to_int new then some s else do
    mask ← shift_int 0xff (8 * (region % lanes xlen))
    config ← shift_int (config_to_int new) (8 * (region % lanes xlen))
    some (replace_config region (int_to_size (width xlen) mask) (int_to_size (width xlen) config) s)

  -- The two tests of the granularity, each made only in its mode.
  pub too_fine : Config → ℕ → Pmp → Option Bool
  too_fine config address p =
      let held = p.granularity current_hartid in
      if config.a == Mode.na4 && ltb 4 held
      then some true
      else if config.a == Mode.napot
      then get_pmpaddr_granularity address >>= (λ granularity. some (ltb granularity held))
      else some false

  -- The part of metal_pmp_set_region after the reading of the old region.
  pub update_region : ℕ → Config → ℕ → Reading → Pmp → Option (ℕ × Pmp)
  update_region region config address old p =
      if not (old.rc == 0)
      then some (old.rc, p)
      else if old.config.l == locked
      then some (4, p)
      else do
        regs ←
            write_config region old.config config (write_address region old.address address p.regs)
        some (0, record p { regs = regs })

  -- `held` is what the uninitialised locals hold.
  pub set_region : Bool → ℕ → Config → ℕ → Reading → Pmp → Option (ℕ × Pmp)
  set_region pmp region config address held p =
      if not pmp then some (1, p) else if ltb pmp_regions region then some (2, p) else do
        fine ← too_fine config address p
        if fine
            then some (3, p)
            else update_region region config address (get_region pmp region true held p) p
