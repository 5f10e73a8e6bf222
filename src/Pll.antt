-- ===== src/Pll.antt =====
-- src/drivers/sifive_fe310-g000_pll.c: the PLL of the FE310-G000, a chip of 32 bits. Its two
-- registers and the time that passes are those of the hardware, a parameter.
mod Table
pub mod Fields
pub mod Rows
pub mod Configure
pub mod Wait
pub mod SetRate
pub mod Bypass
mod Examples
pub mod Search
mod Init
pub use Table.{PllConfig, pll_configs}
use freedom_metal.Prelude.{
  ℕ, zero, suc, ◌+◌, ◌-◌, ◌*◌, ◌/◌, ◌%◌, ◌^◌, ◌≤◌, ◌<◌, ◌≡◌, Bool, true, false, not, ◌&&◌, ◌||◌,
  Option, none, some, ◌>>=◌, List, ltb, leb, ◌==◌, if◌then◌else◌, get_elem?, length, bit_and,
}
use freedom_metal.Prelude.Bits.{complement}
use freedom_metal.Prelude.Machine.{Registers, set_bits, clear_bits}

-- The masks PLL_R to PLL_LOCK, DIV_DIV and DIV_1.
abbrev pub pll_r : ℕ
pll_r = 0x00000007

abbrev pub pll_f : ℕ
pll_f = 0x000003f0

abbrev pub pll_q : ℕ
pll_q = 0x00000c00

abbrev pub pll_sel : ℕ
pll_sel = 0x00010000

abbrev pub pll_refsel : ℕ
pll_refsel = 0x00020000

abbrev pub pll_bypass : ℕ
pll_bypass = 0x00040000

abbrev pub pll_lock : ℕ
pll_lock = 0x80000000

abbrev pub div_div : ℕ
div_div = 0x0000003f

abbrev pub div_1 : ℕ
div_1 = 0x00000100

abbrev pub long_max : ℕ
long_max = 2 ^ 31 - 1

-- get_pll_config_freq, in `unsigned long`; `none` is PLL_CONFIG_NOT_VALID.
pub get_pll_config_freq : ℕ → PllConfig → Option ℕ
get_pll_config_freq pll_input_rate config =
    if ltb pll_input_rate config.min_input_rate || ltb config.max_input_rate pll_input_rate
    then none
    else some (pll_input_rate * config.multiplier % 2 ^ 32 / config.divisor)

-- `labs(a - b)`
abbrev pub distance : ℕ → ℕ → ℕ
distance a b = (a - b) + (b - a)

-- closest_index, `none` for -1, and closest_diff
pub record Closest : Type 0 where
  pub index : Option ℕ
  pub diff : ℕ

-- The body of the loop of find_closest_config at index `i`.
pub consider : List PllConfig → ℕ → ℕ → ℕ → Closest → Closest
consider configs ref_hz rate i best = elim (get_elem? configs i) [
  | none ↦ best
  | some config ↦ elim (get_pll_config_freq ref_hz config) [
    | none ↦ best
    | some freq ↦
        if ltb (distance freq rate) best.diff
        then record { index = some i; diff = distance freq rate }
        else best
  ]
]

-- The loop, from `i - 1` down to 0.
pub closest_below : List PllConfig → ℕ → ℕ → ℕ → Closest → Closest
closest_below configs ref_hz rate zero best = best
closest_below configs ref_hz rate (suc i) best =
    closest_below configs ref_hz rate i (consider configs ref_hz rate i best)

pub find_closest_config : ℕ → ℕ → Option ℕ
find_closest_config ref_hz rate =
    (closest_below pll_configs ref_hz rate (length pll_configs)
      (record { index = none; diff = long_max })).index

-- __METAL_GET_FIELD
abbrev pub get_field : ℕ → ℕ → ℕ
get_field reg m = bit_and reg m / bit_and m (complement 32 (m * 2 % 2 ^ 32))

-- A product of two values of type `long`: an overflow is undefined.
abbrev pub mul_long : ℕ → ℕ → Option ℕ
mul_long a b = if ltb (a * b) (2 ^ 31) then some (a * b) else none

-- Whether the desired rate is within 75% to 125% of the input rate. The second product is formed
-- only where the first test passes.
pub near_input : ℕ → ℕ → Option Bool
near_input ref_hz rate = do
  three ← mul_long ref_hz 3
  if leb (three / 4) rate
      then mul_long ref_hz 5 >>= (λ five. some (leb rate (five / 4)))
      else some false

-- What get_rate_hz returns: a rate, its -1, or nothing, where a product overflows.
pub data Rate : Type 0 where
  hz : ℕ → Rate
  minus_one : Rate
  undefined : Rate

pub data PllReg : Type 0 where
  pllcfg plloutdiv : PllReg

-- The registers, the machine timer and the passing of time between two polls.
pub record Prci : Type 1 where
  pub regs : Registers PllReg
  pub mtime : regs.State → ℕ
  pub tick : regs.State → regs.State

-- PLL_LOCK_WAIT_TICKS
abbrev pub pll_lock_wait_ticks : ℕ
pll_lock_wait_ticks = 4

module _ (prci : Prci) where
  open prci use {regs, mtime, tick}

  -- The rate that the two registers stand for, given the rates of the two reference clocks.
  pub get_rate_hz : ℕ → ℕ → regs.State → Rate
  get_rate_hz pllref_hz pllsel0_hz s =
      let cfg : ℕ = regs.read s pllcfg in
      let div : ℕ = regs.read s plloutdiv in
      let ref_hz : ℕ = if get_field cfg pll_refsel == 0 then pllsel0_hz else pllref_hz in
      let div_r : ℕ = get_field cfg pll_r + 1 in
      let mul_f : ℕ = 2 * (get_field cfg pll_f + 1) in
      let div_q : ℕ = 2 ^ get_field cfg pll_q in
      if get_field cfg pll_sel == 0
      then hz pllsel0_hz
      else if not (get_field cfg pll_bypass == 0)
      then hz ref_hz
      else if get_field cfg pll_q == 0
      then minus_one
      else elim (mul_long (ref_hz / div_r) mul_f) [
        | none ↦ undefined
        | some product ↦
            if not (get_field div div_1 == 0)
            then hz (product / div_q)
            else hz (product / div_q / (2 * (get_field div div_div + 1)))
      ]

  -- A loop that polls the hardware until a test passes, with fuel.
  pub poll : ℕ → (regs.State → Bool) → regs.State → Option regs.State
  poll zero test s = none
  poll (suc fuel) test s = elim (test s) [ true ↦ some s | false ↦ poll fuel test (tick s) ]

  -- `reg &= ~m; reg |= v`
  pub replace : PllReg → ℕ → ℕ → regs.State → regs.State
  replace reg m v s = set_bits regs (clear_bits regs 32 s reg m) reg v

  -- What configure_pll writes before it waits.
  pub write_dividers : PllConfig → regs.State → regs.State
  write_dividers config s =
      let s_r = replace pllcfg pll_r (bit_and (config.r * 2 ^ 0) pll_r) s in
      let s_f = replace pllcfg pll_f (bit_and (config.f * 2 ^ 4) pll_f) s_r in
      let s_q = replace pllcfg pll_q (bit_and (config.q * 2 ^ 10) pll_q) s_f in
      let s_d : regs.State = elim config.d [
        | none ↦
            replace plloutdiv div_div (bit_and (1 * 2 ^ 0) div_div)
              (set_bits regs s_q plloutdiv div_1)
        | some d ↦
            replace plloutdiv div_div (bit_and (d * 2 ^ 0) div_div)
              (clear_bits regs 32 s_q plloutdiv div_1)
      ] in
      clear_bits regs 32 s_d pllcfg pll_bypass

  pub configure_pll : ℕ → PllConfig → regs.State → Option regs.State
  configure_pll fuel config s = do
    let written = write_dividers config s
    let mtime_end = mtime written + pll_lock_wait_ticks
    waited ← poll fuel (λ t. ltb mtime_end (mtime t)) written
    poll fuel (λ t. not (bit_and (regs.read t pllcfg) pll_lock == 0)) waited

  -- Switch off the PLL where the core runs on it.
  pub deselect : regs.State → regs.State
  deselect s =
      if bit_and (regs.read s pllcfg) pll_sel == 0 then s else clear_bits regs 32 s pllcfg pll_sel

  -- set_rate_hz up to its last write.
  pub reclock : ℕ → ℕ → ℕ → ℕ → regs.State → Option regs.State
  reclock fuel pllref_hz pllsel0_hz rate s =
      let off = deselect s in
      let ref_hz : ℕ =
        if bit_and (regs.read off pllcfg) pll_refsel == 0 then pllsel0_hz else pllref_hz in
      near_input ref_hz rate >>= λ near.
      if near
      then some (set_bits regs off pllcfg pll_bypass)
      else elim (find_closest_config ref_hz rate) [
        | none ↦ some (set_bits regs off pllcfg pll_bypass)
        | some i ↦ elim (get_elem? pll_configs i) [
          | none ↦ none
          | some config ↦ configure_pll fuel config off
        ]
      ]

  -- The new state, and the rate that is returned.
  pub set_rate_hz : ℕ → ℕ → ℕ → ℕ → regs.State → Option (regs.State × Rate)
  set_rate_hz fuel pllref_hz pllsel0_hz rate s = do
    clocked ← reclock fuel pllref_hz pllsel0_hz rate s
    let selected = set_bits regs clocked pllcfg pll_sel
    some (selected, get_rate_hz pllref_hz pllsel0_hz selected)
