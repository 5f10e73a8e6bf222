-- ===== src/Watchdog.antt =====
-- src/drivers/sifive_wdog0.c: the watchdog, over its 32-bit registers. Rates and timeouts are not
-- negative.
use freedom_metal.Prelude.{
  ℕ, zero, suc, ◌+◌, ◌-◌, ◌*◌, ◌/◌, ◌^◌, Bool, true, false, Option, none, some, ◌==◌, ltb, leb,
  if◌then◌else◌, bit_and, bit_or,
}
use freedom_metal.Prelude.Machine.{Registers, set_bits, clear_bits}
use freedom_metal.Prelude.Bits.{complement}
mod Closest
mod Rate
mod Examples

pub data Reg : Type 0 where
  wdogcfg : Reg
  wdogfeed : Reg
  wdogkey : Reg
  wdogcmp : Reg

abbrev pub scale_mask : ℕ
scale_mask = 7

abbrev pub rsten : ℕ
rsten = 2 ^ 8

abbrev pub wdog_zerocmp : ℕ
wdog_zerocmp = 2 ^ 9

abbrev pub wdog_enalways : ℕ
wdog_enalways = 2 ^ 12

abbrev pub coreawake : ℕ
coreawake = 2 ^ 13

abbrev pub wdog_ip : ℕ
wdog_ip = 2 ^ 28

abbrev pub cmp_mask : ℕ
cmp_mask = 0xFFFF

-- The last of each stands for the values that the enumeration does not have.
pub data Result : Type 0 where
  no_result : Result
  interrupt : Result
  full_reset : Result
  other_result : Result

pub data RunOption : Type 0 where
  stop_wdog : RunOption
  run_always : RunOption
  run_awake : RunOption
  other_option : RunOption

abbrev pub distance : ℕ → ℕ → ℕ
distance a b = a - b + (b - a)

-- The loop of set_rate over the scales, of which `n` are left, from `i` on: the least difference and
-- its scale.
unfoldable pub closest : ℕ → ℕ → ℕ → ℕ → ℕ → ℕ → ℕ × ℕ
closest clock_rate rate zero i min_diff min_scale = (min_diff, min_scale)
closest clock_rate rate (suc n) i min_diff min_scale =
    let diff = distance rate (clock_rate / 2 ^ i) in
    if ltb diff min_diff
    then closest clock_rate rate n (i + 1) diff i
    else closest clock_rate rate n (i + 1) min_diff min_scale

-- The magic words come from a header of the board.
module _ (regs : Registers Reg) (magic_key magic_food : ℕ) where
  abbrev pub unlock : regs.State → regs.State
  unlock s = regs.write s wdogkey magic_key

  -- `WDOG_UNLOCK_REGW(base, reg) &= ~bits` and `|= bits`
  abbrev pub unlock_clear : regs.State → Reg → ℕ → regs.State
  unlock_clear s r bits = clear_bits regs 32 (unlock s) r bits

  abbrev pub unlock_set : regs.State → Reg → ℕ → regs.State
  unlock_set s r bits = set_bits regs (unlock s) r bits

  unfoldable pub feed : regs.State → ℕ × regs.State
  feed s = (0, regs.write (unlock s) wdogfeed magic_food)

  -- `none` is -1.
  unfoldable pub get_rate : ℕ → regs.State → Option ℕ
  get_rate clock_rate s =
      if clock_rate == 0
      then none
      else some (clock_rate / 2 ^ bit_and (regs.read s wdogcfg) scale_mask)

  -- With LONG_MAX.
  unfoldable pub set_rate : ℕ → ℕ → ℕ → regs.State → ℕ × regs.State
  set_rate long_max clock_rate rate s =
      let min_scale = (closest clock_rate rate scale_mask 0 long_max 0).1 in
      let cleared = unlock_clear s wdogcfg scale_mask in
      if leb clock_rate rate
      then (clock_rate, cleared)
      else (clock_rate / 2 ^ min_scale, unlock_set cleared wdogcfg (bit_and scale_mask min_scale))

  unfoldable pub get_timeout : regs.State → ℕ
  get_timeout s = bit_and (regs.read s wdogcmp) cmp_mask

  unfoldable pub set_timeout : ℕ → regs.State → ℕ × regs.State
  set_timeout timeout s =
      let capped = if ltb cmp_mask timeout then cmp_mask else timeout in
      let cleared = bit_and (regs.read s wdogcmp) (complement 32 cmp_mask) in
      (capped, regs.write (unlock s) wdogcmp (bit_or cleared capped))

  unfoldable pub set_result : Result → regs.State → ℕ × regs.State
  set_result result s =
      let off = unlock_clear s wdogcfg (bit_or rsten wdog_zerocmp) in
      elim result [
        | no_result ↦ (0, off)
        | interrupt ↦ (0, unlock_set off wdogcfg wdog_zerocmp)
        | full_reset ↦ (0, unlock_set off wdogcfg rsten)
        | other_result ↦ (0, off)
      ]

  unfoldable pub run : RunOption → regs.State → ℕ × regs.State
  run option s =
      let off = unlock_clear s wdogcfg (bit_or wdog_enalways coreawake) in
      elim option [
        | stop_wdog ↦ (0, off)
        | run_always ↦ (0, unlock_set (feed off).1 wdogcfg wdog_enalways)
        | run_awake ↦ (0, unlock_set (feed off).1 wdogcfg coreawake)
        | other_option ↦ (0, off)
      ]

  unfoldable pub clear_interrupt : regs.State → ℕ × regs.State
  clear_interrupt s = (0, unlock_clear s wdogcfg wdog_ip)
