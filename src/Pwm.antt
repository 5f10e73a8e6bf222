-- ===== src/Pwm.antt =====
-- src/drivers/sifive_pwm0.c: the pulse width modulator, over its 32-bit registers. The device that a
-- function is given is not null.
use freedom_metal.Prelude.{
  ℕ, zero, suc, ◌+◌, ◌-◌, ◌*◌, ◌/◌, ◌%◌, ◌^◌, Bool, true, false, not, Option, none, some, ◌==◌,
  ◌||◌, ◌&&◌, ltb, leb, if◌then◌else◌, ◌>>=◌, bit_and, bit_or,
}
use freedom_metal.Prelude.Machine.{Registers, set_bits, clear_bits}
use freedom_metal.Clock.{MetalClock, Heap}
use freedom_metal.Uart.Api.{Places, attach, enable}
mod Search
mod Freq
mod Duty
mod Examples

-- The comparators by their number.
pub data Reg : Type 0 where
  pwmcfg : Reg
  pwmcmp : ℕ → Reg

abbrev pub sticky : ℕ
sticky = 2 ^ 8

abbrev pub zerocmp : ℕ
zerocmp = 2 ^ 9

abbrev pub deglitch : ℕ
deglitch = 2 ^ 10

abbrev pub enalways : ℕ
enalways = 2 ^ 12

abbrev pub enoneshot : ℕ
enoneshot = 2 ^ 13

-- METAL_PWMCFG_CMPCENTER and METAL_PWMCFG_CMPIP, in a register of 32 bits
abbrev pub cmpcenter : ℕ → ℕ
cmpcenter x = 2 ^ (16 + x) % 2 ^ 32

abbrev pub cmpip : ℕ → ℕ
cmpip x = 2 ^ (28 + x) % 2 ^ 32

abbrev pub max_duty : ℕ
max_duty = 100

abbrev pub max_prescale : ℕ
max_prescale = 15

abbrev pub ret_err : ℕ
ret_err = 0xFFFFFFFF

-- What is constant of the board: whether the address of the device is not 0, the bits of a
-- comparator, and their number.
pub record Wiring : Type 0 where
  pub present : Bool
  pub compare_width : ℕ
  pub comparator_count : ℕ

-- The count for a frequency, and the prescaler, from a prescaler on that `left` more follow. The
-- last test raises the prescaler too.
unfoldable pub search : ℕ → ℕ → ℕ → ℕ → ℕ → ℕ × ℕ
search clock_rate freq max_count zero prescale =
    let count = clock_rate / 2 ^ prescale / freq in
    (count, if ltb max_count count then prescale + 1 else prescale)
search clock_rate freq max_count (suc left) prescale =
    let count = clock_rate / 2 ^ prescale / freq in
    let rest = search clock_rate freq max_count left (prescale + 1) in
    if ltb max_count count then rest else (count, prescale)

module _ (regs : Registers Reg) where
  -- struct __metal_driver_sifive_pwm0, but for its two callbacks, and the registers
  pub record Pwm : Type 0 where
    pub max_count : ℕ
    pub count_val : ℕ
    pub freq : ℕ
    pub duty : ℕ → ℕ
    pub io : regs.State

  abbrev pub set_io : Pwm → regs.State → Pwm
  set_io u s = record u { io = s }

  -- METAL_PWM_GETCMPVAL
  unfoldable pub getcmpval : ℕ → Pwm → ℕ
  getcmpval duty u = duty * u.count_val % 2 ^ 32 / 100

  -- The result, and the device: `enable_io` of the pins' controller is for where there is one.
  unfoldable pub pwm_enable :
      {Pins : Type 0} → Wiring → Option (Pins → Pins) → Pwm × Pins → ℕ × Pwm × Pins
  pwm_enable board pinmux (u, pins) =
      if board.present
      then (
        0,
        record u {
          max_count = (2 ^ board.compare_width - 1) % 2 ^ 32;
          freq = 0;
          count_val = 0;
          io = regs.write u.io pwmcfg 0;
        },
        enable pinmux pins,
      )
      else (ret_err, u, pins)

  unfoldable pub pwm_disable : {Pins : Type 0} → Option (Pins → Pins) → Pins → ℕ × Pins
  pwm_disable pinmux pins = (0, enable pinmux pins)

  -- The frequency of a clock of `clock_rate`. A division by 0 is undefined.
  unfoldable pub set_count : ℕ → ℕ → Pwm → Option Pwm
  set_count clock_rate freq u =
      let (count, prescale) = search clock_rate freq u.max_count max_prescale 0 in
      if (freq == 0) || (count == 0)
      then none
      else some (record u {
        freq = clock_rate / 2 ^ prescale / count;
        count_val = count - 1;
        io = set_bits regs (regs.write u.io (pwmcmp 0) (count - 1)) pwmcfg (bit_and prescale 0x0F);
      })

  -- The device, and the memory of the clock's callbacks.
  pub record Board : Type 0 where
    pub pwm : Pwm
    pub heap : Heap

  -- With the clock and its rate, where there is one. The clock's lists are returned with it.
  unfoldable pub set_freq :
      ℕ
      → Wiring
      → Places
      → Option (MetalClock × ℕ)
      → ℕ
      → ℕ
      → Board
      → Option (ℕ × Option MetalClock × Board)
  set_freq fuel board at none idx freq b = some (ret_err, none, b)
  set_freq fuel board at (some (clk, clock_rate)) idx freq b =
      if ltb idx board.comparator_count
      then (if b.pwm.freq == 0 then attach fuel at (clk, b.heap) else some (clk, b.heap))
        >>= (λ (clk', h).
            set_count clock_rate freq b.pwm
            >>= (λ u. some (0, some clk', record { pwm = u; heap = h })))
      else some (ret_err, some clk, b)

  unfoldable pub set_duty : Wiring → ℕ → ℕ → Bool → Pwm → ℕ × Pwm
  set_duty board idx duty phase_correct u =
      if ltb 0 idx && (ltb idx board.comparator_count && leb duty max_duty)
      then (let compared = regs.write u.io (pwmcmp idx) (getcmpval duty u) in
          (
            0,
            record u {
              duty = λ i. if i == idx then duty else u.duty i;
              io =
                  if phase_correct
                  then set_bits regs compared pwmcfg (cmpcenter idx)
                  else clear_bits regs 32 compared pwmcfg (cmpcenter idx);
            },
          ))
      else (ret_err, u)

  unfoldable pub get_duty : Wiring → ℕ → Pwm → ℕ
  get_duty board idx u = if ltb 0 idx && ltb idx board.comparator_count then u.duty idx else 0

  unfoldable pub get_freq : ℕ → Pwm → ℕ
  get_freq idx u = u.freq

  -- The result and the device. The index is not used.
  unfoldable pub trigger : Wiring → ℕ → Bool → Pwm → ℕ × Pwm
  trigger board idx continuous u =
      let mode = if continuous then enalways else enoneshot in
      if board.present
      then (0, set_io u (set_bits regs u.io pwmcfg (bit_or (bit_or deglitch zerocmp) mode)))
      else (ret_err, u)

  unfoldable pub stop : Wiring → ℕ → Pwm → ℕ × Pwm
  stop board idx u =
      if board.present
      then (0, set_io u (clear_bits regs 32 u.io pwmcfg enalways))
      else (ret_err, u)

  unfoldable pub cfg_interrupt : Wiring → Bool → Pwm → ℕ × Pwm
  cfg_interrupt board on u =
      if board.present
      then (
        0,
        set_io u (
            if on then set_bits regs u.io pwmcfg sticky else clear_bits regs 32 u.io pwmcfg sticky),
      )
      else (ret_err, u)

  unfoldable pub clr_interrupt : Wiring → ℕ → Pwm → ℕ × Pwm
  clr_interrupt board idx u =
      if board.present && ltb idx board.comparator_count
      then (0, set_io u (clear_bits regs 32 u.io pwmcfg (cmpip idx)))
      else (ret_err, u)

  -- pre_rate_change_callback
  unfoldable pub pre_rate_change : Wiring → Pwm → Pwm
  pre_rate_change board u = (stop board 0 u).1

  -- The loop over the comparators, of which `n` are left, from `idx` on.
  unfoldable pub restore_duties : ℕ → ℕ → Pwm → Pwm
  restore_duties zero idx u = u
  restore_duties (suc n) idx u = restore_duties n (idx + 1) (
      if u.duty idx == 0
      then u
      else set_io u (regs.write u.io (pwmcmp idx) (getcmpval (u.duty idx) u)))

  -- post_rate_change_callback, with the rate of the clock: the frequency is not 0, so that set_freq
  -- registers nothing. Where there is no comparator set_freq fails.
  unfoldable pub post_rate_change : Wiring → ℕ → Pwm → Option Pwm
  post_rate_change board clock_rate u =
      let changed = if board.comparator_count == 0 then some u else set_count clock_rate u.freq u in
      if u.freq == 0
      then some u
      else changed >>= (λ u'. some (restore_duties (board.comparator_count - 1) 1 u'))
