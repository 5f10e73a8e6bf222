-- ===== src/Gpio.antt =====
-- src/drivers/sifive_gpio0.c and metal/gpio.h: the pins, over 32-bit registers. A `long` and an `int` are
-- their pattern of 32 bits, and `none` is undefined behaviour: a shift of 1 by 32 or more.
use freedom_metal.Prelude.{
  ℕ, ◌*◌, ◌^◌, Option, none, some, ◌>>=◌, ◌==◌, if◌then◌else◌, bit_and, bit_or, bit_xor,
}
use freedom_metal.Prelude.Machine.{Registers, set_bits, clear_bits, shift_int}
mod Pins
mod Interrupts
mod Examples

pub data Reg : Type 0 where
  value : Reg
  input_en : Reg
  output_en : Reg
  port : Reg
  rise_ie : Reg
  rise_ip : Reg
  fall_ie : Reg
  fall_ip : Reg
  high_ie : Reg
  high_ip : Reg
  low_ie : Reg
  low_ip : Reg
  iof_en : Reg
  iof_sel : Reg

-- The METAL_GPIO_INT_ constants, and any other number.
pub data IntType : Type 0 where
  int_disable : IntType
  rising : IntType
  falling : IntType
  both_edge : IntType
  high : IntType
  low : IntType
  both_level : IntType
  int_max : IntType
  other_type : IntType

module _ (regs : Registers Reg) where
  unfoldable pub enable_input : ℕ → regs.State → regs.State
  enable_input source s = set_bits regs s input_en source

  unfoldable pub disable_input : ℕ → regs.State → regs.State
  disable_input source s = clear_bits regs 32 s input_en source

  unfoldable pub enable_output : ℕ → regs.State → regs.State
  enable_output source s = set_bits regs s output_en source

  unfoldable pub disable_output : ℕ → regs.State → regs.State
  disable_output source s = clear_bits regs 32 s output_en source

  unfoldable pub output_set : ℕ → regs.State → regs.State
  output_set source s = set_bits regs s port source

  unfoldable pub output_clear : ℕ → regs.State → regs.State
  output_clear source s = clear_bits regs 32 s port source

  unfoldable pub output_toggle : ℕ → regs.State → regs.State
  output_toggle source s = regs.write s port (bit_xor (regs.read s port) source)

  unfoldable pub enable_io : ℕ → ℕ → regs.State → regs.State
  enable_io source dest s = set_bits regs (set_bits regs s iof_sel source) iof_en dest

  unfoldable pub disable_io : ℕ → regs.State → regs.State
  disable_io source s = clear_bits regs 32 s iof_en source

  abbrev pub set_two : Reg → Reg → ℕ → regs.State → regs.State
  set_two a b source s = set_bits regs (set_bits regs s a source) b source

  abbrev pub clear_two : Reg → Reg → ℕ → regs.State → regs.State
  clear_two a b source s = clear_bits regs 32 (clear_bits regs 32 s a source) b source

  unfoldable pub config_int : ℕ → IntType → regs.State → regs.State
  config_int source int_disable s =
      clear_two high_ie low_ie source (clear_two rise_ie fall_ie source s)
  config_int source rising s = set_bits regs s rise_ie source
  config_int source falling s = set_bits regs s fall_ie source
  config_int source both_edge s = set_two rise_ie fall_ie source s
  config_int source high s = set_bits regs s high_ie source
  config_int source low s = set_bits regs s low_ie source
  config_int source both_level s = set_two high_ie low_ie source s
  config_int source int_max s = set_two high_ie low_ie source (set_two rise_ie fall_ie source s)
  config_int source other_type s = s

  unfoldable pub clear_int : ℕ → IntType → regs.State → regs.State
  clear_int source int_disable s = s
  clear_int source rising s = set_bits regs s rise_ip source
  clear_int source falling s = set_bits regs s fall_ip source
  clear_int source both_edge s = set_two rise_ip fall_ip source s
  clear_int source high s = set_bits regs s high_ip source
  clear_int source low s = set_bits regs s low_ip source
  clear_int source both_level s = set_two high_ip low_ip source s
  clear_int source int_max s = set_two high_ip low_ip source (set_two rise_ip fall_ip source s)
  clear_int source other_type s = s

  -- The functions of metal/gpio.h on a handle, `none` a null one: the result and the registers.
  unfoldable pub on_pin :
      (ℕ → regs.State → regs.State) → Option regs.State → ℕ → Option (ℕ × Option regs.State)
  on_pin f none pin = some (1, none)
  on_pin f (some s) pin = shift_int 1 pin >>= (λ source. some (0, some (f source s)))

  pub metal_gpio_enable_input : Option regs.State → ℕ → Option (ℕ × Option regs.State)
  metal_gpio_enable_input gpio pin = on_pin enable_input gpio pin

  pub metal_gpio_disable_input : Option regs.State → ℕ → Option (ℕ × Option regs.State)
  metal_gpio_disable_input gpio pin = on_pin disable_input gpio pin

  pub metal_gpio_enable_output : Option regs.State → ℕ → Option (ℕ × Option regs.State)
  metal_gpio_enable_output gpio pin = on_pin enable_output gpio pin

  pub metal_gpio_disable_output : Option regs.State → ℕ → Option (ℕ × Option regs.State)
  metal_gpio_disable_output gpio pin = on_pin disable_output gpio pin

  unfoldable pub metal_gpio_set_pin : Option regs.State → ℕ → ℕ → Option (ℕ × Option regs.State)
  metal_gpio_set_pin gpio pin level =
      if level == 0 then on_pin output_clear gpio pin else on_pin output_set gpio pin

  -- A pin of a register, and 0 of a null handle.
  unfoldable pub pin_of : Reg → Option regs.State → ℕ → Option ℕ
  pin_of r none pin = some 0
  pin_of r (some s) pin =
      shift_int 1 pin >>= (λ source. some (if bit_and (regs.read s r) source == 0 then 0 else 1))

  pub metal_gpio_get_input_pin : Option regs.State → ℕ → Option ℕ
  metal_gpio_get_input_pin gpio pin = pin_of value gpio pin

  unfoldable pub metal_gpio_get_output_pin : Option regs.State → ℕ → Option ℕ
  metal_gpio_get_output_pin gpio pin = pin_of port gpio pin

  pub metal_gpio_clear_pin : Option regs.State → ℕ → Option (ℕ × Option regs.State)
  metal_gpio_clear_pin gpio pin = on_pin output_clear gpio pin

  pub metal_gpio_toggle_pin : Option regs.State → ℕ → Option (ℕ × Option regs.State)
  metal_gpio_toggle_pin gpio pin = on_pin output_toggle gpio pin

  unfoldable pub metal_gpio_enable_pinmux :
      Option regs.State → ℕ → ℕ → Option (ℕ × Option regs.State)
  metal_gpio_enable_pinmux gpio pin io_function = elim gpio [
    | none ↦ some (1, none)
    | some s ↦
        shift_int io_function pin
        >>= (λ dest. on_pin (λ source. enable_io source dest) (some s) pin)
  ]

  pub metal_gpio_disable_pinmux : Option regs.State → ℕ → Option (ℕ × Option regs.State)
  metal_gpio_disable_pinmux gpio pin = on_pin disable_io gpio pin

  pub metal_gpio_config_interrupt : Option regs.State → ℕ → IntType → Option (ℕ × Option regs.State)
  metal_gpio_config_interrupt gpio pin intr_type =
      on_pin (λ source. config_int source intr_type) gpio pin

  unfoldable pub metal_gpio_clear_interrupt :
      Option regs.State → ℕ → IntType → Option (ℕ × Option regs.State)
  metal_gpio_clear_interrupt gpio pin intr_type =
      on_pin (λ source. clear_int source intr_type) gpio pin
