-- ===== src/Gpio/Examples.antt =====
-- Pins over words, and the theorems about metal/gpio.h at them.
use freedom_metal.Prelude.{ℕ, ◌%◌, ◌^◌, ◌≡◌, refl, some, ◌==◌, if◌then◌else◌, arith, bit_and}
use freedom_metal.Prelude.Bits.{complement, bit_and-lt}
use freedom_metal.Prelude.Machine.{Registers}
use freedom_metal.Gpio.{
  Reg, value, input_en, output_en, port, rise_ie, rise_ip, fall_ie, fall_ip, high_ie, high_ip,
  low_ie, low_ip, iof_en, iof_sel, metal_gpio_set_pin, metal_gpio_get_output_pin,
}
use freedom_metal.Gpio.Pins.{IsGpio, set_pin-get}
use freedom_metal.Gpio.Interrupts.{IsPending}

abbrev code : Reg → ℕ
code value = 0
code input_en = 1
code output_en = 2
code port = 3
code rise_ie = 4
code rise_ip = 5
code fall_ie = 6
code fall_ip = 7
code high_ie = 8
code high_ip = 9
code low_ie = 10
code low_ip = 11
code iof_en = 12
code iof_sel = 13

-- A 1 that is written to a pending edge clears it.
abbrev words : Registers Reg
words = record {
  State = ℕ → ℕ;
  read = λ s r. s (code r) % 2 ^ 32;
  write = λ s a v. λ n.
      if n == code a
      then (if code a == 5 then bit_and (s 5 % 2 ^ 32) (complement 32 v) else v)
      else s n;
}

words-IsGpio : IsGpio words
words-IsGpio = record {
  port_back = λ s v small. omega (arith, small);
  en_back = λ s v small. omega (arith, small);
  sel_back = λ s v small. omega (arith, small);
  apart = λ s v. (refl, refl);
  fits = λ s r. omega arith;
}

words-IsPending : IsPending words
words-IsPending = record {
  cleared =
      λ s v small. omega (arith, bit_and-lt 32 (s 5 % 2 ^ 32) (complement 32 v) (omega arith));
  fits = λ s r. omega arith;
}

-- Pins 1 and 3 are high, edges of them are pending, and other registers are so too.
abbrev start : ℕ → ℕ
start n = 10

set_pin-get_example :
    (after : ℕ → ℕ) × (metal_gpio_set_pin words (some start) 3 0 ≡ some (0, some after))
    × (metal_gpio_get_output_pin words (some after) 1 ≡ (
        if 1 == 3
        then some (if 0 == 0 then 0 else 1)
        else metal_gpio_get_output_pin words (some start) 1))
set_pin-get_example = set_pin-get words words-IsGpio start 3 1 0 (omega arith) (omega arith)
