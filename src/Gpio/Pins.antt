-- ===== src/Gpio/Pins.antt =====
-- The output of a pin, and its other function, in metal/gpio.h.
use freedom_metal.Prelude.{
  ℕ, zero, suc, sym, ◌*◌, ◌^◌, ◌≤◌, ◌<◌, ◌≡◌, ◌∙◌, refl, ap, some, ◌==◌, if◌then◌else◌, arith,
  bit_and, bit_or,
}
use freedom_metal.Prelude.Bits.{
  bit, bit_lem, bit-lt, bit-or, bit-and, bit-two_pow, bit-complement, bit_or-lt, bit_and-lt,
  complement, bit_or-zero,
}
use freedom_metal.Prelude.Fields.{mask, shifted-lt, bit_and-mask, pow_pos}
use freedom_metal.Prelude.Machine.{Registers, shift_int}
use freedom_metal.Gpio.{
  Reg, port, iof_en, iof_sel, on_pin, pin_of, output_set, output_clear, enable_io,
  metal_gpio_set_pin, metal_gpio_get_output_pin, metal_gpio_enable_pinmux,
}

-- The registers of the outputs hold what is written.
pub record IsGpio (regs : Registers Reg) : Type 0 where
  pub port_back : (s : regs.State) (v : ℕ) → v < 2 ^ 32 → regs.read (regs.write s port v) port ≡ v
  pub en_back : (s : regs.State) (v : ℕ) → v < 2 ^ 32 → regs.read (regs.write s iof_en v) iof_en ≡ v
  pub sel_back :
      (s : regs.State) (v : ℕ) → v < 2 ^ 32 → regs.read (regs.write s iof_sel v) iof_sel ≡ v
  pub apart :
      (s : regs.State) (v : ℕ)
      → (regs.read (regs.write s iof_sel v) iof_en ≡ regs.read s iof_en)
        × (regs.read (regs.write s iof_en v) iof_sel ≡ regs.read s iof_sel)
  pub fits : (s : regs.State) (r : Reg) → regs.read s r < 2 ^ 32

-- `1 << pin`
pub two_pow-lt : (pin : ℕ) → pin < 32 → 2 ^ pin < 2 ^ 32
two_pow-lt pin inside =
    let e : 1 * 2 ^ pin ≡ 2 ^ pin = omega arith in
    omega (arith, e, shifted-lt 32 1 pin 1 (omega arith) (omega arith))

pub one_shifted : (pin : ℕ) → pin < 32 → shift_int 1 pin ≡ some (2 ^ pin)
one_shifted pin inside =
    let e : 1 * 2 ^ pin ≡ 2 ^ pin = omega arith in ground (arith, e, two_pow-lt pin inside)

of_bit : (b p : ℕ) → b < 2 → 1 ≤ p → (if b * p == 0 then 0 else 1) ≡ b
of_bit zero p small some_place = ground arith
of_bit (suc zero) p small some_place = ground arith
of_bit (suc (suc b)) p small some_place = absurd (omega arith)

-- `x & (1 << pin)` is not 0 where the bit is 1.
pin_test : (x pin : ℕ) → (if bit_and x (2 ^ pin) == 0 then 0 else 1) ≡ bit x pin
pin_test x pin =
    let one : mask 1 pin ≡ 2 ^ pin = omega arith in
    let at : bit_and x (2 ^ pin) ≡ bit x pin * 2 ^ pin =
      ap (bit_and x) (sym one)
      ∙ bit_and-mask 1 pin x
      ∙ ap (λ (t : ℕ). t * 2 ^ pin) (sym (bit_lem x pin)) in
    rw (at) (of_bit (bit x pin) (2 ^ pin) (bit-lt x pin) (pow_pos pin))

module _ (regs : Registers Reg) where
  get_output_pin-bit :
      (s : regs.State) (q : ℕ)
      → q < 32
      → metal_gpio_get_output_pin regs (some s) q ≡ some (bit (regs.read s port) q)
  unfolding metal_gpio_get_output_pin pin_of
  get_output_pin-bit s q inside = rw (one_shifted q inside, pin_test (regs.read s port) q) refl

module _ (regs : Registers Reg) (laws : IsGpio regs) where
  output-bit :
      (s : regs.State) (pin q level : ℕ)
      → pin < 32
      → q < 32
      → let after =
          if level == 0 then output_clear regs (2 ^ pin) s else output_set regs (2 ^ pin) s in
        bit (regs.read after port) q
        ≡ (if q == pin then (if level == 0 then 0 else 1) else bit (regs.read s port) q)
  unfolding output_set output_clear
  output-bit s pin q level inside inside' =
      let x : ℕ = regs.read s port in
      let fits = laws.fits s port in
      let place = two_pow-lt pin inside in
      let cleared =
        laws.port_back s (bit_and x (complement 32 (2 ^ pin))) (bit_and-lt 32 x _ fits) in
      let set = laws.port_back s (bit_or x (2 ^ pin)) (bit_or-lt 32 x (2 ^ pin) fits place) in
      ground (
        arith,
        ap (λ (t : ℕ). bit t q) cleared,
        ap (λ (t : ℕ). bit t q) set,
        bit-or x (2 ^ pin) q,
        bit-and x (complement 32 (2 ^ pin)) q,
        bit-complement 32 (2 ^ pin) q place inside',
        bit-two_pow pin q,
        bit-lt x q,
      )

  -- On a port that holds what is written, for two pins below 32, setting the one to a level, 0
  -- or not, returns 0, and the other then reads as 1 where it is the same pin and the level is
  -- not 0, as 0 where it is the same pin and the level is 0, and as before where it is another
  -- pin.
  pub set_pin-get :
      (s : regs.State) (pin q level : ℕ)
      → pin < 32
      → q < 32
      → (after : regs.State) × (metal_gpio_set_pin regs (some s) pin level ≡ some (0, some after))
        × (metal_gpio_get_output_pin regs (some after) q ≡ (
            if q == pin
            then some (if level == 0 then 0 else 1)
            else metal_gpio_get_output_pin regs (some s) q))
  unfolding metal_gpio_set_pin on_pin
  set_pin-get s pin q level inside inside' =
      let after : regs.State =
        if level == 0 then output_clear regs (2 ^ pin) s else output_set regs (2 ^ pin) s in
      (
        after,
        rw (one_shifted pin inside) (ground arith),
        get_output_pin-bit regs after q inside'
            ∙ ap some (output-bit s pin q level inside inside')
            ∙ ground (arith, get_output_pin-bit regs s q inside'),
      )

  -- On registers that hold what is written, enabling the function 0 of a pin below 32 returns 0,
  -- enables no function of any pin, and selects the function 1 of that pin.
  pub enable_pinmux-zero :
      (s : regs.State) (pin : ℕ)
      → pin < 32
      → (after : regs.State) × (metal_gpio_enable_pinmux regs (some s) pin 0 ≡ some (0, some after))
        × (regs.read after iof_en ≡ regs.read s iof_en)
        × (bit (regs.read after iof_sel) pin ≡ 1)
  unfolding metal_gpio_enable_pinmux on_pin enable_io
  enable_pinmux-zero s pin inside =
      let en : ℕ = regs.read s iof_en in
      let sel : ℕ = regs.read s iof_sel in
      let s1 : regs.State = regs.write s iof_sel (bit_or sel (2 ^ pin)) in
      let nothing : shift_int 0 pin ≡ some 0 = ground arith in
      let en_kept : regs.read s1 iof_en ≡ en = (laws.apart s (bit_or sel (2 ^ pin))).0 in
      let after : regs.State = regs.write s1 iof_en (bit_or (regs.read s1 iof_en) 0) in
      let value : bit_or (regs.read s1 iof_en) 0 ≡ en =
        bit_or-zero (regs.read s1 iof_en) ∙ en_kept in
      let selected =
        (laws.apart s1 (bit_or (regs.read s1 iof_en) 0)).1
        ∙ laws.sel_back s (bit_or sel (2 ^ pin))
            (bit_or-lt 32 sel (2 ^ pin) (laws.fits s iof_sel) (two_pow-lt pin inside)) in
      (
        after,
        rw (nothing, one_shifted pin inside) refl,
        laws.en_back s1 (bit_or (regs.read s1 iof_en) 0) (rw (value) (laws.fits s iof_en)) ∙ value,
        ap (λ (t : ℕ). bit t pin) selected
            ∙ ground (arith, bit-or sel (2 ^ pin) pin, bit-two_pow pin pin, bit-lt sel pin),
      )
