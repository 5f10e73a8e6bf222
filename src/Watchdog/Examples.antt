-- ===== src/Watchdog/Examples.antt =====
-- A watchdog that takes a write only after the magic word, and the theorems about
-- src/drivers/sifive_wdog0.c at it.
use freedom_metal.Prelude.{
  ℕ, zero, suc, ◌/◌, ◌%◌, ◌^◌, ◌≤◌, ◌<◌, ◌≡◌, ◌≢◌, ◌∙◌, refl, sym, ap, Bool, true, false, some,
  ◌==◌, if◌then◌else◌, arith, min, Bool-cases, inl, inr,
}
use freedom_metal.Prelude.Machine.{Registers}
use freedom_metal.Watchdog.{
  Reg, wdogcfg, wdogfeed, wdogkey, wdogcmp, distance, closest, get_rate, set_rate, get_timeout,
  set_timeout,
}
use freedom_metal.Watchdog.Rate.{IsWatchdog, set_rate-get_rate, set_timeout-get_timeout}

abbrev code : Reg → ℕ
code wdogcfg = 0
code wdogfeed = 1
code wdogkey = 2
code wdogcmp = 3

abbrev decode : ℕ → Reg
decode zero = wdogcfg
decode (suc zero) = wdogfeed
decode (suc (suc zero)) = wdogkey
decode (suc (suc (suc n))) = wdogcmp

decode-code : (r : Reg) → decode (code r) ≡ r
decode-code wdogcfg = refl
decode-code wdogfeed = refl
decode-code wdogkey = refl
decode-code wdogcmp = refl

code-apart : (a b : Reg) → a ≢ b → code b ≢ code a
code-apart a b apart = λ e. apart (sym (decode-code a) ∙ ap decode (sym e) ∙ decode-code b)

abbrev magic : ℕ
magic = 0x51F15E

-- Whether the magic word was the last to be written, and the words.
record Wires : Type 0 where
  armed : Bool
  words : ℕ → ℕ

abbrev changed : (ℕ → ℕ) → ℕ → ℕ → ℕ → ℕ
changed f k v n = if n == k then v else f n

-- Writes of the key are taken at any time.
abbrev taken : Wires → Reg → Bool
taken s wdogkey = true
taken s r = s.armed

abbrev put_reg : Wires → Reg → ℕ → Wires
put_reg s r v = record {
  armed = if code r == 2 then v == magic else false;
  words = if taken s r then changed s.words (code r) v else s.words;
}

abbrev wires : Registers Reg
wires = record { State = Wires; read = λ s r. s.words (code r) % 2 ^ 32; write = put_reg }

taken_armed : (s : Wires) (r : Reg) → s.armed ≡ true → taken s r ≡ true
taken_armed s wdogcfg on = on
taken_armed s wdogfeed on = on
taken_armed s wdogkey on = refl
taken_armed s wdogcmp on = on

kept :
    (s : Wires) (a b : Reg) (v : ℕ)
    → code b ≢ code a
    → (put_reg s a v).words (code b) ≡ s.words (code b)
kept s a b v h = elim (Bool-cases (taken s a)) [
  | inl on ↦ rw (on) (ground (arith, h))
  | inr off ↦ rw (off) refl
]

wires-IsWatchdog : IsWatchdog wires magic 0xD09F00D
wires-IsWatchdog = record {
  Armed = λ s. s.armed ≡ true;
  arms = λ s. refl;
  back = λ s r v on other fits. rw (taken_armed s r on) (ground (arith, fits));
  other = λ s a b v apart. ap (λ (x : ℕ). x % 2 ^ 32) (kept s a b v (code-apart a b apart));
  fits = λ s r. omega arith;
}

abbrev reset : Wires
reset = record { armed = false; words = λ n. 0 }

set_rate-get_rate_example :
    (scale : ℕ) × (after : Wires) × (set_rate wires magic 0xD09F00D 0x7FFFFFFF 32768 3000 reset
      ≡ (32768 / 2 ^ scale, after))
    × (get_rate wires magic 0xD09F00D 32768 after ≡ some (32768 / 2 ^ scale))
    × (scale < 7)
    × (distance 3000 (32768 / 2 ^ scale) ≤ distance 3000 (32768 / 2 ^ 3))
set_rate-get_rate_example =
    set_rate-get_rate wires magic 0xD09F00D wires-IsWatchdog 0x7FFFFFFF 32768 3000 3 reset
      (omega arith) (omega arith) (omega arith)

-- 256 is the rate at the scale 7, and asking for it gives the scale 6.
scale_seven_left_out : closest 32768 256 7 0 0x7FFFFFFF 0 ≡ (256, 6)
unfolding closest
scale_seven_left_out = refl

set_timeout-get_timeout_example :
    (after : Wires) × (set_timeout wires magic 0xD09F00D 70000 reset ≡ (min 70000 65535, after))
    × (get_timeout wires magic 0xD09F00D after ≡ min 70000 65535)
set_timeout-get_timeout_example =
    set_timeout-get_timeout wires magic 0xD09F00D wires-IsWatchdog 70000 reset
