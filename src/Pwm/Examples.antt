-- ===== src/Pwm/Examples.antt =====
-- A modulator whose registers hold what is written, and the theorems about
-- src/drivers/sifive_pwm0.c at it.
use freedom_metal.Prelude.{
  ℕ, zero, suc, ◌+◌, ◌*◌, ◌/◌, ◌%◌, ◌^◌, ◌≤◌, ◌<◌, ◌≡◌, ◌≢◌, ◌∙◌, refl, sym, ap, true, some, ◌==◌,
  if◌then◌else◌, arith, ◌⊎◌, bit_or,
}
use freedom_metal.Prelude.Machine.{Registers}
use freedom_metal.Pwm.{
  Reg, pwmcfg, pwmcmp, Wiring, Pwm, ret_err, set_count, search, set_duty, get_duty,
}
use freedom_metal.Pwm.Duty.{set_duty-get_duty}
use freedom_metal.Pwm.Freq.{IsPwm, set_count-freq}
use freedom_metal.Pwm.Search.{count_at}

abbrev code : Reg → ℕ
code pwmcfg = 0
code (pwmcmp x) = suc x

abbrev decode : ℕ → Reg
decode zero = pwmcfg
decode (suc x) = pwmcmp x

decode-code : (r : Reg) → decode (code r) ≡ r
decode-code pwmcfg = refl
decode-code (pwmcmp x) = refl

code-apart : (a b : Reg) → a ≢ b → code b ≢ code a
code-apart a b apart = λ e. apart (sym (decode-code a) ∙ ap decode (sym e) ∙ decode-code b)

-- The comparators have 16 bits.
abbrev holds : Reg → ℕ
holds pwmcfg = 2 ^ 32
holds (pwmcmp x) = 2 ^ 16

abbrev words : Registers Reg
words = record {
  State = ℕ → ℕ;
  read = λ s r. s (code r) % holds r;
  write = λ s r v n. if n == code r then v else s n;
}

narrow : (s : ℕ → ℕ) (r : Reg) → s (code r) % holds r < 2 ^ 32
narrow s pwmcfg = omega arith
narrow s (pwmcmp x) = omega arith

words-IsPwm : IsPwm words 16
words-IsPwm = record {
  back_cfg = λ s v fits. ground (arith, fits);
  back_cmp = λ s x v fits. ground (arith, fits);
  other = λ s a b v apart. ground (arith, code-apart a b apart);
  fits = narrow;
}

abbrev board : Wiring
board = record { present = true; compare_width = 16; comparator_count = 4 }

-- After pwm_enable.
abbrev enabled : Pwm words
enabled = record { max_count = 65535; count_val = 0; freq = 0; duty = λ i. 0; io = λ n. 0 }

abbrev running : Pwm words
running = record { max_count = 65535; count_val = 49999; freq = 20; duty = λ i. 0; io = λ n. 4 }

set_count-freq_example :
    (p : ℕ) × (after : Pwm words) × (set_count words 16000000 20 enabled ≡ some after)
    × (p ≤ 15)
    × ((i : ℕ) → i < p → 65535 < count_at 16000000 20 i)
    × (after.count_val + 1 ≡ count_at 16000000 20 p)
    × (((after.count_val + 1 ≤ 65535)
          × (words.read after.io (pwmcmp 0) ≡ after.count_val)
          × (20 ≤ after.freq)
          × (words.read after.io pwmcfg ≡ bit_or 0 p))
        ⊎ ((p ≡ 15) × (65535 < after.count_val + 1) × (words.read after.io pwmcfg ≡ 0)))
set_count-freq_example =
    set_count-freq words 16 words-IsPwm 16000000 20 enabled (omega arith) (omega arith)
      (omega arith) (omega arith) (omega arith)

-- The prescaler is 4 there.
prescaler_four : search 16000000 20 65535 15 0 ≡ (50000, 4)
unfolding search
prescaler_four = refl

-- A comparator of 8 bits has no prescaler for 1 Hz at 16 MHz: the last one is raised once more.
prescaler_lost : search 16000000 1 255 15 0 ≡ (488, 16)
unfolding search
prescaler_lost = refl

set_duty-get_duty_example :
    (r : ℕ) × (after : Pwm words) × (set_duty words board 2 25 true running ≡ (r, after))
    × (((0 < 2)
          × (2 < 4)
          × (25 ≤ 100)
          × (r ≡ 0)
          × (get_duty words board 2 after ≡ (if 2 == 2 then 25 else get_duty words board 2 running))
          × (words.read after.io (pwmcmp 2) ≡ 25 * 49999 / 100)
          × (25 * 49999 / 100 ≤ 49999)
          × (after.count_val ≡ 49999))
        ⊎ ((◌≡◌ {A = ℕ} 2 0 ⊎ ((4 ≤ 2) ⊎ (100 < 25))) × (r ≡ ret_err) × (after ≡ running)))
set_duty-get_duty_example =
    set_duty-get_duty words 16 words-IsPwm board 2 25 2 true running (omega arith) (omega arith)
