-- ===== src/Pll/Examples.antt =====
-- A PLL that locks at once, and the theorems about the driver at inputs on it.
use freedom_metal.Prelude.{
  ℕ, ◌+◌, ◌*◌, ◌%◌, ◌^◌, ◌≤◌, ◌<◌, ◌≡◌, ◌≢◌, ◌⊎◌, inl, arith, refl, none, some,
}
use freedom_metal.Prelude.Fields.{bit_and-mask}
use freedom_metal.Pll.Table.{PllConfig, pll_configs}
use freedom_metal.Pll.{
  Prci, PllReg, pllcfg, plloutdiv, hz, set_rate_hz, find_closest_config, get_pll_config_freq,
  closest_below, consider, distance, near_input,
}
use freedom_metal.Pll.Fields.{IsPrci}
use freedom_metal.Pll.Search.{Gives, find_closest_config-closest}
use freedom_metal.Pll.Wait.{Locks, ticks}
use freedom_metal.Pll.Bypass.{set_rate_hz-bypass}
use freedom_metal.Pll.SetRate.{set_rate_hz-row}

record Chip : Type 0 where
  cfg : ℕ
  div : ℕ
  time : ℕ

abbrev read_chip : Chip → PllReg → ℕ
read_chip s pllcfg = s.cfg % 2 ^ 31 + 2 ^ 31
read_chip s plloutdiv = s.div % 2 ^ 32

abbrev write_chip : Chip → PllReg → ℕ → Chip
write_chip s pllcfg v = record s { cfg = v }
write_chip s plloutdiv v = record s { div = v }

abbrev chip : Prci
chip = record {
  regs = record { State = Chip; read = read_chip; write = write_chip };
  mtime = λ s. s.time;
  tick = λ s. record s { time = s.time + 1 };
}

chip_back :
    (s : Chip) (r : PllReg) (v : ℕ)
    → v < 2 ^ 32
    → read_chip (write_chip s r v) r % 2 ^ 31 ≡ v % 2 ^ 31
chip_back s pllcfg v h = omega arith
chip_back s plloutdiv v h = omega arith

chip_kept :
    (s : Chip) (r r' : PllReg) (v : ℕ)
    → r ≢ r'
    → read_chip (write_chip s r v) r' % 2 ^ 31 ≡ read_chip s r' % 2 ^ 31
chip_kept s pllcfg pllcfg v ne = absurd (ne refl)
chip_kept s pllcfg plloutdiv v ne = refl
chip_kept s plloutdiv pllcfg v ne = refl
chip_kept s plloutdiv plloutdiv v ne = absurd (ne refl)

chip_fits : (s : Chip) (r : PllReg) → read_chip s r < 2 ^ 32
chip_fits s pllcfg = omega arith
chip_fits s plloutdiv = omega arith

chip_ticks :
    (s : Chip) (r : PllReg)
    → read_chip (record s { time = s.time + 1 }) r % 2 ^ 31 ≡ read_chip s r % 2 ^ 31
chip_ticks s pllcfg = refl
chip_ticks s plloutdiv = refl

chip_laws : IsPrci chip
chip_laws = record {
  fits = chip_fits;
  back = chip_back;
  kept = chip_kept;
  tick_kept = chip_ticks;
  timer_runs = λ s. omega arith;
}

chip-Locks : Locks chip 6
unfolding ticks
chip-Locks s = (0, omega arith, ground (arith, bit_and-mask 1 31 (read_chip s pllcfg)))

-- From a crystal of 16 MHz to 320 MHz.
found_test : find_closest_config 16000000 320000000 ≡ some 51
unfolding find_closest_config closest_below consider get_pll_config_freq
found_test = refl

find_closest_config-closest_example :
    (find_closest_config 16000000 320000000 ≡ none)
      × ((j freq : ℕ) → ¬ Gives pll_configs 16000000 320000000 j freq)
    ⊎ ((k : ℕ) × (freq : ℕ) × (find_closest_config 16000000 320000000 ≡ some k)
        × Gives pll_configs 16000000 320000000 k freq
        × ((j other : ℕ)
            → Gives pll_configs 16000000 320000000 j other
            → (distance freq 320000000 ≤ distance other 320000000)
              × (k < j → distance freq 320000000 < distance other 320000000)))
find_closest_config-closest_example = find_closest_config-closest 16000000 320000000 (omega arith)

-- Row 51 of the table.
abbrev twenty_times : PllConfig
twenty_times = record {
  multiplier = 20;
  divisor = 1;
  min_input_rate = 12000000;
  max_input_rate = 19200000;
  r = 1;
  f = 39;
  q = 1;
  d = none;
}

-- After reset, on the crystal.
abbrev reset : Chip
reset = record { cfg = 0x00020000; div = 0; time = 0 }

set_rate_hz-row_example :
    (s' : Chip) × (set_rate_hz chip 6 16000000 72000000 320000000 reset ≡ some (s', hz 320000000))
    × ((k : ℕ) → 16000000 ≡ k * 2 → ◌≡◌ {A = ℕ} 320000000 320000000)
unfolding find_closest_config closest_below consider get_pll_config_freq near_input
set_rate_hz-row_example =
    set_rate_hz-row chip 16000000 72000000 chip_laws 6 320000000 51 twenty_times reset refl refl
      refl 320000000 refl (omega arith) chip-Locks

-- To 18 MHz: within a quarter of the crystal's 16 MHz.
set_rate_hz-bypass_example :
    (s' : Chip) × (set_rate_hz chip 6 16000000 72000000 18000000 reset ≡ some (s', hz 16000000))
unfolding near_input
set_rate_hz-bypass_example =
    set_rate_hz-bypass chip 16000000 72000000 chip_laws 6 18000000 reset (inl refl)
