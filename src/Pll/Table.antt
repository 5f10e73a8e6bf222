-- ===== src/Pll/Table.antt =====
-- The table of configurations of src/drivers/sifive_fe310-g000_pll.c.
use freedom_metal.Prelude.{ℕ, Option, none, some, List, [], ◌∷◌}

-- struct pll_config_t; a negative `d` is `none`.
pub record PllConfig : Type 0 where
  pub multiplier : ℕ
  pub divisor : ℕ
  pub min_input_rate : ℕ
  pub max_input_rate : ℕ
  pub r : ℕ
  pub f : ℕ
  pub q : ℕ
  pub d : Option ℕ

-- A row without the final divider, and one with it.
abbrev undivided : ℕ → ℕ → ℕ → ℕ → ℕ → ℕ → ℕ → PllConfig
undivided multiplier divisor lo hi r f q = record {
  multiplier = multiplier;
  divisor = divisor;
  min_input_rate = lo;
  max_input_rate = hi;
  r = r;
  f = f;
  q = q;
  d = none;
}

abbrev divided : ℕ → ℕ → ℕ → ℕ → ℕ → ℕ → ℕ → ℕ → PllConfig
divided multiplier divisor lo hi r f q d = record {
  multiplier = multiplier;
  divisor = divisor;
  min_input_rate = lo;
  max_input_rate = hi;
  r = r;
  f = f;
  q = q;
  d = some d;
}

abbrev pub pll_configs : List PllConfig
pll_configs =
    divided 1 32 12000000 24000000 1 31 3 63
    ∷ divided 1 32 24000000 48000000 3 31 2 63
    ∷ divided 1 16 6000000 12000000 0 31 3 63
    ∷ divided 1 16 12000000 24000000 1 31 2 63
    ∷ divided 1 16 24000000 48000000 3 31 2 31
    ∷ divided 1 8 6000000 12000000 0 31 3 31
    ∷ divided 1 8 12000000 24000000 1 31 2 31
    ∷ divided 1 8 24000000 48000000 3 31 2 15
    ∷ divided 1 4 6000000 12000000 0 31 3 15
    ∷ divided 1 4 12000000 24000000 1 31 2 15
    ∷ divided 1 4 24000000 48000000 3 31 2 7
    ∷ divided 1 2 6000000 12000000 0 31 2 15
    ∷ divided 1 2 12000000 24000000 1 31 1 15
    ∷ divided 1 2 24000000 48000000 3 31 1 7
    ∷ divided 2 1 6000000 12000000 0 31 1 7
    ∷ divided 2 1 12000000 24000000 1 31 1 3
    ∷ undivided 2 1 24000000 48000000 3 31 3
    ∷ divided 4 1 6000000 12000000 0 31 3 0
    ∷ undivided 4 1 12000000 24000000 1 31 3
    ∷ undivided 4 1 24000000 48000000 3 31 2
    ∷ divided 6 1 6000000 10666666 0 35 1 2
    ∷ undivided 6 1 10666666 12000000 0 23 3
    ∷ undivided 6 1 12000000 16000000 1 47 3
    ∷ undivided 6 1 16000000 18000000 1 23 2
    ∷ undivided 6 1 18000000 21333333 2 35 2
    ∷ undivided 8 1 6000000 12000000 0 31 3
    ∷ undivided 8 1 12000000 24000000 1 31 2
    ∷ undivided 8 1 24000000 48000000 3 31 1
    ∷ undivided 10 1 6000000 9600000 0 39 3
    ∷ undivided 10 1 9600000 12000000 0 19 2
    ∷ undivided 10 1 12000000 19200000 1 39 2
    ∷ undivided 10 1 19200000 24000000 1 19 1
    ∷ undivided 10 1 24000000 38400000 3 39 1
    ∷ undivided 12 1 6000000 8000000 0 47 3
    ∷ undivided 12 1 8000000 12000000 0 23 2
    ∷ undivided 12 1 12000000 16000000 1 47 2
    ∷ undivided 12 1 16000000 24000000 1 23 1
    ∷ undivided 12 1 24000000 30000000 3 47 1
    ∷ undivided 12 1 30000000 32000000 3 47 1
    ∷ undivided 14 1 6000000 6857142 0 55 3
    ∷ undivided 14 1 6857143 12000000 0 27 2
    ∷ undivided 14 1 12000000 13714285 1 55 2
    ∷ undivided 14 1 13714286 24000000 1 27 1
    ∷ undivided 14 1 24000000 27428571 3 55 1
    ∷ undivided 16 1 6000000 12000000 0 31 2
    ∷ undivided 16 1 12000000 24000000 1 31 1
    ∷ undivided 18 1 6000000 10666666 0 35 2
    ∷ undivided 18 1 10666667 12000000 0 17 1
    ∷ undivided 18 1 12000000 21333333 1 35 1
    ∷ undivided 20 1 6000000 9600000 0 39 2
    ∷ undivided 20 1 9600000 12000000 0 19 1
    ∷ undivided 20 1 12000000 19200000 1 39 1
    ∷ undivided 22 1 6000000 8727272 0 43 2
    ∷ undivided 22 1 8727273 12000000 0 21 1
    ∷ undivided 22 1 12000000 17454545 1 43 1
    ∷ undivided 24 1 6000000 8000000 0 47 2
    ∷ undivided 24 1 8000000 12000000 0 23 1
    ∷ undivided 24 1 12000000 16000000 1 47 1
    ∷ undivided 26 1 6000000 7384615 0 51 2
    ∷ undivided 26 1 7384616 12000000 0 25 1
    ∷ undivided 26 1 12000000 14768230 1 51 1
    ∷ undivided 28 1 6000000 6857142 0 55 2
    ∷ undivided 28 1 6857143 12000000 0 27 1
    ∷ undivided 28 1 12000000 13714285 1 55 1
    ∷ undivided 30 1 6000000 6400000 0 59 2
    ∷ undivided 30 1 6400000 12000000 0 29 1
    ∷ undivided 30 1 12000000 12800000 1 59 1
    ∷ undivided 32 1 6000000 12000000 0 31 1
    ∷ []
