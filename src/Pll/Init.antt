-- ===== src/Pll/Init.antt =====
-- The start of src/drivers/sifive_fe310-g000_pll.c, with the callbacks of the PLL's clock, which act on the
-- machine that holds the registers.
use freedom_metal.Prelude.{ℕ, Bool, Option, some, ◌>>=◌, ◌==◌, if◌then◌else◌}
use freedom_metal.Prelude.Machine.{set_bits}
use freedom_metal.Clock.{Heap, Memory, MetalClock, Device, call_all_callbacks}
use freedom_metal.Pll.{Prci, pllcfg, pll_refsel, deselect, set_rate_hz}

module _ (prci : Prci) (call : ℕ → ℕ → Memory prci.regs.State → Memory prci.regs.State) where
  open prci use {regs}

  -- Of the clock only the callbacks are used.
  abbrev machine_of : Device
  machine_of = record {
    State = regs.State;
    call = call;
    get_rate = λ s. 0;
    set_rate = λ hz s. (hz, s);
  }

  -- The calls before, a change of the machine, and the calls after.
  abbrev between_callbacks :
      ℕ
      → MetalClock
      → Heap
      → (regs.State → Option regs.State)
      → regs.State
      → Option (Memory regs.State)
  between_callbacks lists clk h change s = do
    (clk', h', told) ← call_all_callbacks machine_of lists clk.pre_rate_change_callback (clk, h, s)
    changed ← change told
    call_all_callbacks machine_of lists clk'.post_rate_change_callback (clk', h', changed)

  -- Running off the external oscillator, where the PLL has one.
  pub select_reference : Bool → regs.State → regs.State
  select_reference has_pllref s =
      if has_pllref then set_bits regs (deselect prci s) pllcfg pll_refsel else deselect prci s

  abbrev rated : ℕ → ℕ → ℕ → ℕ → regs.State → Option regs.State
  rated fuel pllref_hz pllsel0_hz rate s =
      set_rate_hz prci fuel pllref_hz pllsel0_hz rate s >>= (λ (done, shown). some done)

  -- With fuel for the polls and for the lists.
  pub init : ℕ → ℕ → MetalClock → Heap → Bool → ℕ → ℕ → ℕ → regs.State → Option (Memory regs.State)
  init fuel lists clk h has_pllref pllref_hz pllsel0_hz init_rate s =
      between_callbacks lists clk h
        (λ told. rated fuel pllref_hz pllsel0_hz init_rate (select_reference has_pllref told)) s

  pub metal_sifive_fe310_g000_pll_init :
      ℕ → ℕ → MetalClock → Heap → Bool → ℕ → ℕ → ℕ → regs.State → Option (Memory regs.State)
  metal_sifive_fe310_g000_pll_init fuel lists clk h has_pllref pllref_hz pllsel0_hz init_rate s =
      let started = init fuel lists clk h has_pllref pllref_hz pllsel0_hz init_rate s in
      if init_rate == 0 then some (clk, h, s) else started

  -- metal_clock_set_rate_hz on the PLL
  pub use_hfxosc : ℕ → ℕ → MetalClock → Heap → ℕ → ℕ → ℕ → regs.State → Option (Memory regs.State)
  use_hfxosc fuel lists clk h pllref_hz pllsel0_hz init_rate s =
      between_callbacks lists clk h (rated fuel pllref_hz pllsel0_hz init_rate) s
