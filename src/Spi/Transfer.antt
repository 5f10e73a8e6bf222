-- ===== src/Spi/Transfer.antt =====
-- metal_spi_transfer of src/drivers/sifive_spi0.c: its four loops, one after the other.
use freedom_metal.Prelude.{
  ℕ, ◌+◌, ◌-◌, ◌%◌, ◌^◌, Bool, true, Option, some, List, [], ◌++◌, if◌then◌else◌, ◌>>=◌, max,
}
use freedom_metal.Spi.{
  Hardware, Config, MultiWire, addr_data, data_only, csmode, csmode_mask, csmode_hold, put_bits,
  configure_spi, spi_mode_switch, release, frames,
}

module _ (hardware : Hardware) where
  open hardware use {regs}

  -- Whether no loop was cut off, `i`, the bytes received so far, and the registers.
  pub record Run : Type 0 where
    pub ok : Bool
    pub at : ℕ
    pub bytes : List ℕ
    pub io : regs.State

  -- `for (; i < bound; i++)`
  unfoldable pub loop : ℕ → Option (List ℕ) → Option ℕ → ℕ → Run → Option Run
  loop fuel tx rx bound run =
      if run.ok
      then frames hardware fuel tx rx (bound - run.at) run.at run.io >>= (λ (ok, more, s).
        some (record { ok = ok; at = max run.at bound; bytes = run.bytes ++ more; io = s }))
      else some run

  unfoldable pub switched : Config → MultiWire → Run → Run
  switched c stage run =
      if run.ok then record run { io = spi_mode_switch hardware c stage run.io } else run

  unfoldable pub finish : Run → ℕ × List ℕ × regs.State
  finish run = if run.ok then (0, run.bytes, release hardware run.io) else (1, run.bytes, run.io)

  abbrev pub begin : regs.State → Run
  begin s = record { ok = true; at = 0; bytes = []; io = s }

  -- The loops of the command, the address, the dummy frames and the data.
  unfoldable pub stages : ℕ → Config → ℕ → Option (List ℕ) → Option ℕ → regs.State → Option Run
  stages fuel c len tx rx s = do
    commanded ← loop fuel tx rx c.cmd_num (begin s)
    addressed ← loop fuel tx rx ((c.cmd_num + c.addr_num) % 2 ^ 32) (switched c addr_data commanded)
    waited ← loop fuel tx rx ((c.cmd_num + c.addr_num + c.dummy_num) % 2 ^ 32) addressed
    loop fuel tx rx len (switched c data_only waited)

  -- The result, the bytes that are received, and the registers. Where `rx_buf` is NULL the bytes are
  -- dropped.
  unfoldable pub transfer :
      ℕ → Config → ℕ → Option (List ℕ) → Option ℕ → regs.State → Option (ℕ × List ℕ × regs.State)
  transfer fuel c len tx rx s =
      let (known, configured) = configure_spi hardware c s in
      if known
      then stages fuel c len tx rx (put_bits hardware configured csmode csmode_mask csmode_hold)
        >>= (λ run. some (finish run))
      else some (0xFFFFFFFF, [], configured)
