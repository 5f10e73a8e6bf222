-- ===== src/Clic/Timer.antt =====
-- The timer and the software interrupts of src/drivers/sifive_clic0.c. An `int` is its pattern of 32 bits,
-- and the fuel is for the loop that reads the time.
use freedom_metal.Prelude.{ℕ, ◌/◌, ◌%◌, ◌^◌, Option, none, some}
use freedom_metal.Prelude.Split.{read_split}
use freedom_metal.Interrupt.{
  Command, timer_mtime_get, software_ipi_clear, software_ipi_set, software_msip_get, unknown,
}
use freedom_metal.Cpu.{Platform}
use freedom_metal.Clic.{intip}
use freedom_metal.Clic.Control.{Board, msip, cmp_low, cmp_high, mtime_low, mtime_high}

abbrev pub minus_one : ℕ
minus_one = 0xFFFFFFFF

module _ (platform : Platform) (board : Board platform) where
  open board use {State, read32, write32, write8, tick}

  pub mtime_get : ℕ → State → Option (ℕ × State)
  mtime_get fuel s = read_split (λ t. read32 t mtime_high) (λ t. read32 t mtime_low) tick fuel s

  pub mtimecmp_set : ℕ → ℕ → State → ℕ × State
  mtimecmp_set hartid time s =
      let lifted = write32 s (cmp_high hartid) 0xFFFFFFFF in
      let low = write32 lifted (cmp_low hartid) (time % 2 ^ 32) in
      (0, write32 low (cmp_high hartid) (time / 2 ^ 32 % 2 ^ 32))

  -- With what `data` points at, where it is not null.
  pub command_request : ℕ → Command → Option ℕ → State → Option (ℕ × Option ℕ × State)
  command_request fuel timer_mtime_get none s = some (minus_one, none, s)
  command_request fuel timer_mtime_get (some old) s = elim (mtime_get fuel s) [
    | none ↦ none
    | some done ↦ some (0, some done.0, done.1)
  ]
  command_request fuel software_ipi_clear none s = some (minus_one, none, s)
  command_request fuel software_ipi_clear (some hartid) s =
      some (0, some hartid, write8 (write32 s (msip hartid) 0) (intip 0) 0)
  command_request fuel software_ipi_set none s = some (minus_one, none, s)
  command_request fuel software_ipi_set (some hartid) s =
      some (0, some hartid, write8 (write32 s (msip hartid) 1) (intip 0) 1)
  command_request fuel software_msip_get none s = some (0, none, s)
  command_request fuel software_msip_get (some hartid) s =
      some (read32 s (msip hartid), some hartid, s)
  command_request fuel unknown place s = some (minus_one, place, s)
