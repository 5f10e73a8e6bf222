-- ===== src/Hpm.antt =====
-- src/hpm.c: the hardware performance monitor of a hart, on RV32 (`__riscv_xlen == 32`). A counter
-- is a value of the enumeration metal_hpm_counter, from 0 to 31.
use freedom_metal.Prelude.{
  ℕ, zero, suc, ◌+◌, ◌*◌, ◌%◌, ◌^◌, Bool, true, false, not, ◌&&◌, Option, none, some, ltb, leb,
  ◌==◌, if◌then◌else◌, bit_and, bit_or,
}
use freedom_metal.Prelude.Bits.{complement}
use freedom_metal.Prelude.Machine.{Registers}
use freedom_metal.Prelude.Split.{read_split}
mod Read
mod Init
mod Access
mod Examples

pub data Csr : Type 0 where
  mcycle : Csr
  mcycleh : Csr
  minstret : Csr
  minstreth : Csr
  mhpmevent : ℕ → Csr
  mhpmcounter : ℕ → Csr
  mhpmcounterh : ℕ → Csr
  mcounteren : Csr
  mtvec : Csr

-- METAL_HPM_COUNT_MAX, METAL_HPM_RET_OK, METAL_HPM_RET_NOK
abbrev pub count_max : ℕ
count_max = 32

abbrev pub ret_ok : ℕ
ret_ok = 0

abbrev pub ret_nok : ℕ
ret_nok = 1

-- The hart: its CSRs, the time that a read of one takes, whether it has mcounteren (an access to
-- it is trapped otherwise), and the address of the label `1:`.
pub record Chip : Type 1 where
  pub csrs : Registers Csr
  pub tick : csrs.State → csrs.State
  pub has_mcounteren : Bool
  pub trap_exit : ℕ

module _ (chip : Chip) where
  open chip use {csrs, tick, has_mcounteren, trap_exit}

  -- hpm_count of struct __metal_driver_cpu, and the CSRs
  pub record Hart : Type 0 where
    pub hpm_count : ℕ
    pub io : csrs.State

  pub write_csr : Csr → ℕ → Hart → Hart
  write_csr r v h = record h { io = csrs.write h.io r v }

  -- The test with which each function begins; `gcpu` is whether the pointer is not NULL.
  pub rejects : Bool → ℕ → Hart → Bool
  rejects gcpu counter h = gcpu && leb h.hpm_count counter

  -- METAL_HPM_HANDLE_SWITCH: the counters that have a case
  pub has_case : ℕ → Bool
  has_case counter = leb 3 counter && leb counter 31

  pub set_event_reg : ℕ → ℕ → Hart → Hart
  set_event_reg x bitmask h =
      let val = csrs.read h.io (mhpmevent x) in
      write_csr (mhpmevent x) (bit_or (bit_and val (complement 32 bitmask)) bitmask) h

  pub clr_event_reg : ℕ → ℕ → Hart → Hart
  clr_event_reg x bitmask h =
      let val = csrs.read h.io (mhpmevent x) in
      write_csr (mhpmevent x) (bit_and val (complement 32 bitmask)) h

  -- The three writes by which a 64-bit counter is cleared: its low word cannot carry.
  pub clr_count : Csr → Csr → Hart → Hart
  clr_count high low h = write_csr high 0 (write_csr low 0 (write_csr high 0 h))

  pub set_event : Bool → ℕ → ℕ → Hart → ℕ × Hart
  set_event gcpu counter bitmask h =
      if rejects gcpu counter h
      then (ret_nok, h)
      else (ret_ok, if has_case counter then set_event_reg counter bitmask h else h)

  pub get_event : Bool → ℕ → Hart → ℕ
  get_event gcpu counter h =
      if rejects gcpu counter h
      then ret_nok
      else if has_case counter
      then csrs.read h.io (mhpmevent counter)
      else 0

  pub clr_event : Bool → ℕ → ℕ → Hart → ℕ × Hart
  clr_event gcpu counter bitmask h =
      if rejects gcpu counter h
      then (ret_nok, h)
      else (ret_ok, if has_case counter then clr_event_reg counter bitmask h else h)

  pub clear_counter : Bool → ℕ → Hart → ℕ × Hart
  clear_counter gcpu counter h =
      if rejects gcpu counter h
      then (ret_nok, h)
      else if counter == 0
      then (ret_ok, clr_count mcycleh mcycle h)
      else if counter == 1
      then (ret_nok, h)
      else if counter == 2
      then (ret_ok, clr_count minstreth minstret h)
      else if has_case counter
      then (ret_ok, clr_count (mhpmcounterh counter) (mhpmcounter counter) h)
      else (ret_ok, h)

  -- The loop over a pair of words of a counter; `none` is out of fuel.
  pub read_pair : ℕ → Csr → Csr → Hart → Option (ℕ × Hart)
  read_pair fuel high low h =
      elim (read_split (λ s. csrs.read s high) (λ s. csrs.read s low) tick fuel h.io) [
        | none ↦ none
        | some (value, s) ↦ some (value, record h { io = s })
      ]

  pub read_counter : ℕ → Bool → ℕ → Hart → Option (ℕ × Hart)
  read_counter fuel gcpu counter h =
      if rejects gcpu counter h
      then some (ret_nok, h)
      else if counter == 0
      then read_pair fuel mcycleh mcycle h
      else if counter == 1
      then some (ret_nok, h)
      else if counter == 2
      then read_pair fuel minstreth minstret h
      else if has_case counter
      then read_pair fuel (mhpmcounterh counter) (mhpmcounter counter) h
      else some (0, h)

  -- The assembly of the functions below: `access` is the access to mcounteren, skipped by the trap
  -- where the hart has none; mtvec is put back in both cases.
  pub guarded : (Hart → Hart) → Hart → Hart
  guarded access h =
      let temp = csrs.read h.io mtvec in
      let trapping = write_csr mtvec trap_exit h in
      write_csr mtvec temp (if has_mcounteren then access trapping else trapping)

  pub enable_access : Bool → ℕ → Hart → ℕ × Hart
  enable_access gcpu counter h = if rejects gcpu counter h then (ret_nok, h) else (
    ret_ok,
    guarded
        (λ s. write_csr mcounteren (bit_or (csrs.read s.io mcounteren) (2 ^ counter % 2 ^ 32)) s) h,
  )

  pub disable_access : Bool → ℕ → Hart → ℕ × Hart
  disable_access gcpu counter h = if rejects gcpu counter h then (ret_nok, h) else (
    ret_ok,
    guarded
        (λ s.
          write_csr mcounteren
            (bit_and (csrs.read s.io mcounteren) (complement 32 (2 ^ counter % 2 ^ 32))) s)
        h,
  )

  pub disable : Bool → Hart → ℕ × Hart
  disable gcpu h =
      if gcpu
      then (ret_ok, record (guarded (write_csr mcounteren 0) h) { hpm_count = 0 })
      else (ret_nok, h)

  -- The first loop of metal_hpm_init, from `n` with `left` rounds left: the counter it stops at.
  pub probe : ℕ → ℕ → Hart → ℕ × Hart
  probe zero n h = (n, h)
  probe (suc left) n h =
      let (ret, written) = set_event true n 0xFFFFFFFF h in
      let rest = probe left (n + 1) written in
      if get_event true n written == 0 then (n, written) else rest

  -- Its second loop.
  pub clear_all : ℕ → ℕ → Hart → Hart
  clear_all zero i h = h
  clear_all (suc left) i h =
      let (ret, cleared) = clr_event true i 0xFFFFFFFF h in
      let (ret2, zeroed) = clear_counter true i cleared in clear_all left (i + 1) zeroed

  -- The loop of the source runs n from 3 while n < 31, so for at most 28 rounds.
  pub init : Bool → Hart → ℕ × Hart
  init gcpu h =
      let (n, probed) = probe 28 3 (record h { hpm_count = count_max }) in
      if gcpu && h.hpm_count == 0
      then (ret_ok, clear_all n 0 (record probed { hpm_count = n }))
      else (ret_nok, h)
