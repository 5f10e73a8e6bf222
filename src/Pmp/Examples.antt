-- ===== src/Pmp/Examples.antt =====
-- A hart with plain CSRs, and the theorems about metal/pmp.h at inputs on it.
use freedom_metal.Prelude.{
  ℕ, ◌/◌, ◌%◌, ◌≤◌, ◌<◌, ◌≡◌, ◌≢◌, refl, true, false, none, some, ◌>>=◌, arith, ◌==◌, Bool,
  if◌then◌else◌,
}
use freedom_metal.Prelude.Machine.{Registers, IsBank}
use freedom_metal.Pmp.{
  Csr, pmpaddr, pmpcfg, Hart, Xlen, rv32, rv64, Config, Reading, Pmp, set_region, get_region,
  read_config, get_pmpaddr_granularity, Mode.napot, too_fine, lowest_zero, pmp_regions, config_csr,
  int_to_config, config_to_int, update_region, read_address, write_address, write_config,
  replace_config,
}
use freedom_metal.Pmp.Api
use freedom_metal.Pmp.Regions.{Allowed, set_region-get_region}
use freedom_metal.Pmp.Granularity.{
  get_pmpaddr_granularity-napot, set_region-napot_too_fine, napot_address,
}
use freedom_metal.Pmp.Calls.{set_writeable_call, set_region_call, run}
use freedom_metal.Pmp.Locking.{Holds, Reach-Holds, Step, here, next, call}
use freedom_metal.Pmp.Rv64.{set_region-undefined, set_region_lane3}

abbrev same_csr : Csr → Csr → Bool
same_csr (pmpaddr i) (pmpaddr j) = i == j
same_csr (pmpcfg i) (pmpcfg j) = i == j
same_csr _ _ = false

abbrev plain_csrs : Registers Csr
plain_csrs = record {
  State = Csr → ℕ;
  read = λ s c. s c;
  write = λ s c v d. if same_csr c d then v else s d;
}

abbrev AcceptsAll : (Csr → ℕ) → Csr → ℕ → Type 0
AcceptsAll s c v = Unit

same_csr_refl : (c : Csr) → same_csr c c ≡ true
same_csr_refl (pmpaddr i) = ground arith
same_csr_refl (pmpcfg i) = ground arith

same_csr_ne : (c d : Csr) → c ≢ d → same_csr c d ≡ false
same_csr_ne (pmpaddr i) (pmpaddr j) ne = ground arith
same_csr_ne (pmpcfg i) (pmpcfg j) ne = ground arith
same_csr_ne (pmpaddr i) (pmpcfg j) ne = refl
same_csr_ne (pmpcfg i) (pmpaddr j) ne = refl

plain_laws : IsBank plain_csrs AcceptsAll
plain_laws = record {
  read_back = λ s c v ok. rw (same_csr_refl c);
  read_other = λ s c d v ne. rw (same_csr_ne c d ne);
}

abbrev plain_hart : Xlen → Hart
plain_hart xlen = record {
  xlen = xlen;
  csrs = plain_csrs;
  current_hartid = 0;
  num_pmp_regions = λ h. 8;
}

abbrev scratch : Reading
scratch = record { rc = 0; config = Api.init_config; address = 0 }

abbrev reset : Pmp (plain_hart rv32)
reset = record { granularity = λ h. 4; regs = λ c. 0 }

abbrev reset64 : Pmp (plain_hart rv64)
reset64 = record { granularity = λ h. 4; regs = λ c. 0 }

-- Readable, writeable, NAPOT.
abbrev read_write : Config
read_write = record { r = 1; w = 1; x = 0; a = napot; pad = 0; l = 0 }

abbrev read_locked : Config
read_locked = record { r = 1; w = 0; x = 0; a = napot; pad = 0; l = 1 }

read_write-Allowed : Allowed (plain_hart rv32) refl 5 read_write 0x2000 reset
unfolding too_fine get_pmpaddr_granularity lowest_zero pmp_regions read_config config_csr
    int_to_config
read_write-Allowed = record {
  in_range = omega arith;
  has_csr = omega arith;
  is_config = omega arith;
  coarse = refl;
  is_unlocked = omega arith;
}

-- Region 5 of a hart after reset is set and read back.
set_region-get_region_example :
    (p' : Pmp (plain_hart rv32)) × (set_region
        (plain_hart rv32)
        true
        5
        read_write
        0x2000
        scratch
        reset
      ≡ some (0, p'))
    × (get_region (plain_hart rv32) true 5 true scratch p'
        ≡ record { rc = 0; config = read_write; address = 0x2000 })
    × ((other : ℕ)
        → other < 16
        → 5 ≢ other
        → get_region (plain_hart rv32) true other true scratch p'
          ≡ get_region (plain_hart rv32) true other true scratch reset)
    × (p'.granularity ≡ reset.granularity)
set_region-get_region_example =
    set_region-get_region (plain_hart rv32) refl plain_laws 5 read_write 0x2000 reset
      read_write-Allowed (tt, (tt, tt)) scratch scratch

-- The byte of region 5 in pmpcfg1, and its address.
set_region_test :
    ◌>>=◌ {B = ℕ × ℕ}
      (set_region (plain_hart rv32) true 5 read_write 0x2000 scratch reset)
      (λ result. some (result.1.regs (pmpcfg 1), result.1.regs (pmpaddr 5)))
    ≡ some (0x1b00, 0x2000)
unfolding set_region update_region get_region read_address write_address write_config replace_config
    too_fine get_pmpaddr_granularity lowest_zero pmp_regions read_config config_csr int_to_config
    config_to_int
set_region_test = refl

get_pmpaddr_granularity-napot_example :
    get_pmpaddr_granularity (plain_hart rv32) 0x20009ff ≡ some 4096
get_pmpaddr_granularity-napot_example =
    get_pmpaddr_granularity-napot (plain_hart rv32) 0x8002 9 (omega arith)

-- A region of 16 bytes on a hart with a granularity of 64.
set_region-napot_too_fine_example :
    set_region
      (plain_hart rv32)
      true
      5
      read_write
      (napot_address 0x1000 1)
      scratch
      (record reset { granularity = λ h. 64 })
    ≡ some (3, record reset { granularity = λ h. 64 })
unfolding pmp_regions
set_region-napot_too_fine_example =
    set_region-napot_too_fine (plain_hart rv32) 0x1000 1 5 read_write scratch
      (record reset { granularity = λ h. 64 }) (omega arith) refl (omega arith) (omega arith)

-- Region 2 is locked.
abbrev one_locked : Pmp (plain_hart rv32)
one_locked = record reset {
  regs = plain_csrs.write (plain_csrs.write reset.regs (pmpcfg 0) 0x990000) (pmpaddr 2) 0x777;
}

one_locked_reads : Holds (plain_hart rv32) refl plain_laws 2 scratch read_locked 0x777 one_locked
unfolding get_region pmp_regions read_config config_csr int_to_config read_address
one_locked_reads = refl

-- The same after a change of region 3.
abbrev region3_set : Pmp (plain_hart rv32)
region3_set = record one_locked {
  regs =
      plain_csrs.write
        (plain_csrs.write (plain_csrs.write one_locked.regs (pmpaddr 3) 0x2000) (pmpcfg 0) 0x990000)
        (pmpcfg 0) 0x1b990000;
}

region3_steps : Step (plain_hart rv32) refl plain_laws one_locked region3_set
unfolding run set_region update_region get_region read_address write_address write_config
    replace_config too_fine get_pmpaddr_granularity lowest_zero pmp_regions read_config config_csr
    int_to_config config_to_int
region3_steps =
    call (set_region_call 3 read_write 0x2000) true scratch 0 (omega arith) (omega arith)
      (tt, (tt, tt)) refl

-- A call that is refused.
region2_steps : Step (plain_hart rv32) refl plain_laws region3_set region3_set
unfolding run set_region update_region get_region read_address write_address write_config
    replace_config too_fine get_pmpaddr_granularity lowest_zero pmp_regions read_config config_csr
    int_to_config config_to_int Api.set_writeable Api.modify_region
region2_steps = call (set_writeable_call 2 1) true scratch 4 tt (omega arith) (tt, (tt, tt)) refl

Reach-Holds_example :
    get_region (plain_hart rv32) true 2 true scratch region3_set
    ≡ record { rc = 0; config = read_locked; address = 0x777 }
Reach-Holds_example =
    Reach-Holds (plain_hart rv32) refl plain_laws 2 scratch read_locked 0x777 (omega arith) refl
      {p = one_locked} {p' = region3_set}
      (next {q = region3_set} (next here region3_steps) region2_steps) one_locked_reads

set_region-undefined_example :
    set_region (plain_hart rv64) true 5 read_write 0x2000 scratch reset64 ≡ none
unfolding too_fine get_pmpaddr_granularity lowest_zero pmp_regions read_config config_csr
    int_to_config config_to_int
set_region-undefined_example =
    set_region-undefined (plain_hart rv64) refl 5 read_write 0x2000 scratch reset64 (omega arith)
      (omega arith) refl (omega arith) (omega arith)

-- Regions 4 to 7 are configured.
abbrev upper : Pmp (plain_hart rv64)
upper = record reset64 { regs = plain_csrs.write reset64.regs (pmpcfg 0) 0x1b1b1b1b00000000 }

-- Locking region 3 sets each bit of their bytes.
set_region_ones :
    ◌>>=◌ {B = ℕ}
      (set_region (plain_hart rv64) true 3 read_locked 0x2000 scratch upper)
      (λ result. some (result.1.regs (pmpcfg 0)))
    ≡ some 0xffffffff99000000
unfolding set_region update_region get_region read_address write_address write_config replace_config
    too_fine get_pmpaddr_granularity lowest_zero pmp_regions read_config config_csr int_to_config
    config_to_int
set_region_ones = refl

-- Configuring region 3 clears them.
set_region_lane3_example :
    (p' : Pmp (plain_hart rv64)) × (set_region
        (plain_hart rv64)
        true
        3
        read_write
        0x2000
        scratch
        upper
      ≡ some (0, p'))
    × ((other : ℕ)
        → other < 16
        → other / 8 ≡ 0
        → 4 ≤ other % 8
        → read_config (plain_hart rv64) other p'.regs ≡ 0)
unfolding too_fine get_pmpaddr_granularity lowest_zero pmp_regions read_config config_csr
    int_to_config config_to_int
set_region_lane3_example =
    set_region_lane3 (plain_hart rv64) refl plain_laws 3 read_write 0x2000 scratch upper
      (omega arith) refl (omega arith) (omega arith) (omega arith) refl (omega arith) (omega arith)
      (tt, tt)
