-- ===== src/Pmp/Rv64.antt =====
-- metal_pmp_set_region on a hart of 64 bits: its mask and its configuration are shifted as `int`.
-- In the lanes from 4 on the shift is undefined, and in lane 3 the sign of the mask is extended over the
-- lanes above.
use freedom_metal.Prelude.{
  ℕ, ◌+◌, ◌-◌, ◌*◌, ◌/◌, ◌%◌, ◌^◌, ◌≤◌, ◌<◌, ◌≡◌, ◌≢◌, zero, suc, ap, ◌∙◌, true, false, none, some,
  arith,
}
use freedom_metal.Prelude.Fields.{mask, extract, insert, extract-insert_inner}
use freedom_metal.Prelude.Machine.{
  IsBank, AcceptsBoth, replaced-read, set_bits, clear_bits, shift_int, int_to_size,
}
use freedom_metal.Pmp.{
  Csr, pmpcfg, Hart, Pmp, rv64, Config, Reading, config_to_int, int_to_config, config_csr, locked,
  pmp_regions, too_fine, get_region, update_region, set_region, read_address, write_address,
  replace_config, write_config, read_config,
}
use freedom_metal.Pmp.Lanes.{IsConfig}

module _ (hart : Hart) (is_rv64 : hart.xlen ≡ rv64) where
  open hart use {csrs}

  -- On a hart of 64 bits, where the region is in range and its number is 4 or more modulo 8, is
  -- not locked and holds a configuration other than the one asked for, and where the check of
  -- the granularity finds the address not too fine: metal_pmp_set_region has undefined
  -- behaviour, since it shifts an int by 32 or more.
  pub set_region-undefined :
      (region : ℕ) (config : Config) (address : ℕ) (held : Reading) (p : Pmp hart)
      → 4 ≤ region % 8
      → region ≤ pmp_regions hart
      → too_fine hart config address p ≡ some false
      → (int_to_config (read_config hart region p.regs)).l ≢ locked
      → config_to_int (int_to_config (read_config hart region p.regs)) ≢ config_to_int config
      → set_region hart true region config address held p ≡ none
  unfolding set_region update_region get_region write_config
  set_region-undefined region config address held p high in_range coarse open_ differs =
      let undefined : shift_int 0xff (8 * (region % 8)) ≡ none = ground arith in
      ground (arith, is_rv64)

  unlocked_shifted :
      (config : Config)
      → IsConfig config
      → config.l ≢ locked
      → int_to_size 64 (config_to_int config * 2 ^ 24 % 2 ^ 32) ≡ config_to_int config * 2 ^ 24
  unfolding config_to_int
  unlocked_shifted config fits unlocked = ground (arith, unlocked)

  write_config_lane3 :
      (region : ℕ) (old new : Config) (s : csrs.State)
      → region < 16
      → region % 8 ≡ 3
      → IsConfig new
      → new.l ≢ locked
      → config_to_int old ≢ config_to_int new
      → write_config hart region old new s
        ≡ some (
            set_bits csrs
              (clear_bits csrs 64 s (pmpcfg (2 * (region / 8))) (mask 40 24))
              (pmpcfg (2 * (region / 8)))
              (config_to_int new * 2 ^ 24))
  unfolding write_config replace_config config_csr
  write_config_lane3 region old new s low lane fits unlocked differs =
      rw is_rv64 (ground (arith, unlocked_shifted new fits unlocked))

  read_config64 :
      (region : ℕ) (s : csrs.State)
      → region < 16
      → read_config hart region s
        ≡ extract 8 (8 * (region % 8)) (csrs.read s (pmpcfg (2 * (region / 8))))
  unfolding read_config config_csr
  read_config64 region s low = rw is_rv64 (ground arith)

  unlocked-lt : (config : Config) → IsConfig config → config_to_int config < 2 ^ 40
  unfolding config_to_int
  unlocked-lt config fits = ground arith

  -- The bytes above the first.
  unlocked_byte :
      (config : Config) (lane : ℕ)
      → IsConfig config
      → config.l ≢ locked
      → 1 ≤ lane
      → lane < 5
      → extract 8 (8 * lane) (config_to_int config) ≡ 0
  unfolding config_to_int
  unlocked_byte config (suc zero) fits unlocked low high = ground (arith, unlocked)
  unlocked_byte config (suc (suc zero)) fits unlocked low high = ground (arith, unlocked)
  unlocked_byte config (suc (suc (suc zero))) fits unlocked low high = ground (arith, unlocked)
  unlocked_byte config (suc (suc (suc (suc zero)))) fits unlocked low high =
      ground (arith, unlocked)
  unlocked_byte config lane fits unlocked low high = absurd (omega arith)

  module _ {Accepts : csrs.State → Csr → ℕ → Type 0} (laws : IsBank csrs Accepts) (region : ℕ)
      (config : Config) (address : ℕ) (held : Reading) (p : Pmp hart) where
    abbrev addressed : csrs.State
    addressed =
        write_address hart region (read_address hart region held.address p.regs) address p.regs

    lane3_reads :
        AcceptsBoth laws 64 addressed
          (pmpcfg (2 * (region / 8)))
          (mask 40 24)
          (config_to_int config * 2 ^ 24)
        → IsConfig config
        → config.l ≢ locked
        → region % 8 ≡ 3
        → (other : ℕ) → other < 16
        → other / 8 ≡ region / 8
        → 4 ≤ other % 8
        → read_config hart other (
            set_bits csrs
              (clear_bits csrs 64 addressed (pmpcfg (2 * (region / 8))) (mask 40 24))
              (pmpcfg (2 * (region / 8)))
              (config_to_int config * 2 ^ 24))
          ≡ 0
    lane3_reads ok fits unlocked lane other low same above =
        let c : Csr = pmpcfg (2 * (region / 8)) in
        let word : ℕ = insert 64 40 24 (csrs.read addressed c) (config_to_int config) in
        let regs : csrs.State =
          set_bits csrs (clear_bits csrs 64 addressed c (mask 40 24)) c
            (config_to_int config * 2 ^ 24) in
        let place : 8 * (other % 8) ≡ 24 + 8 * (other % 8 - 3) = omega arith in
        read_config64 other regs low
        ∙ ap (λ (k : ℕ). extract 8 (8 * (other % 8)) (csrs.read regs (pmpcfg (2 * k)))) same
        ∙ ap (λ (t : ℕ). extract 8 (8 * (other % 8)) t)
            (replaced-read laws 64 addressed c (mask 40 24) (config_to_int config * 2 ^ 24) ok)
        ∙ ap (λ (t : ℕ). extract 8 t word) place
        ∙ extract-insert_inner 64 40 24 (csrs.read addressed c) (config_to_int config) 8
            (8 * (other % 8 - 3)) (unlocked-lt config fits) (omega arith) (omega arith)
        ∙ unlocked_byte config (other % 8 - 3) fits unlocked (omega arith) (omega arith)

    -- On a hart of 64 bits, where the region is in range, below 16 and 3 modulo 8, is not locked
    -- and holds a configuration other than the one asked for, which fits its fields and does not
    -- lock the region, where the check of the granularity finds the address not too fine, and
    -- where the bank of registers keeps the two words that are written to the configuration
    -- register: metal_pmp_set_region returns 0, and the regions in the four lanes above it then
    -- hold the configuration byte 0, whatever they held before.
    pub set_region_lane3 :
        region < 16
        → region % 8 ≡ 3
        → region ≤ pmp_regions hart
        → IsConfig config
        → config.l ≢ locked
        → too_fine hart config address p ≡ some false
        → (int_to_config (read_config hart region p.regs)).l ≢ locked
        → config_to_int (int_to_config (read_config hart region p.regs)) ≢ config_to_int config
        → AcceptsBoth laws 64 addressed
            (pmpcfg (2 * (region / 8)))
            (mask 40 24)
            (config_to_int config * 2 ^ 24)
        → (p' : Pmp hart) × (set_region hart true region config address held p ≡ some (0, p'))
          × ((other : ℕ)
              → other < 16
              → other / 8 ≡ region / 8
              → 4 ≤ other % 8
              → read_config hart other p'.regs ≡ 0)
    unfolding set_region update_region get_region
    set_region_lane3 low lane in_range fits unlocked coarse open_ differs ok =
        let regs : csrs.State =
          set_bits csrs (clear_bits csrs 64 addressed (pmpcfg (2 * (region / 8))) (mask 40 24))
            (pmpcfg (2 * (region / 8))) (config_to_int config * 2 ^ 24) in
        (
          record p { regs = regs },
          ground (
            arith,
            write_config_lane3 region (int_to_config (read_config hart region p.regs)) config
                addressed low lane fits unlocked differs,
          ),
          λ other low' same above. lane3_reads ok fits unlocked lane other low' same above,
        )
