-- ===== src/Pmp/Regions.antt =====
-- metal_pmp_set_region and metal_pmp_get_region on a hart of 32 bits: what is set reads back, no
-- other region changes, and on every error nothing does.
use freedom_metal.Prelude.{
  ℕ, ◌/◌, ◌≤◌, ◌<◌, ◌≡◌, ◌≢◌, ◌⊎◌, refl, Bool, true, false, some, arith, ◌==◌, if◌then◌else◌,
}
use freedom_metal.Prelude.Machine.{IsBank}
use freedom_metal.Pmp.{
  Csr, pmpaddr, pmpcfg, Hart, rv32, Config, config_to_int, int_to_config, Reading, Pmp, pmp_regions,
  locked, read_config, read_address, get_region, write_address, write_config, too_fine,
  update_region, set_region,
}
use freedom_metal.Pmp.Lanes.{
  IsConfig, read_config32, read_config-lt, int_to_config-config_to_int, config_to_int-int_to_config,
  write_config32, replaced_config, AcceptsConfig, read_config-replaced_config_self,
  read_config-replaced_config_other, read-replaced_config,
}

module _ (hart : Hart) (is_rv32 : hart.xlen ≡ rv32) where
  open hart use {csrs}

  -- What a call must meet to change a region: a region in range, a granularity that the hart has,
  -- and no lock.
  pub record Allowed (region : ℕ) (config : Config) (address : ℕ) (p : Pmp hart) : Type 0 where
    pub in_range : region ≤ pmp_regions hart
    pub has_csr : region < 16
    pub is_config : IsConfig config
    pub coarse : too_fine hart config address p ≡ some false
    pub is_unlocked : (int_to_config (read_config hart region p.regs)).l ≢ locked

  module _ {Accepts : csrs.State → Csr → ℕ → Type 0} (laws : IsBank csrs Accepts) where
    written-read :
        (region new : ℕ) (s : csrs.State)
        → region < 16
        → Accepts s (pmpaddr region) new
        → csrs.read
            (write_address hart region (csrs.read s (pmpaddr region)) new s)
            (pmpaddr region)
          ≡ new
    unfolding write_address
    written-read region new s low ok = ground (arith, laws.read_back s (pmpaddr region) new ok)

    written-read_other :
        (region old new : ℕ) (s : csrs.State) (c : Csr)
        → pmpaddr region ≢ c
        → csrs.read (write_address hart region old new s) c ≡ csrs.read s c
    unfolding write_address
    written-read_other region old new s c ne =
        ground (arith, laws.read_other s (pmpaddr region) c new ne)

    written-read_config :
        (region old new : ℕ) (s : csrs.State) (other : ℕ)
        → other < 16
        → read_config hart other (write_address hart region old new s) ≡ read_config hart other s
    written-read_config region old new s other low = rw (
      read_config32 hart is_rv32 other (write_address hart region old new s) low,
      read_config32 hart is_rv32 other s low,
      written-read_other region old new s (pmpcfg (other / 4)) (λ e. cc),
    )

    module _ (region : ℕ) (config : Config) (address : ℕ) (p : Pmp hart) where
      -- The hart accepts the writes of the call: the address, and the two of the configuration.
      abbrev pub AcceptsRegion : Type 0
      AcceptsRegion =
          Accepts p.regs (pmpaddr region) address
          × AcceptsConfig hart is_rv32 laws region config
              (write_address hart region (csrs.read p.regs (pmpaddr region)) address p.regs)

      abbrev addressed : csrs.State
      addressed = write_address hart region (csrs.read p.regs (pmpaddr region)) address p.regs

      -- The CSRs after a call that succeeds.
      abbrev settled : csrs.State
      settled =
          if read_config hart region p.regs == config_to_int config
          then addressed
          else replaced_config hart is_rv32 region config addressed

      module _ (allowed : Allowed region config address p) (ok : AcceptsRegion) where
        open allowed use {in_range, has_csr, is_config, coarse, is_unlocked}

        kept_byte :
            config_to_int (int_to_config (read_config hart region p.regs))
            ≡ read_config hart region p.regs
        kept_byte =
            config_to_int-int_to_config (read_config hart region p.regs)
              (read_config-lt hart is_rv32 region p.regs has_csr)

        settles :
            (held : Reading)
            → set_region hart true region config address held p
              ≡ some (0, record p { regs = settled })
        unfolding set_region update_region get_region read_address
        settles held = ground (
          arith,
          coarse,
          kept_byte,
          write_config32 hart is_rv32 region (int_to_config (read_config hart region p.regs)) config
              addressed has_csr is_config,
        )

        settled-read_config : read_config hart region settled ≡ config_to_int config
        settled-read_config = ground (
          arith,
          written-read_config region (csrs.read p.regs (pmpaddr region)) address p.regs region
              has_csr,
          read_config-replaced_config_self hart is_rv32 laws region config addressed has_csr
              is_config ok.1,
        )

        settled-read_config_other :
            (other : ℕ)
            → other < 16
            → region ≢ other
            → read_config hart other settled ≡ read_config hart other p.regs
        settled-read_config_other other low ne = ground (
          arith,
          written-read_config region (csrs.read p.regs (pmpaddr region)) address p.regs other low,
          read_config-replaced_config_other hart is_rv32 laws region config addressed has_csr
              is_config ok.1 other low ne,
        )

        settled-read : csrs.read settled (pmpaddr region) ≡ address
        settled-read = ground (
          arith,
          written-read region address p.regs has_csr ok.0,
          read-replaced_config hart is_rv32 laws region config addressed has_csr is_config ok.1
              region,
        )

        settled-read_other :
            (other : ℕ)
            → region ≢ other
            → csrs.read settled (pmpaddr other) ≡ csrs.read p.regs (pmpaddr other)
        settled-read_other other ne = ground (
          arith,
          written-read_other region (csrs.read p.regs (pmpaddr region)) address p.regs
              (pmpaddr other) (λ e. ne (cc)),
          read-replaced_config hart is_rv32 laws region config addressed has_csr is_config ok.1
              other,
        )

        -- On a hart of 32 bits whose CSRs keep what they accept, metal_pmp_set_region on an
        -- unlocked region in range, with a granularity that the hart has, returns 0;
        -- metal_pmp_get_region then returns the configuration and the address that were set,
        -- every other region reads as before, and the granularities are unchanged.
        pub set_region-get_region :
            (held held' : Reading)
            → (p' : Pmp hart) × (set_region hart true region config address held p ≡ some (0, p'))
              × (get_region hart true region true held' p'
                  ≡ record { rc = 0; config = config; address = address })
              × ((other : ℕ)
                  → other < 16
                  → region ≢ other
                  → get_region hart true other true held' p'
                    ≡ get_region hart true other true held' p)
              × (p'.granularity ≡ p.granularity)
        unfolding get_region read_address
        set_region-get_region held held' = (
          record p { regs = settled },
          settles held,
          ground (
            arith,
            settled-read_config,
            settled-read,
            int_to_config-config_to_int config is_config,
          ),
          λ other low ne.
              ground (arith, settled-read_config_other other low ne, settled-read_other other ne),
          refl,
        )

module _ (hart : Hart) (region : ℕ) (config : Config) (address : ℕ) (held : Reading)
    (p : Pmp hart) where
  -- What a call that returns says: an error that changes nothing, or a change of an unlocked region.
  pub record Changed (p' : Pmp hart) : Type 0 where
    pub in_range : region ≤ pmp_regions hart
    pub coarse : too_fine hart config address p ≡ some false
    pub was_unlocked : (int_to_config (read_config hart region p.regs)).l ≢ locked
    pub written :
        write_config hart region
          (int_to_config (read_config hart region p.regs))
          config
          (write_address hart region (read_address hart region held.address p.regs) address p.regs)
        ≡ some p'.regs
    pub same : p'.granularity ≡ p.granularity

  pub set_region-cases :
      (pmp : Bool) (rc : ℕ) (p' : Pmp hart)
      → set_region hart pmp region config address held p ≡ some (rc, p')
      → (1 ≤ rc) × (rc ≤ 4) × (p' ≡ p) ⊎ (rc ≡ 0) × (pmp ≡ true) × Changed p'
  unfolding set_region update_region get_region
  set_region-cases pmp rc p' e = ground arith
