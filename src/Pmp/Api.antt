-- ===== src/Pmp/Api.antt =====
-- The rest of src/pmp.c: the setters, the lock, the getters and metal_pmp_init, over the reading
-- and writing of one region in freedom_metal.Pmp.
use freedom_metal.Prelude.{
  ℕ, zero, suc, ◌+◌, ◌-◌, ◌%◌, ◌^◌, Bool, true, not, Option, some, ◌>>=◌, ◌==◌, if◌then◌else◌,
}
use freedom_metal.Pmp.{
  Hart, Pmp, Config, Reading, Mode.off, locked, unlocked, width, get_region, set_region,
  get_detected_granularity, pmp_regions,
}

-- The configuration that metal_pmp_init gives each region.
abbrev pub init_config : Config
init_config = record { r = 0; w = 0; x = 0; a = off; pad = 0; l = unlocked }

module _ (hart : Hart) where
  open hart use {xlen, current_hartid}

  -- Read a region, change its configuration or address, and write it back.
  unfoldable pub modify_region :
      Bool → ℕ → (Reading → Config) → (Reading → ℕ) → Reading → Pmp hart → Option (ℕ × Pmp hart)
  modify_region pmp region config address held p =
      let old = get_region hart pmp region true held p in
      if not (old.rc == 0)
      then some (old.rc, p)
      else set_region hart pmp region (config old) (address old) held p

  -- metal_pmp_set_address, _set_address_mode, _set_executable, _set_writeable, _set_readable: an
  -- `int` is cut to the bits of its field.
  unfoldable pub set_address : Bool → ℕ → ℕ → Reading → Pmp hart → Option (ℕ × Pmp hart)
  set_address pmp region address held p =
      modify_region pmp region (λ old. old.config) (λ old. address) held p

  unfoldable pub set_address_mode : Bool → ℕ → ℕ → Reading → Pmp hart → Option (ℕ × Pmp hart)
  set_address_mode pmp region mode held p =
      modify_region pmp region (λ old. record (old.config) { a = mode % 4 }) (λ old. old.address)
        held p

  unfoldable pub set_executable : Bool → ℕ → ℕ → Reading → Pmp hart → Option (ℕ × Pmp hart)
  set_executable pmp region x held p =
      modify_region pmp region (λ old. record (old.config) { x = x % 2 }) (λ old. old.address) held
        p

  unfoldable pub set_writeable : Bool → ℕ → ℕ → Reading → Pmp hart → Option (ℕ × Pmp hart)
  set_writeable pmp region w held p =
      modify_region pmp region (λ old. record (old.config) { w = w % 2 }) (λ old. old.address) held
        p

  unfoldable pub set_readable : Bool → ℕ → ℕ → Reading → Pmp hart → Option (ℕ × Pmp hart)
  set_readable pmp region r held p =
      modify_region pmp region (λ old. record (old.config) { r = r % 2 }) (λ old. old.address) held
        p

  -- metal_pmp_lock returns early where the region is locked already.
  unfoldable pub lock : Bool → ℕ → Reading → Pmp hart → Option (ℕ × Pmp hart)
  lock pmp region held p =
      let old = get_region hart pmp region true held p in
      if not (old.rc == 0)
      then some (old.rc, p)
      else if old.config.l == locked
      then some (0, p)
      else set_region hart pmp region (record (old.config) { l = locked }) old.address held p

  -- The getters ignore the return code: on an error they return what their locals hold, which is 0
  -- for the address and indeterminate for the configuration.
  unfoldable pub get_address : Bool → ℕ → Reading → Pmp hart → ℕ
  get_address pmp region held p =
      (get_region hart pmp region true (record held { address = 0 }) p).address

  unfoldable pub get_address_mode : Bool → ℕ → Reading → Pmp hart → ℕ
  get_address_mode pmp region held p =
      (get_region hart pmp region true (record held { address = 0 }) p).config.a

  unfoldable pub get_executable : Bool → ℕ → Reading → Pmp hart → ℕ
  get_executable pmp region held p =
      (get_region hart pmp region true (record held { address = 0 }) p).config.x

  unfoldable pub get_writeable : Bool → ℕ → Reading → Pmp hart → ℕ
  get_writeable pmp region held p =
      (get_region hart pmp region true (record held { address = 0 }) p).config.w

  unfoldable pub get_readable : Bool → ℕ → Reading → Pmp hart → ℕ
  get_readable pmp region held p =
      (get_region hart pmp region true (record held { address = 0 }) p).config.r

  -- The loop of metal_pmp_init at region `i`, with `left` rounds to go; the return codes are dropped.
  unfoldable pub clear_regions : ℕ → ℕ → Reading → Pmp hart → Option (Pmp hart)
  clear_regions zero i held p = some p
  clear_regions (suc left) i held p =
      set_region hart true i init_config 0 held p
      >>= (λ result. clear_regions left (i + 1) held result.1)

  -- What metal_pmp_init does after the loop.
  unfoldable pub detect_granularity : Reading → Pmp hart → Option (Pmp hart)
  detect_granularity held p = do
    probed ← set_address true 0 (2 ^ width xlen - 1) held p
    if not (probed.0 == 0) then some probed.1 else do
      granularity ← get_detected_granularity hart (get_address true 0 held probed.1)
      cleared ← set_address true 0 0 held (record (probed.1) {
        granularity = λ h. if h == current_hartid then granularity else probed.1.granularity h;
      })
      some cleared.1

  unfoldable pub init : Bool → Reading → Pmp hart → Option (Pmp hart)
  init pmp held p =
      if not pmp
      then some p
      else clear_regions (pmp_regions hart) 0 held p >>= detect_granularity held
