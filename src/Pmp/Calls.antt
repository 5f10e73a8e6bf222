-- ===== src/Pmp/Calls.antt =====
-- The calls of metal/pmp.h that change a region, as data: each comes down to metal_pmp_set_region
-- with the region's old configuration or address changed in one place.
use freedom_metal.Prelude.{ℕ, ◌%◌, ◌≡◌, ◌⊎◌, Bool, true, Option, some, arith}
use freedom_metal.Pmp.{Hart, Pmp, Config, Reading, locked, read_config, get_region, set_region}
use freedom_metal.Pmp.Api
use freedom_metal.Pmp.Lanes.{IsConfig, int_to_config-IsConfig}

pub data Call : Type 0 where
  set_region_call : ℕ → Config → ℕ → Call
  set_address_call : ℕ → ℕ → Call
  set_address_mode_call : ℕ → ℕ → Call
  set_executable_call : ℕ → ℕ → Call
  set_writeable_call : ℕ → ℕ → Call
  set_readable_call : ℕ → ℕ → Call
  lock_call : ℕ → Call

abbrev pub target : Call → ℕ
target (set_region_call region config address) = region
target (set_address_call region address) = region
target (set_address_mode_call region mode) = region
target (set_executable_call region x) = region
target (set_writeable_call region w) = region
target (set_readable_call region r) = region
target (lock_call region) = region

-- What the call asks for, of the configuration and address that it reads.
abbrev pub wanted : Call → Reading → Config
wanted (set_region_call region config address) old = config
wanted (set_address_call region address) old = old.config
wanted (set_address_mode_call region mode) old = record (old.config) { a = mode % 4 }
wanted (set_executable_call region x) old = record (old.config) { x = x % 2 }
wanted (set_writeable_call region w) old = record (old.config) { w = w % 2 }
wanted (set_readable_call region r) old = record (old.config) { r = r % 2 }
wanted (lock_call region) old = record (old.config) { l = locked }

abbrev pub wanted_address : Call → Reading → ℕ
wanted_address (set_region_call region config address) old = address
wanted_address (set_address_call region address) old = address
wanted_address _ old = old.address

-- A configuration that a caller passes fits its bit fields.
abbrev pub CallFits : Call → Type 0
CallFits (set_region_call region config address) = IsConfig config
CallFits _ = Unit

module _ (hart : Hart) where
  unfoldable pub run : Call → Bool → Reading → Pmp hart → Option (ℕ × Pmp hart)
  run (set_region_call region config address) pmp held p =
      set_region hart pmp region config address held p
  run (set_address_call region address) pmp held p = Api.set_address hart pmp region address held p
  run (set_address_mode_call region mode) pmp held p =
      Api.set_address_mode hart pmp region mode held p
  run (set_executable_call region x) pmp held p = Api.set_executable hart pmp region x held p
  run (set_writeable_call region w) pmp held p = Api.set_writeable hart pmp region w held p
  run (set_readable_call region r) pmp held p = Api.set_readable hart pmp region r held p
  run (lock_call region) pmp held p = Api.lock hart pmp region held p

  -- A call that returns either changes nothing, or is the metal_pmp_set_region that it asks for.
  pub run-set_region :
      (c : Call) (pmp : Bool) (held : Reading) (rc : ℕ) (p p' : Pmp hart)
      → run c pmp held p ≡ some (rc, p')
      → let old = get_region hart pmp (target c) true held p in
        (p' ≡ p)
        ⊎ (set_region hart pmp (target c) (wanted c old) (wanted_address c old) held p
            ≡ some (rc, p'))
  unfolding run Api.set_address Api.set_address_mode Api.set_executable Api.set_writeable
      Api.set_readable Api.lock Api.modify_region
  run-set_region (set_region_call region config address) pmp held rc p p' e = ground arith
  run-set_region (set_address_call region address) pmp held rc p p' e = ground arith
  run-set_region c pmp held rc p p' e = ground arith

  -- The configuration that a call asks for fits, if what it reads does.
  pub wanted-IsConfig :
      (c : Call) (old : Reading) → CallFits c → IsConfig old.config → IsConfig (wanted c old)
  wanted-IsConfig (set_region_call region config address) old fits h = fits
  wanted-IsConfig c old fits h = omega arith

  pub get_region-IsConfig :
      (pmp : Bool) (region : ℕ) (held : Reading) (p : Pmp hart)
      → IsConfig held.config
      → IsConfig ((get_region hart pmp region true held p).config)
  unfolding get_region
  get_region-IsConfig pmp region held p h =
      ground (arith, int_to_config-IsConfig (read_config hart region p.regs))
