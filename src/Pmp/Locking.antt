-- ===== src/Pmp/Locking.antt =====
-- A locked region on a hart of 32 bits: no sequence of calls of metal/pmp.h changes it.
use native.Mathlib.Decide.{dec_lt}
use freedom_metal.Prelude.{ℕ, ◌≤◌, ◌<◌, ◌≡◌, ◌≢◌, inl, inr, ◌∙◌, Bool, true, some, arith}
use freedom_metal.Prelude.Machine.{IsBank}
use freedom_metal.Pmp.{
  Csr, Hart, rv32, Config, int_to_config, Reading, Pmp, locked, read_config, read_address,
  get_region, write_address, set_region,
}
use freedom_metal.Pmp.Lanes.{IsConfig, write_config32_high}
use freedom_metal.Pmp.Regions.{
  Changed, set_region-cases, AcceptsRegion, Allowed, set_region-get_region,
}
use freedom_metal.Pmp.Calls.{
  Call, target, wanted, wanted_address, CallFits, run, run-set_region, wanted-IsConfig,
  get_region-IsConfig,
}

module _ (hart : Hart) (is_rv32 : hart.xlen ≡ rv32) where
  open hart use {csrs}

  module _ {Accepts : csrs.State → Csr → ℕ → Type 0} (laws : IsBank csrs Accepts) where
    -- One call that returns; the hart accepts the CSR writes that it asks for, and the bit fields
    -- of its uninitialised locals hold what their widths allow.
    pub data Step (p : Pmp hart) : Pmp hart → Type 0 where
      call :
          (c : Call) (pmp : Bool) (held : Reading) (rc : ℕ) {p' : Pmp hart}
          → CallFits c
          → IsConfig held.config
          → (let old = get_region hart pmp (target c) true held p in
              AcceptsRegion hart is_rv32 laws (target c) (wanted c old) (wanted_address c old) p)
          → run hart c pmp held p ≡ some (rc, p')
          → Step p p'

    pub data Reach (p : Pmp hart) : Pmp hart → Type 0 where
      here : Reach p p
      next : {q r : Pmp hart} → Reach p q → Step q r → Reach p r

    -- A locked region, as metal_pmp_get_region reads it.
    module _ (region : ℕ) (held : Reading) (kept : Config) (kept_address : ℕ) where
      abbrev pub Holds : Pmp hart → Type 0
      Holds p =
          get_region hart true region true held p
          ≡ record { rc = 0; config = kept; address = kept_address }

      module _ (has_csr : region < 16) (is_locked : kept.l ≡ locked) where
        was_locked :
            (p : Pmp hart) → Holds p → (int_to_config (read_config hart region p.regs)).l ≡ locked
        unfolding get_region
        was_locked p h = ground arith

        module _ (other : ℕ) (config : Config) (address : ℕ) (scratch : Reading) (p p' : Pmp hart)
            (fits : IsConfig config) (ok : AcceptsRegion hart is_rv32 laws other config address p)
            (changed : Changed hart other config address scratch p p')
            (e : set_region hart true other config address scratch p ≡ some (0, p'))
            (h : Holds p) where
          other_region : other < 16 → Holds p'
          other_region low =
              let ne : other ≢ region = λ same. changed.was_unlocked (rw same (was_locked p h)) in
              let allowed : Allowed hart is_rv32 other config address p = record {
                in_range = changed.in_range;
                has_csr = low;
                is_config = fits;
                coarse = changed.coarse;
                is_unlocked = changed.was_unlocked;
              } in
              let (q, eq, reads, others, same) =
                set_region-get_region hart is_rv32 laws other config address p allowed ok scratch
                  held in
              let unique : q ≡ p' = cc in rw (← unique) (others region has_csr ne ∙ h)

          no_region : 16 ≤ other → Holds p'
          unfolding write_address get_region read_address
          no_region high =
              let regs : p.regs ≡ p'.regs = ground (
                arith,
                changed.written,
                write_config32_high hart is_rv32 other
                    (int_to_config (read_config hart other p.regs)) config p.regs high fits,
              ) in
              rw (← regs) h

        set_region-Holds :
            (other : ℕ) (config : Config) (address : ℕ) (pmp : Bool) (scratch : Reading) (rc : ℕ)
            (p p' : Pmp hart)
            → IsConfig config
            → AcceptsRegion hart is_rv32 laws other config address p
            → set_region hart pmp other config address scratch p ≡ some (rc, p')
            → Holds p
            → Holds p'
        set_region-Holds other config address pmp scratch rc p p' fits ok e h =
            elim (set_region-cases hart other config address scratch p pmp rc p' e) [
              | inl refused ↦ rw refused.2 h
              | inr done ↦
                  let e' : set_region hart true other config address scratch p ≡ some (0, p') =
                    cc in
                  elim (dec_lt other 16) [
                    | yes low ↦
                        other_region other config address scratch p p' fits ok done.2 e' h low
                    | no high ↦
                        no_region other config address scratch p p' fits ok done.2 e' h
                          (omega arith)
                  ]
            ]

        Step-Holds : {p p' : Pmp hart} → Step p p' → Holds p → Holds p'
        Step-Holds {p} {p'} (call c pmp scratch rc fits scratch_fits ok e) h =
            elim (run-set_region hart c pmp scratch rc p p' e) [
              | inl same ↦ rw same h
              | inr asked ↦
                  set_region-Holds (target c) _ _ pmp scratch rc p p'
                    (wanted-IsConfig hart c (get_region hart pmp (target c) true scratch p) fits
                      (get_region-IsConfig hart pmp (target c) scratch p scratch_fits))
                    ok asked h
            ]

        -- On a hart of 32 bits, after any sequence of calls that set a region, an address, a
        -- mode or a permission, or lock a region, and whose CSR writes the hart accepts, a
        -- region that metal_pmp_get_region read as locked reads with the same configuration and
        -- address.
        pub Reach-Holds : {p p' : Pmp hart} → Reach p p' → Holds p → Holds p'
        Reach-Holds here h = h
        Reach-Holds (next r st) h = Step-Holds st (Reach-Holds r h)
