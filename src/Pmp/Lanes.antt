-- ===== src/Pmp/Lanes.antt =====
-- The byte of a region in its pmpcfg register, on a hart of 32 bits: what the `csrc` and the
-- `csrs` of metal_pmp_set_region leave in the register, and what the other registers keep.
use native.Mathlib.Nat.{mod-eq_of_lt}
use native.Mathlib.Decide.{ℕ_discrete}
use freedom_metal.Prelude.{
  ℕ, ◌+◌, ◌*◌, ◌/◌, ◌%◌, ◌^◌, ◌≤◌, ◌<◌, ◌≡◌, ◌≢◌, ◌⊎◌, none, some, arith, ◌==◌, if◌then◌else◌,
}
use freedom_metal.Prelude.Fields.{
  mask, extract, extract-lt, insert, extract-insert_self, extract-insert_other, shifted-lt,
}
use freedom_metal.Prelude.Machine.{
  IsBank, AcceptsBoth, replaced-read, replaced-read_other, shift_int, int_to_size, set_bits,
  clear_bits,
}
use freedom_metal.Pmp.{
  Csr, pmpaddr, pmpcfg, Hart, rv32, Config, config_to_int, int_to_config, config_csr,
  replace_config, write_config, read_config,
}

-- A configuration whose bit fields hold what their widths allow.
pub record IsConfig (c : Config) : Type 0 where
  pub r_fits : c.r < 2
  pub w_fits : c.w < 2
  pub x_fits : c.x < 2
  pub a_fits : c.a < 4
  pub pad_fits : c.pad < 4
  pub l_fits : c.l < 2

pub config_to_int-lt : {c : Config} → IsConfig c → config_to_int c < 256
unfolding config_to_int
config_to_int-lt h = omega arith

pub int_to_config-config_to_int : (c : Config) → IsConfig c → int_to_config (config_to_int c) ≡ c
unfolding int_to_config config_to_int
int_to_config-config_to_int c h = ground arith

pub config_to_int-int_to_config : (b : ℕ) → b < 256 → config_to_int (int_to_config b) ≡ b
unfolding int_to_config config_to_int
config_to_int-int_to_config b h = omega arith

pub int_to_config-IsConfig : (b : ℕ) → IsConfig (int_to_config b)
unfolding int_to_config
int_to_config-IsConfig b = omega arith

-- The first bit of the byte of `region`.
abbrev pub lane32 : ℕ → ℕ
lane32 region = 8 * (region % 4)

-- A byte that is shifted to a lane, as an `int` and as a word of 32 bits.
pub shift_int_lane :
    (b region : ℕ) → b < 256 → shift_int b (lane32 region) ≡ some (b * 2 ^ lane32 region)
shift_int_lane b region h =
    let fits : b * 2 ^ lane32 region < 2 ^ 32 = shifted-lt 32 8 (lane32 region) b h (omega arith) in
    ground (arith, mod-eq_of_lt fits)

pub int_to_size32 : (i : ℕ) → int_to_size 32 i ≡ i
int_to_size32 i = ground arith

-- Two regions of one register have lanes that do not overlap.
lanes_apart :
    (region other : ℕ)
    → region ≢ other
    → region / 4 ≡ other / 4
    → (lane32 other + 8 ≤ lane32 region) ⊎ (lane32 region + 8 ≤ lane32 other)
lanes_apart region other ne same = ground arith

module _ (hart : Hart) (is_rv32 : hart.xlen ≡ rv32) where
  open hart use {csrs}

  pub config_csr32 :
      (region : ℕ) → region < 16 → config_csr hart region ≡ some (pmpcfg (region / 4))
  unfolding config_csr
  config_csr32 region h = rw is_rv32 (ground arith)

  pub config_csr32_high : (region : ℕ) → 16 ≤ region → config_csr hart region ≡ none
  unfolding config_csr
  config_csr32_high region h = rw is_rv32 (ground arith)

  pub read_config32 :
      (region : ℕ) (s : csrs.State)
      → region < 16
      → read_config hart region s ≡ extract 8 (lane32 region) (csrs.read s (pmpcfg (region / 4)))
  unfolding read_config
  read_config32 region s h = rw (config_csr32 region h) (rw is_rv32)

  pub read_config-lt : (region : ℕ) (s : csrs.State) → region < 16 → read_config hart region s < 256
  read_config-lt region s h =
      rw (read_config32 region s h)
        (extract-lt 8 (lane32 region) (csrs.read s (pmpcfg (region / 4))))

  -- The word that the two instructions are to leave in the register of `region`.
  abbrev pub next_word : ℕ → Config → csrs.State → ℕ
  next_word region config s =
      insert 32 8 (lane32 region) (csrs.read s (pmpcfg (region / 4))) (config_to_int config)

  -- The two instructions.
  abbrev pub replaced_config : ℕ → Config → csrs.State → csrs.State
  replaced_config region config s =
      set_bits csrs (clear_bits csrs 32 s (pmpcfg (region / 4)) (mask 8 (lane32 region)))
        (pmpcfg (region / 4)) (config_to_int config * 2 ^ lane32 region)

  -- Where the configuration changes, one `csrc` and one `csrs`; else nothing.
  pub write_config32 :
      (region : ℕ) (old new : Config) (s : csrs.State)
      → region < 16
      → IsConfig new
      → write_config hart region old new s
        ≡ some (if config_to_int old == config_to_int new then s else replaced_config region new s)
  unfolding write_config replace_config
  write_config32 region old new s h c = rw is_rv32 (
      ground (
        arith,
        shift_int_lane 255 region (omega arith),
        shift_int_lane (config_to_int new) region (config_to_int-lt c),
        config_csr32 region h,
        int_to_size32 (255 * 2 ^ lane32 region),
        int_to_size32 (config_to_int new * 2 ^ lane32 region),
      ))

  -- A region from 16 on has no register: nothing is written.
  pub write_config32_high :
      (region : ℕ) (old new : Config) (s : csrs.State)
      → 16 ≤ region
      → IsConfig new
      → write_config hart region old new s ≡ some s
  unfolding write_config replace_config
  write_config32_high region old new s h c = rw is_rv32 (
      ground (
        arith,
        shift_int_lane 255 region (omega arith),
        shift_int_lane (config_to_int new) region (config_to_int-lt c),
        config_csr32_high region h,
      ))

  module _ {Accepts : csrs.State → Csr → ℕ → Type 0} (laws : IsBank csrs Accepts) where
    -- The hart accepts what the two instructions write.
    abbrev pub AcceptsConfig : ℕ → Config → csrs.State → Type 0
    AcceptsConfig region config s =
        AcceptsBoth laws 32 s (pmpcfg (region / 4)) (mask 8 (lane32 region))
          (config_to_int config * 2 ^ lane32 region)

    module _ (region : ℕ) (config : Config) (s : csrs.State) (low : region < 16)
        (fits : IsConfig config) (ok : AcceptsConfig region config s) where
      word :
          csrs.read (replaced_config region config s) (pmpcfg (region / 4))
          ≡ next_word region config s
      word =
          replaced-read laws 32 s (pmpcfg (region / 4)) (mask 8 (lane32 region))
            (config_to_int config * 2 ^ lane32 region) ok

      pub read_config-replaced_config_self :
          read_config hart region (replaced_config region config s) ≡ config_to_int config
      read_config-replaced_config_self =
          rw (read_config32 region _ low, word)
            (extract-insert_self 32 8 (lane32 region) (csrs.read s (pmpcfg (region / 4)))
              (config_to_int config) (config_to_int-lt fits) (omega arith))

      pub read_config-replaced_config_other :
          (other : ℕ)
          → other < 16
          → region ≢ other
          → read_config hart other (replaced_config region config s) ≡ read_config hart other s
      read_config-replaced_config_other other low' ne = elim (ℕ_discrete (region / 4) (other / 4)) [
        | yes same ↦
            rw
              (
                read_config32 other (replaced_config region config s) low',
                read_config32 other s low',
                ← same,
                word,
              )
              (extract-insert_other 32 8 (lane32 region) (csrs.read s (pmpcfg (region / 4)))
                (config_to_int config) 8 (lane32 other) (config_to_int-lt fits) (omega arith)
                (omega arith) (lanes_apart region other ne same))
        | no differ ↦ rw (
          read_config32 other (replaced_config region config s) low',
          read_config32 other s low',
          replaced-read_other laws 32 s (pmpcfg (region / 4)) (mask 8 (lane32 region))
              (config_to_int config * 2 ^ lane32 region) (pmpcfg (other / 4)) (λ e. differ (cc)),
        )
      ]

      pub read-replaced_config :
          (i : ℕ)
          → csrs.read (replaced_config region config s) (pmpaddr i) ≡ csrs.read s (pmpaddr i)
      read-replaced_config i =
          replaced-read_other laws 32 s (pmpcfg (region / 4)) (mask 8 (lane32 region))
            (config_to_int config * 2 ^ lane32 region) (pmpaddr i) (λ e. cc)
