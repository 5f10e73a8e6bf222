-- ===== src/Remapper.antt =====
-- src/drivers/sifive_remapper2.c and metal/remapper.h: the address remapper, over its 32-bit
-- registers. Indices are not negative.
use freedom_metal.Prelude.{
  ℕ, zero, suc, ◌+◌, ◌-◌, ◌*◌, ◌/◌, ◌%◌, ◌^◌, Bool, true, false, Option, none, some, List, [], ◌∷◌,
  ◌==◌, ◌||◌, ltb, if◌then◌else◌, ◌>>=◌, bit_and, bit_or,
}
use freedom_metal.Prelude.Bits.{complement}
use freedom_metal.Prelude.Machine.{Registers, set_bits, clear_bits}
mod Valid
mod Batch
mod Entries
mod Examples

-- The valid registers by their number, and the registers of an entry by its index.
pub data Reg : Type 0 where
  key : Reg
  flush_reg : Reg
  version : Reg
  entries : Reg
  valid : ℕ → Reg
  from_reg : ℕ → Reg
  to_reg : ℕ → Reg

abbrev pub valid_regs_num : ℕ
valid_regs_num = 7

abbrev pub enable_key : ℕ
enable_key = 0x51f15e

-- struct metal_remapper_entry
pub record Entry : Type 0 where
  pub idx : ℕ
  pub from_addr : ℕ
  pub to_addr : ℕ

-- `enables[reg_idx] |= (1 << bit_offset)` for each index. `none` is an access out of the array.
unfoldable pub collect : List ℕ → (ℕ → ℕ) → Option (ℕ → ℕ)
collect [] words = some words
collect (x ∷ xs) words =
    if ltb (x / 32) valid_regs_num
    then collect xs (λ r. if r == x / 32 then bit_or (words r) (2 ^ (x % 32)) else words r)
    else none

module _ (regs : Registers Reg) where
  abbrev pub set_key_state : regs.State → regs.State
  set_key_state s = regs.write s key enable_key

  unfoldable pub enable_remap : ℕ → regs.State → ℕ × regs.State
  enable_remap idx s = (0, set_bits regs (set_key_state s) (valid (idx / 32)) (2 ^ (idx % 32)))

  unfoldable pub disable_remap : ℕ → regs.State → ℕ × regs.State
  disable_remap idx s =
      (0, clear_bits regs 32 (set_key_state s) (valid (idx / 32)) (2 ^ (idx % 32)))

  -- The loop over the valid registers, of which `n` are left, from `i` on; `change` is what is done
  -- with the word of one.
  unfoldable pub change_valids : (ℕ → ℕ → ℕ) → ℕ → ℕ → regs.State → regs.State
  change_valids change zero i s = s
  change_valids change (suc n) i s =
      change_valids change n (i + 1)
        (regs.write (set_key_state s) (valid i) (change i (regs.read s (valid i))))

  unfoldable pub enable_remaps : List ℕ → regs.State → Option (ℕ × regs.State)
  enable_remaps idxs s = collect idxs (λ r. 0) >>= (λ enables.
      some (0, change_valids (λ i word. bit_or word (enables i)) valid_regs_num 0 s))

  unfoldable pub disable_remaps : List ℕ → regs.State → Option (ℕ × regs.State)
  disable_remaps idxs s = collect idxs (λ r. 0) >>= (λ disables.
      some
        (0, change_valids (λ i word. bit_and word (complement 32 (disables i))) valid_regs_num 0 s))

  unfoldable pub get_valid : ℕ → regs.State → ℕ
  get_valid idx s = if ltb idx valid_regs_num then regs.read s (valid idx) else 0

  unfoldable pub set_valid : ℕ → ℕ → regs.State → ℕ × regs.State
  set_valid idx val s =
      if ltb idx valid_regs_num then (0, regs.write (set_key_state s) (valid idx) val) else (1, s)

  unfoldable pub flush : regs.State → ℕ × regs.State
  flush s = (0, regs.write (set_key_state s) flush_reg 1)

  unfoldable pub get_version : regs.State → ℕ
  get_version s = regs.read s version

  unfoldable pub get_entries : regs.State → ℕ
  get_entries s = regs.read s entries

  -- The registers are written as words of 32 bits.
  unfoldable pub set_remap : Entry → regs.State → ℕ × regs.State
  set_remap entry s =
      let from = regs.write (set_key_state s) (from_reg entry.idx) (entry.from_addr % 2 ^ 32) in
      (0, regs.write (set_key_state from) (to_reg entry.idx) (entry.to_addr % 2 ^ 32))

  unfoldable pub set_remaps : List Entry → regs.State → ℕ × regs.State
  set_remaps [] s = (0, s)
  set_remaps (entry ∷ rest) s = set_remaps rest (set_remap entry s).1

  unfoldable pub get_from : ℕ → regs.State → ℕ
  get_from idx s = regs.read s (from_reg idx)

  unfoldable pub get_to : ℕ → regs.State → ℕ
  get_to idx s = regs.read s (to_reg idx)

-- metal_remapper_get_max_from_entry_region_size, with the width that the board has
unfoldable pub get_max_from_entry_region_size : ℕ → ℕ
get_max_from_entry_region_size addr_width = 2 ^ addr_width
