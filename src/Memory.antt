-- ===== src/Memory.antt =====
-- src/memory.c and metal/memory.h: the memories of a board, and the search for that of an address. A
-- uintptr_t has `w` bits.
use freedom_metal.Prelude.{
  ℕ, ◌+◌, ◌-◌, ◌%◌, ◌^◌, Bool, Option, none, some, List, [], ◌∷◌, ltb, leb, ◌&&◌, if◌then◌else◌,
}
mod First
mod Examples

-- struct metal_memory, with the attributes of which the library asks
pub record Memory : Type 0 where
  pub base_address : ℕ
  pub size : ℕ
  pub cachable : Bool
  pub atomics : Bool

unfoldable pub get_base_address : Memory → ℕ
get_base_address m = m.base_address

unfoldable pub get_size : Memory → ℕ
get_size m = m.size

unfoldable pub supports_atomics : Memory → Bool
supports_atomics m = m.atomics

unfoldable pub is_cachable : Memory → Bool
is_cachable m = m.cachable

-- `size - 1` and the sum wrap; a range that wraps is passed over.
unfoldable pub get_memory_from_address : ℕ → List Memory → ℕ → Option Memory
get_memory_from_address w [] address = none
get_memory_from_address w (m ∷ ms) address =
    let lower = get_base_address m in
    let upper = (lower + (get_size m + (2 ^ w - 1)) % 2 ^ w) % 2 ^ w in
    let rest = get_memory_from_address w ms address in
    if ltb upper lower
    then rest
    else if leb lower address && leb address upper
    then some m
    else rest
