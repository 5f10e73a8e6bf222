-- ===== src/Memory/First.antt =====
-- The memory that src/memory.c finds for an address.
use freedom_metal.Prelude.{
  ℕ, ◌+◌, ◌-◌, ◌%◌, ◌^◌, ◌≤◌, ◌<◌, ◌≡◌, ◌∙◌, refl, ap, Bool, true, false, Option, none, some, List,
  [], ◌∷◌, ltb, leb, ◌&&◌, if◌then◌else◌, arith,
}
use freedom_metal.Prelude.Fields.{pow_pos}
use native.Mathlib.Nat.{mod-eq_of_lt, add-mod_right}
use freedom_metal.Memory.{Memory, get_base_address, get_size, get_memory_from_address}

-- The first memory of a list that a test accepts.
abbrev pub first : (Memory → Bool) → List Memory → Option Memory
first test [] = none
first test (m ∷ ms) = if test m then some m else first test ms

abbrev pub contains : ℕ → Memory → Bool
contains address m = leb m.base_address address && ltb address (m.base_address + m.size)

-- Memories that are not empty and end within the address space.
abbrev pub all_proper : ℕ → List Memory → Bool
all_proper w [] = true
all_proper w (m ∷ ms) = (ltb 0 m.size && leb (m.base_address + m.size) (2 ^ w)) && all_proper w ms

last_address :
    (w base size : ℕ)
    → 0 < size
    → base + size ≤ 2 ^ w
    → (base + (size + (2 ^ w - 1)) % 2 ^ w) % 2 ^ w ≡ base + (size - 1)
last_address w base size some_size fits =
    let sum : size + (2 ^ w - 1) ≡ size - 1 + 2 ^ w = omega (arith, some_size, pow_pos w) in
    let wrapped : (size + (2 ^ w - 1)) % 2 ^ w ≡ size - 1 =
      ap (λ (x : ℕ). x % 2 ^ w) sum
      ∙ add-mod_right (size - 1) (2 ^ w)
      ∙ mod-eq_of_lt (omega (arith, some_size, fits)) in
    rw (wrapped) (mod-eq_of_lt (omega (arith, some_size, fits)))

-- On memories that are not empty and end within the address space, metal_get_memory_from_address
-- finds the first one in which the address lies, from its base to below its base and size, and
-- none where there is no such memory.
pub get_memory_from_address-first :
    (w : ℕ) (ms : List Memory) (address : ℕ)
    → all_proper w ms ≡ true
    → get_memory_from_address w ms address ≡ first (contains address) ms
unfolding get_memory_from_address get_base_address get_size
get_memory_from_address-first w [] address ok = refl
get_memory_from_address-first w (m ∷ ms) address ok =
    let some_size : 0 < m.size = ground (arith, ok) in
    let fits : m.base_address + m.size ≤ 2 ^ w = ground (arith, ok) in
    let rest = get_memory_from_address-first w ms address (ground (arith, ok)) in
    let upper = last_address w m.base_address m.size some_size fits in
    let no_wrap : ltb (m.base_address + (m.size - 1)) m.base_address ≡ false = ground arith in
    let same : leb address (m.base_address + (m.size - 1)) ≡ ltb address (m.base_address + m.size) =
      ground (arith, some_size) in
    rw (upper, no_wrap, same, rest) refl
