-- ===== src/Memory/Examples.antt =====
-- Two memories, and the theorem about src/memory.c at them.
use freedom_metal.Prelude.{◌≡◌, refl, true, false, some, [], ◌∷◌}
use freedom_metal.Memory.{Memory, get_memory_from_address, get_base_address, get_size}
use freedom_metal.Memory.First.{first, contains, get_memory_from_address-first}

abbrev ram : Memory
ram = record { base_address = 0x80000000; size = 0x4000; cachable = true; atomics = true }

abbrev flash : Memory
flash = record { base_address = 0x20000000; size = 0x10000000; cachable = true; atomics = false }

get_memory_from_address-first_example :
    get_memory_from_address 32 (flash ∷ ram ∷ []) 0x80003fff
    ≡ first (contains 0x80003fff) (flash ∷ ram ∷ [])
get_memory_from_address-first_example =
    get_memory_from_address-first 32 (flash ∷ ram ∷ []) 0x80003fff refl

-- A memory of size 0 at address 0 has every address.
empty_found :
    get_memory_from_address 32 (record ram { base_address = 0; size = 0 } ∷ []) 0x80000000
    ≡ some (record ram { base_address = 0; size = 0 })
unfolding get_memory_from_address get_base_address get_size
empty_found = refl
