-- ===== src/Lock/Examples.antt =====
-- Two harts at the lock of metal/lock.h.
use freedom_metal.Prelude.{◌≡◌, true, false, some, List, [], ◌∷◌, refl, if◌then◌else◌, ◌==◌}
use freedom_metal.Lock.{
  System, outside, taking, lock_init, try_take, Reach, here, step, enters, tries,
}
use freedom_metal.Memory.{
  Memory, get_memory_from_address, get_base_address, get_size, supports_atomics,
}
use freedom_metal.Lock.Backoff.{IsBounded, Reach-IsBounded}
use freedom_metal.Lock.Init.{initialise, on_memory, on_atomics, initialise-IsExclusive}
use freedom_metal.Lock.Exclusion.{IsExclusive}

abbrev away : System
away = record { state = 1; place = λ h. outside }

-- Hart 0 has the lock, and hart 1 has tried once.
abbrev entered : System
entered = record {
  state = 0;
  place = λ h. if h == 1 then taking 1 else if h == 0 then taking 1 else outside;
}

abbrev contended : System
contended = try_take 1 1 (try_take 0 1 entered)

contended_reached : Reach (lock_init away) contended
unfolding lock_init try_take
contended_reached =
    step (step (step (step here (enters 0 refl)) (enters 1 refl)) (tries 0 1 refl)) (tries 1 1 refl)

abbrev memories : List Memory
memories =
    record { base_address = 0x20000000; size = 0x10000000; cachable = true; atomics = false }
    ∷ record { base_address = 0x80000000; size = 0x4000; cachable = true; atomics = true }
    ∷ []

initialised : initialise true 32 memories 0x80000010 away ≡ (0, lock_init away)
unfolding initialise on_memory on_atomics lock_init get_memory_from_address get_base_address
    get_size supports_atomics
initialised = refl

initialise-IsExclusive_example :
    (true ≡ true)
    × (m : Memory) × (get_memory_from_address 32 memories 0x80000010 ≡ some m)
    × (supports_atomics m ≡ true)
    × IsExclusive contended
initialise-IsExclusive_example =
    initialise-IsExclusive true 32 0x80000010 memories away (lock_init away) contended (λ h. refl)
      initialised contended_reached

Reach-IsBounded_example : IsBounded contended
Reach-IsBounded_example = Reach-IsBounded away contended (λ h. refl) contended_reached
