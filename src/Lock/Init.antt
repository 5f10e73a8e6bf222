-- ===== src/Lock/Init.antt =====
-- metal_lock_init of metal/lock.h, and its functions on a hart without atomics.
use freedom_metal.Prelude.{
  ℕ, ◌≡◌, refl, sym, ap, Bool, true, false, Option, none, some, List, arith, if◌then◌else◌,
}
use mathlib.Core.Path.{subst}
use freedom_metal.Memory.{Memory, get_memory_from_address, supports_atomics}
use freedom_metal.Lock.{outside, System, lock_init, Reach}
use freedom_metal.Lock.Exclusion.{IsExclusive, Reach-IsExclusive}

unfoldable pub on_atomics : Bool → System → ℕ × System
on_atomics has_atomics s = if has_atomics then (0, lock_init s) else (2, s)

-- With the memory of the lock, where there is one.
unfoldable pub on_memory : Option Memory → System → ℕ × System
on_memory none s = (1, s)
on_memory (some m) s = on_atomics (supports_atomics m) s

-- `atomic` is whether the library is built with __riscv_atomic, and `address` where the lock is.
unfoldable pub initialise : Bool → ℕ → List Memory → ℕ → System → ℕ × System
initialise false w memories address s = (3, s)
initialise true w memories address s = on_memory (get_memory_from_address w memories address) s

-- What _metal_trap is called with, after a write of mtval.
pub record AccessFault : Type 0 where
  pub mtval : ℕ
  pub cause : ℕ

-- metal_lock_take and metal_lock_give without atomics: the trap, and the result where it returns.
unfoldable pub fault : ℕ → AccessFault × ℕ
fault address = (record { mtval = address; cause = 7 }, 1)

-- Where metal_lock_init returns 0 the library is built with atomics and the lock is in a memory
-- that supports them, and from then on, after any sequence of steps of harts that take and give
-- the lock, with no hart at it at first, at most one hart holds the lock and its word is not 0
-- while one does; a hart gives only a lock that it holds.
pub initialise-IsExclusive :
    (atomic : Bool) (w address : ℕ) (memories : List Memory) (s s1 t : System)
    → ((hart : ℕ) → s.place hart ≡ outside)
    → initialise atomic w memories address s ≡ (0, s1)
    → Reach s1 t
    → (atomic ≡ true)
      × (m : Memory) × (get_memory_from_address w memories address ≡ some m)
      × (supports_atomics m ≡ true)
      × IsExclusive t
unfolding initialise on_memory on_atomics
initialise-IsExclusive false w address memories s s1 t start done r =
    absurd (omega (arith, ap (λ (x : ℕ × System). x.0) done))
initialise-IsExclusive true w address memories s s1 t start done r =
    searched (get_memory_from_address w memories address) refl done
  where
    in_memory :
        (m : Memory) (b : Bool)
        → supports_atomics m ≡ b
        → get_memory_from_address w memories address ≡ some m
        → on_atomics b s ≡ (0, s1)
        → (true ≡ true)
          × (m : Memory) × (get_memory_from_address w memories address ≡ some m)
          × (supports_atomics m ≡ true)
          × IsExclusive t
    in_memory m true yes_atomic at e =
        let same : s1 ≡ lock_init s = sym (ap (λ (x : ℕ × System). x.1) e) in
        (refl, m, at, yes_atomic, Reach-IsExclusive s t start (subst (λ x. Reach x t) same r))
    in_memory m false no_atomic at e = absurd (omega (arith, ap (λ (x : ℕ × System). x.0) e))

    searched :
        (o : Option Memory)
        → get_memory_from_address w memories address ≡ o
        → on_memory o s ≡ (0, s1)
        → (true ≡ true)
          × (m : Memory) × (get_memory_from_address w memories address ≡ some m)
          × (supports_atomics m ≡ true)
          × IsExclusive t
    searched none at e = absurd (omega (arith, ap (λ (x : ℕ × System). x.0) e))
    searched (some m) at e = in_memory m (supports_atomics m) refl at e
