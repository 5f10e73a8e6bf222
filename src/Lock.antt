-- ===== src/Lock.antt =====
-- metal/lock.h, with atomics: the harts that take and give one lock, each at its own place in
-- metal_lock_take, and every atomic swap a step of its own.
use freedom_metal.Prelude.{ℕ, ◌*◌, ◌≡◌, Bool, true, false, ltb, ◌==◌, if◌then◌else◌}
mod Exclusion
mod Init
mod Backoff
mod Examples

-- Where a hart is: outside, in the loop of metal_lock_take with its back-off, or holding the lock.
pub data Place : Type 0 where
  outside : Place
  taking : ℕ → Place
  holding : Place

-- METAL_LOCK_BACKOFF_CYCLES, METAL_LOCK_BACKOFF_EXPONENT, METAL_MAX_CORES
abbrev pub backoff_cycles : ℕ
backoff_cycles = 32

abbrev pub backoff_exponent : ℕ
backoff_exponent = 2

abbrev pub max_cores : ℕ
max_cores = 8

-- `_state` of struct metal_lock, and the harts.
pub record System : Type 0 where
  pub state : ℕ
  pub place : ℕ → Place

abbrev pub move : ℕ → Place → System → ℕ → Place
move hart p s other = if other == hart then p else s.place other

-- metal_lock_init on memory that supports atomics
pub lock_init : System → System
lock_init s = record s { state = 0 }

-- The back-off of the next round.
pub next_backoff : ℕ → ℕ
next_backoff backoff =
    if ltb backoff (backoff_cycles * max_cores) then backoff * backoff_exponent else backoff

-- A round of the loop of metal_lock_take: the swap, and what the hart does with the old value.
pub try_take : ℕ → ℕ → System → System
try_take hart backoff s =
    let old = s.state in
    record {
      state = 1;
      place = move hart (if old == 0 then holding else taking (next_backoff backoff)) s;
    }

-- The swap of metal_lock_give.
pub give : ℕ → System → System
give hart s = record { state = 0; place = move hart outside s }

-- The steps. Only a hart that holds the lock gives it.
pub data Step : System → System → Type 0 where
  enters :
      {s : System} (hart : ℕ)
      → s.place hart ≡ outside
      → Step s (record s { place = move hart (taking 1) s })
  tries :
      {s : System} (hart backoff : ℕ)
      → s.place hart ≡ taking backoff
      → Step s (try_take hart backoff s)
  gives : {s : System} (hart : ℕ) → s.place hart ≡ holding → Step s (give hart s)

pub data Reach : System → System → Type 0 where
  here : {s : System} → Reach s s
  step : {s t u : System} → Reach s t → Step t u → Reach s u
