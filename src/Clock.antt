-- ===== src/Clock.antt =====
-- metal/clock.h: the callbacks around a change of a clock's rate, linked lists through nodes that
-- their users provide, and the change itself.
use freedom_metal.Prelude.{
  ℕ, zero, suc, Bool, true, false, Option, none, some, ◌==◌, if◌then◌else◌, ◌>>=◌,
}
pub mod Lists
pub mod Order
pub mod Cycle
mod Examples

abbrev pub Ptr : Type 0
Ptr = ℕ

abbrev pub null : Ptr
null = 0

-- metal_clock_callback; a function is a number, and so is what `priv` points at
pub record Node : Type 0 where
  pub callback : ℕ
  pub priv : ℕ
  pub next : Ptr

-- The nodes in memory: `none` where a pointer dangles.
abbrev pub Heap : Type 0
Heap = Ptr → Option Node

abbrev pub write : Heap → Ptr → Node → Heap
write h p n a = if a == p then some n else h a

-- struct metal_clock, but for its vtable
pub record MetalClock : Type 0 where
  pub pre_rate_change_callback : Ptr
  pub post_rate_change_callback : Ptr

-- `p->_next = q`. Here and below `none` is a fault, or a loop that is out of fuel.
unfoldable pub set_next : Ptr → Ptr → Heap → Option Heap
set_next p q h = elim (h p) [ none ↦ none | some n ↦ some (write h p (record n { next = q })) ]

-- The loop of append_to_callbacks, from `current`.
unfoldable pub find_last : ℕ → Ptr → Heap → Option Ptr
find_last zero current h = none
find_last (suc fuel) current h = elim (h current) [
  | none ↦ none
  | some n ↦ let rest = find_last fuel n.next h in if n.next == null then some current else rest
]

-- The head of the list and the memory after it.
unfoldable pub append_to_callbacks : ℕ → Ptr → Ptr → Heap → Option (Ptr × Heap)
append_to_callbacks fuel list cb h = do
  cleared ← set_next cb null h
  if list == null
      then some (cb, cleared)
      else find_last fuel list cleared
        >>= (λ last. set_next last cb cleared >>= (λ linked. some (list, linked)))

-- The clock, the nodes, and what else there is.
abbrev pub Memory : Type 0 → Type 0
Memory state = MetalClock × Heap × state

-- The machine around the clock: what a callback does, to the lists too, and the rate functions of
-- the vtable.
pub record Device : Type 1 where
  pub State : Type 0
  pub call : ℕ → ℕ → Memory State → Memory State
  pub get_rate : State → ℕ
  pub set_rate : ℕ → State → ℕ × State

-- A callback that leaves the clock and the nodes.
abbrev pub beside : {S : Type 0} → (S → S) → Memory S → Memory S
beside change (clk, h, s) = (clk, h, change s)

module _ (device : Device) where
  open device use {State, call, get_rate, set_rate}

  -- The next node is read after the call, which may have changed it.
  unfoldable pub call_all_callbacks : ℕ → Ptr → Memory State → Option (Memory State)
  call_all_callbacks zero current m = none
  call_all_callbacks (suc fuel) current m = if current == null then some m else elim (m.1 current) [
    | none ↦ none
    | some n ↦
        let after = call n.callback n.priv m in
        elim (after.1 current) [ none ↦ none | some left ↦ call_all_callbacks fuel left.next after ]
  ]

  pub get_rate_hz : MetalClock → State → ℕ
  get_rate_hz clk s = get_rate s

  unfoldable pub set_rate_hz : ℕ → MetalClock → ℕ → Heap → State → Option (ℕ × Memory State)
  set_rate_hz fuel clk hz h s = do
    (clk', h', told) ← call_all_callbacks fuel clk.pre_rate_change_callback (clk, h, s)
    after ← call_all_callbacks fuel clk'.post_rate_change_callback (clk', h', (set_rate hz told).1)
    some ((set_rate hz told).0, after)

unfoldable pub register_pre_rate_change_callback :
    ℕ → Ptr → MetalClock × Heap → Option (MetalClock × Heap)
register_pre_rate_change_callback fuel cb (clk, h) = do
  (list, after) ← append_to_callbacks fuel clk.pre_rate_change_callback cb h
  some (record clk { pre_rate_change_callback = list }, after)

unfoldable pub register_post_rate_change_callback :
    ℕ → Ptr → MetalClock × Heap → Option (MetalClock × Heap)
register_post_rate_change_callback fuel cb (clk, h) = do
  (list, after) ← append_to_callbacks fuel clk.post_rate_change_callback cb h
  some (record clk { post_rate_change_callback = list }, after)
