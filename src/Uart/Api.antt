-- ===== src/Uart/Api.antt =====
-- The start of src/drivers/sifive_uart0.c: the two callbacks on the list of the clock, and the pins.
use freedom_metal.Prelude.{
  ℕ, ◌≤◌, ◌≡◌, ◌≢◌, ◌∙◌, refl, Option, none, some, ◌>>=◌, false, ◌||◌, [], ◌∷◌, ◌++◌, length, arith,
}
use freedom_metal.Uart.{Hardware, Uart, set_baud_rate}
use freedom_metal.Clock.{
  Ptr, null, MetalClock, Heap, Node, write, register_pre_rate_change_callback,
  register_post_rate_change_callback,
}
use freedom_metal.Clock.Lists.{Call, has, node, IsList-write, has-append}
use freedom_metal.Clock.Order.{
  Schedule, Implements, IsFresh, register_pre-refines, register_post-refines,
}

-- The functions that the callbacks hold
abbrev pub pre_rate_change_callback_func : ℕ
pre_rate_change_callback_func = 1

abbrev pub post_rate_change_callback_func : ℕ
post_rate_change_callback_func = 2

-- The two nodes within the UART's structure, and the structure itself.
pub record Places : Type 0 where
  pub guart : ℕ
  pub pre_node : Ptr
  pub post_node : Ptr

-- `callback` and `priv` are written; `next` is as it was. A place that is not valid is undefined.
unfoldable pub set_callback : Ptr → ℕ → ℕ → Heap → Option Heap
set_callback p function argument h = elim (h p) [
  | none ↦ none
  | some n ↦ some (write h p (record n { callback = function; priv = argument }))
]

-- The nodes that init registers with a clock.
unfoldable pub attach : ℕ → Places → MetalClock × Heap → Option (MetalClock × Heap)
attach fuel at (clk, h) = do
  h1 ← set_callback at.pre_node pre_rate_change_callback_func at.guart h
  (clk1, h2) ← register_pre_rate_change_callback fuel at.pre_node (clk, h1)
  h3 ← set_callback at.post_node post_rate_change_callback_func at.guart h2
  register_post_rate_change_callback fuel at.post_node (clk1, h3)

unfoldable pub enable : {Pins : Type 0} → Option (Pins → Pins) → Pins → Pins
enable none pins = pins
enable (some enable_io) pins = enable_io pins

module _ (hardware : Hardware) (Pins : Type 0) where
  -- The UART, the memory of the nodes, and the pins' controller.
  pub record Board : Type 0 where
    pub uart : Uart hardware
    pub heap : Heap
    pub pins : Pins

  -- With the clock and its rate, and enable_io of the pins' controller with its two selectors, where
  -- there are such.
  unfoldable pub init :
      ℕ
      → Places
      → Option (MetalClock × ℕ)
      → Option (Pins → Pins)
      → ℕ
      → Board
      → Option (Option MetalClock × Board)
  init fuel at none pinmux baud b = do
    u ← set_baud_rate hardware none baud b.uart
    some (none, record b { uart = u; pins = enable pinmux b.pins })
  init fuel at (some (clk, clock_rate)) pinmux baud b = do
    (clk', h) ← attach fuel at (clk, b.heap)
    u ← set_baud_rate hardware (some clock_rate) baud b.uart
    some (some clk', record { uart = u; heap = h; pins = enable pinmux b.pins })

abbrev pub pre_call : Places → Call
pre_call at = record {
  place = at.pre_node;
  callback = pre_rate_change_callback_func;
  priv = at.guart;
}

abbrev pub post_call : Places → Call
post_call at = record {
  place = at.post_node;
  callback = post_rate_change_callback_func;
  priv = at.guart;
}

-- Two nodes that are in memory, apart, and on neither list.
pub record IsUnused (h : Heap) (s : Schedule) (at : Places) : Type 0 where
  pub pre_nonnull : at.pre_node ≢ null
  pub post_nonnull : at.post_node ≢ null
  pub distinct : at.post_node ≢ at.pre_node
  pub pre_out : (has at.pre_node s.pre || has at.pre_node s.post) ≡ false
  pub post_out : (has at.post_node s.pre || has at.post_node s.post) ≡ false
  pub pre_there : (n : Node) × (h at.pre_node ≡ some n)
  pub post_there : (n : Node) × (h at.post_node ≡ some n)

Implements-write :
    (h : Heap) (clk : MetalClock) (s : Schedule) (p : Ptr) (n : Node)
    → Implements h clk s
    → (has p s.pre || has p s.post) ≡ false
    → Implements (write h p n) clk s
Implements-write h clk s p n is out = record {
  is_pre = IsList-write h clk.pre_rate_change_callback p n s.pre is.is_pre (ground (arith, out));
  is_post =
      IsList-write h clk.post_rate_change_callback p n s.post is.is_post (ground (arith, out));
  apart = is.apart;
}

set_callback-writes :
    (h : Heap) (c : Call) (n : Node)
    → h c.place ≡ some n
    → set_callback c.place c.callback c.priv h ≡ some (write h c.place (node c n.next))
unfolding set_callback
set_callback-writes h c n there = rw (there, set_callback) refl

attach-steps :
    (fuel : ℕ) (at : Places) (clk : MetalClock) (h : Heap) {clk1 clk2 : MetalClock}
    {h1 h2 h3 h4 : Heap}
    → set_callback at.pre_node pre_rate_change_callback_func at.guart h ≡ some h1
    → register_pre_rate_change_callback fuel at.pre_node (clk, h1) ≡ some (clk1, h2)
    → set_callback at.post_node post_rate_change_callback_func at.guart h2 ≡ some h3
    → register_post_rate_change_callback fuel at.post_node (clk1, h3) ≡ some (clk2, h4)
    → attach fuel at (clk, h) ≡ some (clk2, h4)
unfolding attach
attach-steps fuel at clk h e1 e2 e3 e4 = rw (e1, e2, e3) e4

-- Where a clock's lists stand for two lists of calls, and the two nodes of a UART are in memory,
-- not null, apart, and on neither list, registering them ends with fuel for the nodes of each
-- list: the call of the first comes last before a change of rate, and that of the second last
-- after it, both with the UART as their argument.
pub attach-refines :
    (fuel : ℕ) (h : Heap) (clk : MetalClock) (s : Schedule) (at : Places)
    → Implements h clk s
    → IsUnused h s at
    → length s.pre ≤ fuel
    → length s.post ≤ fuel
    → (clk' : MetalClock) × (g : Heap) × (attach fuel at (clk, h) ≡ some (clk', g))
      × Implements g clk'
          (record { pre = s.pre ++ (pre_call at ∷ []); post = s.post ++ (post_call at ∷ []) })
attach-refines fuel h clk s at is unused enough enough' =
    let (n, there) = unused.pre_there in
    let (m, there') = unused.post_there in
    let h1 : Heap = write h at.pre_node (node (pre_call at) n.next) in
    let fresh : IsFresh h1 s (pre_call at) = record {
      nonnull = unused.pre_nonnull;
      not_pre = ground (arith, unused.pre_out);
      not_post = ground (arith, unused.pre_out);
      old = n.next;
      cell = ground arith;
    } in
    let (clk1, h2, done, is1, same) =
      register_pre-refines fuel h1 clk s (pre_call at)
        (Implements-write h clk s at.pre_node (node (pre_call at) n.next) is unused.pre_out) fresh
        enough in
    let s1 : Schedule = record s { pre = s.pre ++ (pre_call at ∷ []) } in
    let out : has at.post_node (s.pre ++ (pre_call at ∷ [])) ≡ false =
      ground (
        arith,
        unused.post_out,
        unused.distinct,
        has-append at.post_node s.pre (pre_call at ∷ []),
      ) in
    let kept : h2 at.post_node ≡ some m =
      same at.post_node out ∙ ground (arith, unused.distinct, there') in
    let h3 : Heap = write h2 at.post_node (node (post_call at) m.next) in
    let fresh' : IsFresh h3 s1 (post_call at) = record {
      nonnull = unused.post_nonnull;
      not_pre = out;
      not_post = ground (arith, unused.post_out);
      old = m.next;
      cell = ground arith;
    } in
    let (clk2, h4, done', is2, same') =
      register_post-refines fuel h3 clk1 s1 (post_call at)
        (Implements-write h2 clk1 s1 at.post_node (node (post_call at) m.next) is1
          (ground (arith, out, unused.post_out)))
        fresh' enough' in
    (
      clk2,
      h4,
      attach-steps fuel at clk h (set_callback-writes h (pre_call at) n there) done
          (set_callback-writes h2 (post_call at) m kept) done',
      is2,
    )
