-- ===== src/Clock/Order.antt =====
-- The registrations and the change of rate of metal/clock.h, seen as lists of calls.
use freedom_metal.Prelude.{
  ℕ, zero, suc, ◌≤◌, ◌<◌, ◌≡◌, ◌≢◌, ◌∙◌, refl, ap, true, false, some, List, [], ◌∷◌, ◌++◌, length,
  ◌==◌, arith,
}
use freedom_metal.Clock.{
  Ptr, null, Node, Heap, Memory, MetalClock, Device, call_all_callbacks, set_rate_hz,
  register_pre_rate_change_callback, register_post_rate_change_callback,
}
use freedom_metal.Clock.Lists.{
  Call, has, node, IsList, IsList-frame, has-append, append_to_callbacks-appends,
}

-- What a clock promises: the calls before a change of rate and those after it, in order.
pub record Schedule : Type 0 where
  pub pre : List Call
  pub post : List Call

pub record Implements (h : Heap) (clk : MetalClock) (s : Schedule) : Type 0 where
  pub is_pre : IsList h clk.pre_rate_change_callback s.pre
  pub is_post : IsList h clk.post_rate_change_callback s.post
  pub apart : (a : Ptr) → has a s.pre ≡ true → has a s.post ≡ false

-- A node that no list has yet.
pub record IsFresh (h : Heap) (s : Schedule) (new : Call) : Type 0 where
  pub nonnull : new.place ≢ null
  pub not_pre : has new.place s.pre ≡ false
  pub not_post : has new.place s.post ≡ false
  pub old : Ptr
  pub cell : h new.place ≡ some (node new old)

-- On a clock whose two lists of nodes stand for two lists of calls and share no node,
-- registering a node that is on neither, with fuel for the nodes of the first list, ends and
-- leaves the clock standing for the first list with the call of the node added at its end, and
-- the second unchanged; no other node of memory changes.
pub register_pre-refines :
    (fuel : ℕ) (h : Heap) (clk : MetalClock) (s : Schedule) (new : Call)
    → Implements h clk s
    → IsFresh h s new
    → length s.pre ≤ fuel
    → (clk' : MetalClock) × (g : Heap) × (register_pre_rate_change_callback fuel new.place (clk, h)
        ≡ some (clk', g))
      × Implements g clk' (record s { pre = s.pre ++ (new ∷ []) })
      × ((a : Ptr) → has a (s.pre ++ (new ∷ [])) ≡ false → g a ≡ h a)
unfolding register_pre_rate_change_callback
register_pre-refines fuel h clk s new is fresh enough =
    let (head, g, done, list, same) =
      append_to_callbacks-appends fuel h clk.pre_rate_change_callback s.pre new fresh.old is.is_pre
        enough fresh.nonnull fresh.not_pre fresh.cell in
    (
      record clk { pre_rate_change_callback = head },
      g,
      rw (done, register_pre_rate_change_callback) refl,
      record {
        is_pre = list;
        is_post = IsList-frame h g clk.post_rate_change_callback s.post is.is_post (λ a i.
            same a (ground (arith, i, is.apart a, fresh.not_post, has-append a s.pre (new ∷ []))));
        apart = λ a i. ground (arith, i, is.apart a, fresh.not_post, has-append a s.pre (new ∷ []));
      },
      same,
    )

-- On a clock whose two lists of nodes stand for two lists of calls and share no node,
-- registering a node that is on neither for the calls after a change, with fuel for the nodes of
-- the second list, ends and leaves the clock standing for the first list unchanged, and the
-- second with the call of the node added at its end; no other node of memory changes.
pub register_post-refines :
    (fuel : ℕ) (h : Heap) (clk : MetalClock) (s : Schedule) (new : Call)
    → Implements h clk s
    → IsFresh h s new
    → length s.post ≤ fuel
    → (clk' : MetalClock) × (g : Heap) × (register_post_rate_change_callback fuel new.place (clk, h)
        ≡ some (clk', g))
      × Implements g clk' (record s { post = s.post ++ (new ∷ []) })
      × ((a : Ptr) → has a (s.post ++ (new ∷ [])) ≡ false → g a ≡ h a)
unfolding register_post_rate_change_callback
register_post-refines fuel h clk s new is fresh enough =
    let (head, g, done, list, same) =
      append_to_callbacks-appends fuel h clk.post_rate_change_callback s.post new fresh.old
        is.is_post enough fresh.nonnull fresh.not_post fresh.cell in
    (
      record clk { post_rate_change_callback = head },
      g,
      rw (done, register_post_rate_change_callback) refl,
      record {
        is_pre = IsList-frame h g clk.pre_rate_change_callback s.pre is.is_pre (λ a i.
            same a (ground (arith, i, is.apart a, fresh.not_pre, has-append a s.post (new ∷ []))));
        is_post = list;
        apart = λ a i. ground (arith, i, is.apart a, fresh.not_pre, has-append a s.post (new ∷ []));
      },
      same,
    )

module _ (device : Device) where
  open device use {State, call, set_rate}

  -- No callback changes the clock or the nodes.
  abbrev pub Keeps : Type 0
  Keeps =
      (callback priv : ℕ) (m : Memory State)
      → ((call callback priv m).0 ≡ m.0) × ((call callback priv m).1 ≡ m.1)

  -- The calls of a list, in order.
  unfoldable pub run : List Call → Memory State → Memory State
  run [] m = m
  run (c ∷ cs) m = run cs (call c.callback c.priv m)

  run-keeps :
      Keeps → (cs : List Call) (m : Memory State) → ((run cs m).0 ≡ m.0) × ((run cs m).1 ≡ m.1)
  unfolding run
  run-keeps keeps [] m = (refl, refl)
  run-keeps keeps (c ∷ cs) m =
      let (clk, h) = run-keeps keeps cs (call c.callback c.priv m) in
      let (clk', h') = keeps c.callback c.priv m in (clk ∙ clk', h ∙ h')

  -- One turn of the loop, at a node that stays.
  pub call_all_callbacks-step :
      (fuel : ℕ) (p : Ptr) (n : Node) (m : Memory State)
      → Keeps
      → p ≢ null
      → m.1 p ≡ some n
      → call_all_callbacks device (suc fuel) p m
        ≡ call_all_callbacks device fuel n.next (call n.callback n.priv m)
  unfolding call_all_callbacks
  call_all_callbacks-step fuel p n m keeps nn at =
      let null_test : (p == null) ≡ false = ground (arith, nn) in
      let still : (call n.callback n.priv m).1 p ≡ some n =
        ap (λ (h : Heap). h p) (keeps n.callback n.priv m).1 ∙ at in
      rw (null_test, at, still) refl

  call_all_callbacks-run :
      (fuel : ℕ) (h : Heap) (p : Ptr) (cs : List Call) (m : Memory State)
      → Keeps
      → m.1 ≡ h
      → IsList h p cs
      → length cs < fuel
      → call_all_callbacks device fuel p m ≡ some (run cs m)
  unfolding call_all_callbacks run IsList
  call_all_callbacks-run zero h p cs m keeps same l enough = absurd (omega arith)
  call_all_callbacks-run (suc fuel) h p [] m keeps same l enough =
      let null_test : (p == null) ≡ true = ground (arith, l) in rw (null_test) refl
  call_all_callbacks-run (suc fuel) h p (c ∷ cs) m keeps same (e, nn, out, q, at, rest) enough =
      call_all_callbacks-step fuel p (node c q) m keeps nn (ap (λ (g : Heap). g p) same ∙ at)
      ∙ call_all_callbacks-run fuel h q cs (call c.callback c.priv m) keeps
          ((keeps c.callback c.priv m).1 ∙ same) rest (omega arith)

  -- On a clock whose two lists of nodes stand for two lists of calls, where no callback changes
  -- the clock or a node, with fuel for more than the nodes of each list: metal_clock_set_rate_hz
  -- ends, makes the first calls in order, sets the rate, makes the second calls in order,
  -- returns the rate that the clock's driver returned, and leaves the clock and the nodes as
  -- they were.
  pub set_rate_hz-in_order :
      (fuel : ℕ) (h : Heap) (clk : MetalClock) (s : Schedule) (hz : ℕ) (before : State)
      → Keeps
      → Implements h clk s
      → length s.pre < fuel
      → length s.post < fuel
      → let (rate, changed) = set_rate hz (run s.pre (clk, h, before)).2 in
        let after = run s.post (clk, h, changed) in
        (set_rate_hz device fuel clk hz h before ≡ some (rate, after))
        × (after.0 ≡ clk)
        × (after.1 ≡ h)
  unfolding set_rate_hz
  set_rate_hz-in_order fuel h clk s hz before keeps is enough enough' =
      let told : Memory State = run s.pre (clk, h, before) in
      let changed : State = (set_rate hz told.2).1 in
      let (clk_kept, h_kept) = run-keeps keeps s.pre (clk, h, before) in
      let pre =
        call_all_callbacks-run fuel h clk.pre_rate_change_callback s.pre (clk, h, before) keeps refl
          is.is_pre enough in
      let post =
        call_all_callbacks-run fuel h clk.post_rate_change_callback s.post (clk, h, changed) keeps
          refl is.is_post enough' in
      let (clk_after, h_after) = run-keeps keeps s.post (clk, h, changed) in
      (rw (pre, set_rate_hz, clk_kept, h_kept, post) refl, clk_after, h_after)
