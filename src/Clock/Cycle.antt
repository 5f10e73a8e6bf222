-- ===== src/Clock/Cycle.antt =====
-- A node of metal/clock.h that is put on its list a second time.
use freedom_metal.Prelude.{
  ℕ, zero, suc, ◌≤◌, ◌≡◌, ◌≢◌, ◌∙◌, refl, ap, true, false, none, some, List, [], ◌∷◌, length, ◌==◌,
  ==_iff, arith, Bool-cases, inl, inr,
}
use freedom_metal.Clock.{
  Ptr, null, Node, Heap, write, Memory, MetalClock, Device, set_next, find_last,
  append_to_callbacks, call_all_callbacks, set_rate_hz, register_pre_rate_change_callback,
}
use freedom_metal.Clock.Lists.{Call, has, node, IsList, find_last-step}
use freedom_metal.Clock.Order.{Keeps, call_all_callbacks-step}

head-nonnull :
    (h : Heap) (p cb : Ptr) (cs : List Call) → IsList h p cs → has cb cs ≡ true → p ≢ null
unfolding IsList
head-nonnull h p cb [] l i = absurd (ground (arith, i))
head-nonnull h p cb (c ∷ cs) l i = l.1

-- With the node cut off from what followed it, it is the last of the list.
cut-last :
    (fuel : ℕ) (h : Heap) (p cb : Ptr) (n : Node) (cs : List Call)
    → IsList h p cs
    → has cb cs ≡ true
    → length cs ≤ fuel
    → find_last fuel p (write h cb (record n { next = null })) ≡ some cb
unfolding IsList find_last
cut-last fuel h p cb n [] l i enough = absurd (ground (arith, i))
cut-last zero h p cb n (c ∷ cs) l i enough = absurd (omega arith)
cut-last (suc fuel) h p cb n (c ∷ cs) (e, nn, out, q, at, rest) i enough =
    elim (Bool-cases (p == cb)) [
      | inl here ↦ ground (arith, here)
      | inr later ↦
          let later_on : has cb cs ≡ true = ground (arith, i, e, later) in
          find_last-step fuel p (write h cb (record n { next = null })) (node c q)
            (ground (arith, later, at)) (head-nonnull h q cb cs rest later_on)
          ∙ cut-last fuel h q cb n cs rest later_on (omega arith)
    ]

-- Appending a node that is on the list already: it follows itself, and nothing else changes.
pub append_twice-cycle :
    (fuel : ℕ) (h : Heap) (p : Ptr) (cs : List Call) (cb : Ptr) (n : Node)
    → IsList h p cs
    → has cb cs ≡ true
    → h cb ≡ some n
    → length cs ≤ fuel
    → (g : Heap) × (append_to_callbacks fuel p cb h ≡ some (p, g))
      × (g cb ≡ some (record n { next = cb }))
      × ((a : Ptr) → a ≢ cb → g a ≡ h a)
unfolding append_to_callbacks set_next
append_twice-cycle fuel h p cs cb n l i cell enough =
    let cleared : Heap = write h cb (record n { next = null }) in
    let g : Heap = write cleared cb (record n { next = cb }) in
    let null_test : (p == null) ≡ false = ground (arith, head-nonnull h p cb cs l i) in
    let found : find_last fuel p cleared ≡ some cb = cut-last fuel h p cb n cs l i enough in
    let cut : set_next cb null h ≡ some cleared = ground (arith, cell) in
    let linked : set_next cb cb cleared ≡ some g = ground arith in
    (g, rw (cut, null_test, found, linked) refl, ground arith, λ a ne. ground (arith, ne))

module _ (device : Device) where
  open device use {State, call}

  -- A node that follows itself is called for ever.
  self-endless :
      (fuel : ℕ) (cb : Ptr) (n : Node) (m : Memory State)
      → Keeps device
      → cb ≢ null
      → m.1 cb ≡ some (record n { next = cb })
      → call_all_callbacks device fuel cb m ≡ none
  unfolding call_all_callbacks
  self-endless zero cb n m keeps nn at = refl
  self-endless (suc fuel) cb n m keeps nn at =
      call_all_callbacks-step device fuel cb (record n { next = cb }) m keeps nn at
      ∙ self-endless fuel cb n (call n.callback n.priv m) keeps nn
          (ap (λ (h : Heap). h cb) (keeps n.callback n.priv m).1 ∙ at)

  pub walk-endless :
      (fuel : ℕ) (h g : Heap) (p cb : Ptr) (n : Node) (cs : List Call) (m : Memory State)
      → Keeps device
      → m.1 ≡ g
      → IsList h p cs
      → has cb cs ≡ true
      → g cb ≡ some (record n { next = cb })
      → ((a : Ptr) → a ≢ cb → g a ≡ h a)
      → call_all_callbacks device fuel p m ≡ none
  unfolding call_all_callbacks IsList
  walk-endless zero h g p cb n cs m keeps now l i at same = refl
  walk-endless (suc fuel) h g p cb n [] m keeps now l i at same = absurd (ground (arith, i))
  walk-endless (suc fuel) h g p cb n (c ∷ cs) m keeps now (e, nn, out, q, cell, rest) i at same =
      elim (Bool-cases (p == cb)) [
        | inl here ↦
            let e' : p ≡ cb = (==_iff _ _).0 here in
            ap (λ (x : Ptr). call_all_callbacks device (suc fuel) x m) e'
            ∙ self-endless (suc fuel) cb n m keeps (λ z. nn (e' ∙ z))
                (ap (λ (k : Heap). k cb) now ∙ at)
        | inr later ↦
            let kept : m.1 p ≡ some (node c q) =
              ap (λ (k : Heap). k p) now ∙ same p (λ z. absurd (ground (arith, later, z))) ∙ cell in
            call_all_callbacks-step device fuel p (node c q) m keeps nn kept
            ∙ walk-endless fuel h g q cb n cs (call c.callback c.priv m) keeps
                ((keeps c.callback c.priv m).1 ∙ now) rest (ground (arith, i, e, later)) at same
      ]

  -- Where no callback changes the lists, registering a node before a change of rate that is on that
  -- list already ends, and then metal_clock_set_rate_hz ends with no amount of fuel: the node
  -- follows itself.
  pub register_twice-endless :
      (fuel loops : ℕ) (h : Heap) (clk : MetalClock) (cs : List Call) (cb : Ptr) (n : Node) (hz : ℕ)
      (s : State)
      → Keeps device
      → IsList h clk.pre_rate_change_callback cs
      → has cb cs ≡ true
      → h cb ≡ some n
      → length cs ≤ fuel
      → (g : Heap) × (register_pre_rate_change_callback fuel cb (clk, h) ≡ some (clk, g))
        × (set_rate_hz device loops clk hz g s ≡ none)
  unfolding register_pre_rate_change_callback set_rate_hz
  register_twice-endless fuel loops h clk cs cb n hz s keeps l i cell enough =
      let (g, done, at, same) =
        append_twice-cycle fuel h clk.pre_rate_change_callback cs cb n l i cell enough in
      let endless : call_all_callbacks device loops clk.pre_rate_change_callback (clk, g, s)
          ≡ none =
        walk-endless loops h g clk.pre_rate_change_callback cb n cs (clk, g, s) keeps refl l i at
          same in
      (g, rw (done) refl, rw (endless) refl)
