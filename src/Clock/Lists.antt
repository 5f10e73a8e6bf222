-- ===== src/Clock/Lists.antt =====
-- The list of calls that a pointer to a node of metal/clock.h stands for.
use freedom_metal.Prelude.{
  ℕ, zero, suc, ◌≤◌, ◌≡◌, ◌≢◌, ◌∙◌, refl, Bool, true, false, ◌||◌, some, List, [], ◌∷◌, ◌++◌,
  length, ◌==◌, arith,
}
use freedom_metal.Clock.{Ptr, null, Node, Heap, write, set_next, find_last, append_to_callbacks}

-- A call that a node asks for, and the place of the node.
pub record Call : Type 0 where
  pub place : Ptr
  pub callback : ℕ
  pub priv : ℕ

abbrev pub has : Ptr → List Call → Bool
has a [] = false
has a (c ∷ cs) = (a == c.place) || has a cs

abbrev pub node : Call → Ptr → Node
node c q = record { callback = c.callback; priv = c.priv; next = q }

-- From `p` the nodes lead through the distinct places of `cs` to a null pointer.
unfoldable pub IsList : Heap → Ptr → List Call → Type 0
IsList h p [] = p ≡ null
IsList h p (c ∷ cs) =
    (p ≡ c.place)
    × (p ≢ null)
    × (has p cs ≡ false)
    × (q : Ptr) × (h p ≡ some (node c q))
    × IsList h q cs

-- A list is kept by a change of memory at places that it does not have.
pub IsList-frame :
    (h g : Heap) (p : Ptr) (cs : List Call)
    → IsList h p cs
    → ((a : Ptr) → has a cs ≡ true → g a ≡ h a)
    → IsList g p cs
unfolding IsList
IsList-frame h g p [] l same = l
IsList-frame h g p (c ∷ cs) (e, nn, out, q, cell, rest) same = (
  e,
  nn,
  out,
  q,
  same p (ground (arith, e)) ∙ cell,
  IsList-frame h g q cs rest (λ a i. same a (ground (arith, i))),
)

pub IsList-write :
    (h : Heap) (p a : Ptr) (n : Node) (cs : List Call)
    → IsList h p cs
    → has a cs ≡ false
    → IsList (write h a n) p cs
IsList-write h p a n cs l out = IsList-frame h (write h a n) p cs l (λ b i. ground (arith, i, out))

pub has-append : (a : Ptr) (cs ds : List Call) → has a (cs ++ ds) ≡ (has a cs || has a ds)
has-append a [] ds = refl
has-append a (c ∷ cs) ds = ground (arith, has-append a cs ds)

pub find_last-step :
    (fuel : ℕ) (p : Ptr) (h : Heap) (n : Node)
    → h p ≡ some n
    → n.next ≢ null
    → find_last (suc fuel) p h ≡ find_last fuel n.next h
unfolding find_last
find_last-step fuel p h n at more =
    let null_test : (n.next == null) ≡ false = ground (arith, more) in
    rw (at, find_last, null_test) refl

-- The walk to the end of a list, and the new node put there.
link-last :
    (fuel : ℕ) (h : Heap) (p : Ptr) (cs : List Call) (new : Call)
    → IsList h p cs
    → p ≢ null
    → length cs ≤ fuel
    → new.place ≢ null
    → has new.place cs ≡ false
    → h new.place ≡ some (node new null)
    → (last : Ptr) × (g : Heap) × (find_last fuel p h ≡ some last)
      × (set_next last new.place h ≡ some g)
      × IsList g p (cs ++ (new ∷ []))
      × (has last cs ≡ true)
      × ((a : Ptr) → has a cs ≡ false → g a ≡ h a)
unfolding IsList find_last set_next
link-last fuel h p [] new l nn enough nonnull out cell = absurd (nn l)
link-last zero h p (c ∷ cs) new l nn enough nonnull out cell = absurd (omega arith)
link-last (suc fuel) h p (c ∷ []) new (e, nn', o, q, at, end) nn enough nonnull out cell =
    let apart : has p (new ∷ []) ≡ false = ground (arith, out, e) in
    (
      p,
      write h p (node c new.place),
      ground (arith, at, end),
      ground (arith, at),
      (
        e,
        nn,
        apart,
        new.place,
        ground arith,
        (refl, nonnull, refl, null, ground (arith, cell, apart), refl),
      ),
      ground (arith, e),
      λ a i. ground (arith, i, e),
    )
link-last (suc fuel) h p (c ∷ d ∷ cs) new (e, nn', o, q, at, rest) nn enough nonnull out cell =
    let (last, g, found, set, l, mem, same) =
      link-last fuel h q (d ∷ cs) new rest (rest.1) (omega arith) nonnull (ground (arith, out))
        cell in
    (
      last,
      g,
      find_last-step fuel p h (node c q) at rest.1 ∙ found,
      set,
      (e, nn, ground (arith, has-append p (d ∷ cs) (new ∷ []), o, out, e), q, same p o ∙ at, l),
      ground (arith, mem),
      λ a i. same a (ground (arith, i)),
    )

-- Appending a fresh node appends its call, and leaves every list apart from this one as it was.
pub append_to_callbacks-appends :
    (fuel : ℕ) (h : Heap) (p : Ptr) (cs : List Call) (new : Call) (old : Ptr)
    → IsList h p cs
    → length cs ≤ fuel
    → new.place ≢ null
    → has new.place cs ≡ false
    → h new.place ≡ some (node new old)
    → (head : Ptr) × (g : Heap) × (append_to_callbacks fuel p new.place h ≡ some (head, g))
      × IsList g head (cs ++ (new ∷ []))
      × ((a : Ptr) → has a (cs ++ (new ∷ [])) ≡ false → g a ≡ h a)
unfolding IsList append_to_callbacks set_next
append_to_callbacks-appends fuel h p [] new old l enough nonnull out cell = (
  new.place,
  write h new.place (node new null),
  ground (arith, cell, l),
  (refl, nonnull, refl, null, ground arith, refl),
  λ a i. ground (arith, i),
)
append_to_callbacks-appends fuel h p (c ∷ cs) new old l enough nonnull out cell =
    let cleared : Heap = write h new.place (node new null) in
    let l' : IsList cleared p (c ∷ cs) =
      IsList-write h p new.place (node new null) (c ∷ cs) l out in
    let (last, g, found, set, linked, mem, same) =
      link-last fuel cleared p (c ∷ cs) new l' (l.1) enough nonnull out (ground arith) in
    let cleared_by : set_next new.place null h ≡ some cleared = ground (arith, cell) in
    let null_test : (p == null) ≡ false = ground (arith, l.1) in
    (
      p,
      g,
      rw (cleared_by, append_to_callbacks, null_test, found, set) refl,
      linked,
      λ a i.
          same a (ground (arith, i, has-append a (c ∷ cs) (new ∷ [])))
          ∙ ground (arith, i, has-append a (c ∷ cs) (new ∷ [])),
    )
