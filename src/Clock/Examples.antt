-- ===== src/Clock/Examples.antt =====
-- A clock with two callbacks, and the theorems about metal/clock.h at it.
use freedom_metal.Prelude.{
  ℕ, ◌≡◌, refl, none, some, List, [], ◌∷◌, ◌++◌, ◌==◌, if◌then◌else◌, arith,
}
use freedom_metal.Clock.{null, Heap, MetalClock, Memory, Device, beside, set_rate_hz}
use freedom_metal.Clock.Lists.{Call, IsList}
use freedom_metal.Clock.Order.{Schedule, Implements, run, set_rate_hz-in_order}

-- The device writes down what happens: a callback, or the rate.
abbrev log : Device
log = record {
  State = List ℕ;
  call = λ f priv. beside (λ s. s ++ (f ∷ []));
  get_rate = λ s. 0;
  set_rate = λ hz s. (hz, s ++ (hz ∷ []));
}

abbrev first : Call
first = record { place = 8; callback = 101; priv = 0 }

-- Node 8 is on the list before a change.
abbrev memory : Heap
memory a = if a == 8 then some (record { callback = 101; priv = 0; next = null }) else none

abbrev clock : MetalClock
clock = record { pre_rate_change_callback = 8; post_rate_change_callback = null }

abbrev one_call : Schedule
one_call = record { pre = first ∷ []; post = [] }

first_listed : IsList memory 8 (first ∷ [])
unfolding IsList
first_listed = (refl, λ e. absurd (omega (arith, e)), refl, null, refl, refl)

none_listed : IsList memory null []
unfolding IsList
none_listed = refl

clock-Implements : Implements memory clock one_call
clock-Implements = record { is_pre = first_listed; is_post = none_listed; apart = λ a i. refl }

set_rate_hz-in_order_example :
    let told : Memory (List ℕ) = run log (first ∷ []) (clock, memory, []) in
    let after : Memory (List ℕ) = run log [] (clock, memory, told.2 ++ (5 ∷ [])) in
    (set_rate_hz log 2 clock 5 memory [] ≡ some (5, after)) × (after.0 ≡ clock) × (after.1 ≡ memory)
set_rate_hz-in_order_example =
    set_rate_hz-in_order log 2 memory clock one_call 5 [] (λ f p m. (refl, refl)) clock-Implements
      (omega arith) (omega arith)
