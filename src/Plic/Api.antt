-- ===== src/Plic/Api.antt =====
-- src/drivers/riscv_plic0.c: the driver's entries in its vtable, over the registers of the parent
-- module. Its parents, the controllers of the harts, are a parameter.
use freedom_metal.Prelude.{
  ℕ, zero, suc, ◌+◌, ◌-◌, ◌*◌, ◌/◌, ◌%◌, ◌^◌, true, false, not, Option, none, some, ltb, leb, ◌==◌,
  if◌then◌else◌, bit_or,
}
use freedom_metal.Plic.{
  Platform, Plic, max_interrupts, set_priority, context_enable, context_set_threshold,
  context_get_threshold,
}

-- The controllers that the interrupts of this one go to, by number.
pub record Parents : Type 1 where
  pub State : Type 0
  pub parent_init : ℕ → State → State
  pub register_default : ℕ → State → State
  pub register_handler : ℕ → State → State
  pub enable_line : ℕ → State → State

-- `for_each_metal_affinity (bit, mask)`. The mask is an `unsigned long`, so 64 rounds are enough.
unfoldable pub for_each {ℓ} : {S : Type ℓ} → (ℕ → S → S) → ℕ → ℕ → ℕ → S → S
for_each body zero bit mask s = s
for_each body (suc fuel) bit mask s =
    let rest = for_each body fuel (bit + 1) (mask / 2) (body bit s) in if mask == 0 then s else rest

abbrev pub affinity_bits : ℕ
affinity_bits = 64

-- The results of a call: 0, -1.
pub data Status : Type 0 where
  done : Status
  refused : Status

module _ (platform : Platform) where
  open platform use {num_interrupts, num_parents, myhart_id, Handler, default_handler}

  -- One round of the inner loop of the initialisation.
  unfoldable pub quiet_source : ℕ → ℕ → Plic platform → Plic platform
  quiet_source parent i p =
      let disabled = (context_enable platform parent i false p).1 in
      if ltb i num_interrupts
      then record ((set_priority platform i 0 disabled).1) {
        metal_exint_table = λ j. if j == i then none else p.metal_exint_table j;
        metal_exdata_table =
            λ j. if j == i then record { sub_int = 0; exint_data = 0 } else p.metal_exdata_table j;
      }
      else disabled

  -- The inner loop, from `i` with `left` rounds left.
  unfoldable pub quiet_sources : ℕ → ℕ → ℕ → Plic platform → Plic platform
  quiet_sources parent zero i p = p
  quiet_sources parent (suc left) i p = quiet_sources parent left (i + 1) (quiet_source parent i p)

  module _ (parents : Parents) where
    unfoldable pub init_parent : ℕ → Plic platform × parents.State → Plic platform × parents.State
    init_parent parent (p, ps) =
        let quiet = quiet_sources parent max_interrupts 0 p in
        (
          (context_set_threshold platform parent 0 quiet).1,
          parents.enable_line parent (
              parents.register_handler parent
                (parents.register_default parent (parents.parent_init parent ps))),
        )

    unfoldable pub init_parents :
        ℕ → ℕ → Plic platform × parents.State → Plic platform × parents.State
    init_parents zero parent s = s
    init_parents (suc left) parent s = init_parents left (parent + 1) (init_parent parent s)

    unfoldable pub init : Plic platform × parents.State → Plic platform × parents.State
    init (p, ps) =
        let (quiet, told) = init_parents num_parents 0 (p, ps) in
        if p.init_done then (p, ps) else (record quiet { init_done = true }, told)

  -- A null pointer to a handler is `none`.
  unfoldable pub register : ℕ → Option Handler → ℕ → Plic platform → Status × Plic platform
  register id isr priv p = if leb num_interrupts id then (refused, p) else elim isr [
    | some f ↦ (
      done,
      record ((set_priority platform id 2 p).1) {
        metal_exint_table = λ j. if j == id then some f else p.metal_exint_table j;
        metal_exdata_table = λ j.
            if j == id
            then record (p.metal_exdata_table j) { exint_data = priv }
            else p.metal_exdata_table j;
      },
    )
    | none ↦ (
      done,
      record ((set_priority platform id 1 p).1) {
        metal_exint_table = λ j. if j == id then some default_handler else p.metal_exint_table j;
        metal_exdata_table = λ j.
            if j == id
            then record (p.metal_exdata_table j) { sub_int = priv }
            else p.metal_exdata_table j;
      },
    )
  ]

  unfoldable pub enable : ℕ → Plic platform → Status × Plic platform
  enable id p =
      if leb num_interrupts id
      then (refused, p)
      else (done, (context_enable platform myhart_id id true p).1)

  unfoldable pub disable : ℕ → Plic platform → Status × Plic platform
  disable id p =
      if leb num_interrupts id
      then (refused, p)
      else (done, (context_enable platform myhart_id id false p).1)

  unfoldable pub set_threshold : ℕ → Plic platform → ℕ × Plic platform
  set_threshold threshold p = context_set_threshold platform myhart_id threshold p

  unfoldable pub get_threshold : Plic platform → ℕ
  get_threshold p = context_get_threshold platform myhart_id p

  -- `metal_affinity_set_bit (ret, context, f)` for a call `f` on a context, and the loop of such
  -- calls for every context but 0.
  unfoldable pub on_context :
      (ℕ → Plic platform → ℕ × Plic platform) → ℕ → ℕ × Plic platform → ℕ × Plic platform
  on_context f context (ret, p) =
      let (val, after) = f context p in
      if not (context == 0)
      then (bit_or ret (val % 2 * 2 ^ context % 2 ^ affinity_bits), after)
      else (ret, p)

  unfoldable pub affinity_enable : ℕ → ℕ → Plic platform → ℕ × Plic platform
  affinity_enable bitmask id p =
      if leb num_interrupts id
      then (2 ^ affinity_bits - 1, p)
      else for_each (on_context (λ context. context_enable platform context id true)) affinity_bits
          0 bitmask (0, p)

  unfoldable pub affinity_disable : ℕ → ℕ → Plic platform → ℕ × Plic platform
  affinity_disable bitmask id p =
      if leb num_interrupts id
      then (2 ^ affinity_bits - 1, p)
      else for_each (on_context (λ context. context_enable platform context id false)) affinity_bits
          0 bitmask (0, p)

  unfoldable pub affinity_set_threshold : ℕ → ℕ → Plic platform → ℕ × Plic platform
  affinity_set_threshold bitmask threshold p =
      for_each (on_context (λ context. context_set_threshold platform context threshold))
        affinity_bits 0 bitmask (0, p)

  -- The threshold that is read is dropped.
  unfoldable pub affinity_get_threshold : ℕ → Plic platform → ℕ
  affinity_get_threshold context_id p = let read = context_get_threshold platform context_id p in 0
