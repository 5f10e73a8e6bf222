-- ===== src/Plic/Examples.antt =====
-- A controller on plain memory, and the theorems about src/drivers/riscv_plic0.c at inputs on it.
use freedom_metal.Prelude.{
  ℕ, ◌%◌, ◌<◌, ◌≡◌, ◌≢◌, true, false, some, none, ◌==◌, if◌then◌else◌, arith, refl, ap,
}
use freedom_metal.Prelude.Bits.{bit}
use freedom_metal.Plic.{
  set_priority, priority_address, Platform, Plic, claim_address, claim_interrupt,
  complete_interrupt, handler, context_enable, context_get_threshold,
}
use freedom_metal.Plic.Api.{register, affinity_set_threshold, affinity_get_threshold}
use freedom_metal.Plic.Enable.{enabled, HasEnables, context_enable-enabled}
use freedom_metal.Plic.Affinity.{HasThresholds, affinity_set_threshold-read}
use freedom_metal.Plic.Dispatch.{register-handler}

abbrev write_word : (ℕ → ℕ) → ℕ → ℕ → ℕ → ℕ
write_word s a v b = if b == a then v else s b

-- Four sources of which source 2 is pending for every context; the handlers have names.
abbrev chip : Platform
chip = record {
  regs = record { State = ℕ → ℕ; read = λ s a. s a; write = write_word };
  after_claim = λ s a. s;
  control_base = 0xc000000;
  priority_base = 0;
  enable_base = 0x2000;
  enable_per_hart = 0x80;
  context_base = 0x200000;
  context_per_hart = 0x1000;
  context_threshold = 0;
  context_claim = 4;
  max_priority = 7;
  num_interrupts = 4;
  num_parents = 1;
  myhart_id = 0;
  context_ids = λ hart. hart;
  Handler = ℕ;
  default_handler = 0;
}

abbrev reset : Plic chip
reset = record {
  init_done = true;
  metal_exint_table = λ id. none;
  metal_exdata_table = λ id. record { sub_int = 0; exint_data = 0 };
  io = λ a. if a == 0xc200004 then 2 else 0;
}

word_back : (s : ℕ → ℕ) (a v : ℕ) → write_word s a v a ≡ v
word_back s a v = let same : (a == a) ≡ true = ground arith in rw (same) refl

word_other : (s : ℕ → ℕ) (a b v : ℕ) → a ≢ b → write_word s a v b ≡ s b
word_other s a b v differ =
    let unequal : (b == a) ≡ false = ground (arith, differ) in rw (unequal) refl

abbrev AllSources : ℕ → ℕ → Type 0
AllSources context id = id < 4

chip-HasEnables : HasEnables chip AllSources
chip-HasEnables = record {
  enable_back = λ s context id v has. ap (λ (x : ℕ). bit x (id % 32)) (word_back s _ v);
  write_other = word_other;
  spaced = omega arith;
}

chip-HasThresholds : HasThresholds chip
chip-HasThresholds = record {
  threshold_back = λ s context v. word_back s _ v;
  write_other = word_other;
  spaced = omega arith;
}

context_enable-enabled_example : enabled chip (context_enable chip 1 2 true reset).1 1 2 ≡ 1
context_enable-enabled_example =
    context_enable-enabled chip AllSources chip-HasEnables 1 2 1 2 true reset (omega arith)
      (omega arith) (omega arith)

affinity_set_threshold-read_example :
    let after : Plic chip = (affinity_set_threshold chip 4 5 reset).1 in
    (context_get_threshold chip 2 after ≡ 5) × (affinity_get_threshold chip 2 after ≡ 0)
affinity_set_threshold-read_example =
    affinity_set_threshold-read chip chip-HasThresholds 4 2 5 reset (omega arith)

claims_source : (register chip 2 (some 9) 77 reset).1.io (claim_address chip 0) ≡ 2
unfolding register claim_address set_priority priority_address
claims_source = refl

abbrev log_priv : ℕ → ℕ → ℕ → Plic chip → Plic chip
log_priv isr id priv p = record p {
  metal_exdata_table = λ j. record { sub_int = isr; exint_data = priv };
}

register-handler_example :
    let registered : Plic chip = (register chip 2 (some 9) 77 reset).1 in
    handler chip log_priv registered
    ≡ complete_interrupt chip 0 2 (log_priv 9 2 77 (claim_interrupt chip 0 registered).1)
register-handler_example = register-handler chip log_priv 2 77 9 reset (omega arith) claims_source
