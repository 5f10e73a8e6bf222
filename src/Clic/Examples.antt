-- ===== src/Clic/Examples.antt =====
-- A controller over bytes, and the theorems about src/drivers/sifive_clic0.c at it.
use freedom_metal.Prelude.{
  ℕ, ◌+◌, ◌-◌, ◌*◌, ◌/◌, ◌%◌, ◌^◌, ◌≡◌, ◌≢◌, inl, refl, ap, true, none, some, ◌==◌, if◌then◌else◌,
  arith, bit_or,
}
use freedom_metal.Prelude.Fields.{extract}
use freedom_metal.Prelude.Machine.{Registers}
use freedom_metal.Interrupt.{selective_nonvector}
use freedom_metal.Cpu.{vector_mode}
use freedom_metal.Cpu.Examples.{hart, trapped}
use freedom_metal.Cpu.Intc.{no_entry, with_io}
use freedom_metal.Clic.{
  Reg, cliccfg, intctl, intie, intip, fields, configuration, interrupt_set_level,
  interrupt_get_level, interrupt_is_vectored, set_preemptive_level,
}
use freedom_metal.Clic.Level.{IsBytes, cfg_of, used, set_level-get_level}
use freedom_metal.Clic.Vectored.{set_preemptive_level-vectored}
use freedom_metal.Clic.Control.{Board, Clic, configure_get_vector_mode}

abbrev code : Reg → ℕ
code cliccfg = 0
code (intctl n) = 3 * n + 1
code (intie n) = 3 * n + 2
code (intip n) = 3 * n + 3

code-apart : (a b : Reg) → a ≢ b → code b ≢ code a
code-apart cliccfg cliccfg apart = λ e. apart refl
code-apart cliccfg (intctl n) apart = λ e. absurd (omega (arith, e))
code-apart cliccfg (intie n) apart = λ e. absurd (omega (arith, e))
code-apart cliccfg (intip n) apart = λ e. absurd (omega (arith, e))
code-apart (intctl m) cliccfg apart = λ e. absurd (omega (arith, e))
code-apart (intctl m) (intctl n) apart = λ e. apart (ap intctl (omega (arith, e)))
code-apart (intctl m) (intie n) apart = λ e. absurd (omega (arith, e))
code-apart (intctl m) (intip n) apart = λ e. absurd (omega (arith, e))
code-apart (intie m) cliccfg apart = λ e. absurd (omega (arith, e))
code-apart (intie m) (intctl n) apart = λ e. absurd (omega (arith, e))
code-apart (intie m) (intie n) apart = λ e. apart (ap intie (omega (arith, e)))
code-apart (intie m) (intip n) apart = λ e. absurd (omega (arith, e))
code-apart (intip m) cliccfg apart = λ e. absurd (omega (arith, e))
code-apart (intip m) (intctl n) apart = λ e. absurd (omega (arith, e))
code-apart (intip m) (intie n) apart = λ e. absurd (omega (arith, e))
code-apart (intip m) (intip n) apart = λ e. apart (ap intip (omega (arith, e)))

abbrev bytes : Registers Reg
bytes = record {
  State = ℕ → ℕ;
  read = λ s r. s (code r) % 2 ^ 8;
  write = λ s a v. λ n. if n == code a then v else s n;
}

bytes-IsBytes : IsBytes bytes
bytes-IsBytes = record {
  back = λ s r v fits. ground (arith, fits);
  other = λ s a b v apart. ground (arith, code-apart a b apart);
  fits = λ s r. omega arith;
}

-- No bits of a privilege mode, and four of the level.
abbrev four : ℕ → ℕ
four n = if n == 0 then 8 else 0xA7

bits_taken : used bytes 8 32 four ≡ 4
unfolding configuration fields
bits_taken = refl

four_mode : (cfg_of bytes 8 32 four).nmbits ≡ 0
unfolding configuration fields
four_mode = refl

set_level-get_level_example :
    let n = (cfg_of bytes 8 32 four).nlbits in
    let after = interrupt_set_level bytes 8 32 17 0x5F four in
    (interrupt_get_level bytes 8 32 17 after
      ≡ some (bit_or (extract n (8 - used bytes 8 32 four) 0x5F * 2 ^ (8 - n)) (255 / 2 ^ n)))
    × (extract 4 0 (bytes.read after (intctl 17)) ≡ extract 4 0 (bytes.read four (intctl 17)))
set_level-get_level_example =
    set_level-get_level bytes 8 32 bytes-IsBytes 17 0x5F 4 0 four (omega (arith, bits_taken))
      (omega arith) (omega arith) (inl (omega (arith, bits_taken)))

-- The level 0x50 that is asked for has no vector bit, and the interrupt loses its own.
set_preemptive_level-vectored_example :
    interrupt_is_vectored bytes 8 32 17 (set_preemptive_level bytes 8 32 17 0x50 four)
    ≡ some (0x50 / 2 ^ (8 - 8) % 2)
set_preemptive_level-vectored_example =
    set_preemptive_level-vectored bytes 8 32 bytes-IsBytes 17 0x50 four (omega (arith, bits_taken))
      (omega arith)

abbrev eight : ℕ → ℕ
eight n = if n == 0 then 16 else 0

eight_mode : (cfg_of bytes 8 32 eight).nmbits ≡ 0
unfolding configuration fields
eight_mode = refl

eight_level : (cfg_of bytes 8 32 eight).nlbits ≡ 8
unfolding configuration fields
eight_level = refl

abbrev board : Board hart
board = record {
  State = ℕ → ℕ;
  read8 = λ s r. s (code r) % 2 ^ 8;
  write8 = λ s a v. λ n. if n == code a then v else s n;
  read32 = λ s r. 0;
  write32 = λ s r v. s;
  tick = λ s. s;
  num_intbits = 8;
  num_subinterrupts = 32;
  num_interrupts = 0;
  interrupt_lines = λ i. 0;
  max_levels = 4;
  clic = 0x1000;
  metal_mtvt = 0x2000;
  default_handler = 6;
  VectorHandler = ℕ;
  clic_handler = 7;
  default_vector_handler = 8;
}

-- The hart is in the mode of the controller, and cliccfg asks for no vectors.
abbrev clic : Clic hart board
clic = record {
  init_done = true;
  metal_mtvt_table = λ id. none;
  metal_exint_table = λ id. no_entry hart;
  io = four;
  intc = with_io hart (trapped 0) (record { enabled = 0; vec = 0x20000002; cause = 0 });
}

clic_mode : configure_get_vector_mode hart board clic ≡ selective_nonvector
unfolding configure_get_vector_mode vector_mode configuration fields
clic_mode = refl
