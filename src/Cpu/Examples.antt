-- ===== src/Cpu/Examples.antt =====
-- A hart of 32 bits, and the theorems about src/drivers/riscv_cpu.c at inputs on it.
use freedom_metal.Prelude.{ℕ, ◌+◌, ◌%◌, ◌^◌, ◌<◌, ◌≡◌, inl, refl, true, some, arith}
use freedom_metal.Clint
use freedom_metal.Clint.Examples
use freedom_metal.Cpu.Id.{valid_interrupt_id, is_local}
use freedom_metal.Cpu.{Platform, Csr, mstatus, mie, mtvec, mtvt, mcause, mepc, mcycle, mcycleh, ok}
use freedom_metal.Cpu.Intc.{Intc, no_entry, calls, interrupt_register, exception_handler}
use freedom_metal.Cpu.Api.{set_sw_ipi, clear_sw_ipi, get_msip}
use freedom_metal.Cpu.Dispatch.{register-calls}
use freedom_metal.Cpu.Vector.{HasMtvec}
use freedom_metal.Cpu.Bits.{in_mie, HasMie}
use freedom_metal.Cpu.Timer.{clint_controllers, wired, set_sw_ipi-get}

pub record Regs : Type 0 where
  pub enabled : ℕ
  pub vec : ℕ
  pub cause : ℕ

abbrev pub read_regs : Regs → Csr → ℕ
read_regs s mstatus = 0
read_regs s mie = s.enabled
read_regs s mtvec = s.vec % 2 ^ 32
read_regs s mtvt = 0
read_regs s mcause = s.cause
read_regs s mepc = 0
read_regs s mcycle = 0
read_regs s mcycleh = 0

abbrev pub write_regs : Regs → Csr → ℕ → Regs
write_regs s mstatus v = s
write_regs s mie v = record s { enabled = v }
write_regs s mtvec v = record s { vec = v }
write_regs s mtvt v = s
write_regs s mcause v = s
write_regs s mepc v = s
write_regs s mcycle v = s
write_regs s mcycleh v = s

-- Handlers have numbers.
abbrev pub hart : Platform
hart = record {
  width = 32;
  csrs = record { State = Regs; read = read_regs; write = write_regs };
  tick = λ s. s;
  exception_entry = 0x20000000;
  vector_table = 0x20000100;
  early_trap_vector = 0x20000200;
  hartid = 0;
  has_cpu = true;
  Handler = ℕ;
  default_interrupt_handler = 1;
  default_sw_handler = 2;
  default_timer_handler = 3;
  default_beu_handler = 4;
  ExceptionHandler = ℕ;
  default_exception_handler = 5;
}

abbrev pub trapped : ℕ → Intc hart
trapped cause = record {
  init_done = true;
  metal_int_table = λ id. no_entry hart;
  metal_int_beu = no_entry hart;
  metal_exception_table = λ ecode. 5;
  io = record { enabled = 0; vec = 0x20000000; cause = cause };
}

valid_local : valid_interrupt_id 18 ≡ true
unfolding valid_interrupt_id is_local
valid_local = refl

register-calls_example :
    ((interrupt_register hart 18 (some 9) 77 (trapped (2 ^ 31 + 18))).0 ≡ ok)
    × (exception_handler hart (interrupt_register hart 18 (some 9) 77 (trapped (2 ^ 31 + 18))).1
        ≡ some (calls 9 18 77))
register-calls_example =
    register-calls hart (inl refl) 18 77 9 (trapped (2 ^ 31 + 18)) valid_local refl refl refl

hart-HasMtvec : HasMtvec hart
hart-HasMtvec = record {
  mtvec_back = λ s v small low. omega arith;
  mtvec_fits = λ s. omega arith;
  wide = omega arith;
}

abbrev AllBits : ℕ → Type 0
AllBits k = k < 32

hart-HasMie : HasMie hart AllBits
hart-HasMie = record { mie_back = λ s k v has. refl }

last_local : in_mie 31 ≡ true
unfolding is_local
last_local = refl

set_sw_ipi-get_example :
    let cs = clint_controllers Clint.Examples.memory 2 in
    let w = some (wired hart Clint.Examples.memory 2 64 9 9 0 0 (trapped 0)) in
    (after : ℕ → ℕ) × (cleared : ℕ → ℕ) × (set_sw_ipi hart cs w 1 Clint.Examples.blank
      ≡ some (0, after))
    × (get_msip hart cs w 1 after ≡ some (1, after))
    × (clear_sw_ipi hart cs w 1 after ≡ some (0, cleared))
    × (get_msip hart cs w 1 cleared ≡ some (0, cleared))
set_sw_ipi-get_example =
    set_sw_ipi-get hart Clint.Examples.memory 2 Clint.Examples.memory-HasMsip 64 1 1 9 9 0 0
      (trapped 0) Clint.Examples.blank (λ e. absurd (omega (arith, e)))
