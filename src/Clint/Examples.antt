-- ===== src/Clint/Examples.antt =====
-- A timer and one hart on plain memory, and the theorems about src/drivers/riscv_clint0.c at
-- inputs on it.
use freedom_metal.Prelude.{
  ℕ, ◌+◌, ◌/◌, ◌%◌, ◌^◌, ◌≤◌, ◌≡◌, some, arith, refl, ◌==◌, if◌then◌else◌, true, false,
}
use freedom_metal.Prelude.Split.{IsSplit}
use freedom_metal.Interrupt.{direct}
use freedom_metal.Clint.{msip, Platform, lift_high, set_low, set_high, mtimecmp_set}
use freedom_metal.Clint.Time.{IsMemory, HasMsip, comparator, mtimecmp_set-quiet}

pub record Board : Type 0 where
  pub time : ℕ
  pub words : ℕ → ℕ

-- The timer stands at 0xbff8 of the controller, and other words are memory of 32 bits.
abbrev pub read_board : Board → ℕ → ℕ
read_board s a =
    if a == 0x200bff8
    then s.time % 2 ^ 32
    else if a == 0x200bffc
    then s.time / 2 ^ 32
    else s.words a

abbrev pub write_board : Board → ℕ → ℕ → Board
write_board s a v = record s { words = λ b. if b == a then v else s.words b }

-- The controller of the hart counts the calls.
abbrev pub calls : ℕ → ℕ → ℕ → ℕ × ℕ
calls intc id told = (0, told + 1)

abbrev pub board : Platform
board = record {
  regs = record { State = Board; read = read_board; write = write_board };
  tick = λ s. record s { time = s.time + 1 };
  control_base = 0x2000000;
  mtime = 0xbff8;
  mtimecmp_base = 0x4000;
  num_interrupts = 2;
  interrupt_parents = λ i. some 5;
  interrupt_lines = λ i. if i == 0 then 3 else 7;
  cpu_intc = some 5;
  current_hartid = 0;
  vector_mode = direct;
  Handler = ℕ;
  Parents = ℕ;
  parent_register = λ intc id isr priv told. (0, told + 1);
  parent_enable = calls;
  parent_disable = calls;
  parent_set_vector_mode = λ intc mode told. (0, told + 1);
}

abbrev pub reset : Board
reset = record { time = 0x1ffffffff; words = λ a. 0 }

pub board-IsSplit :
    IsSplit
      (λ (s : Board). read_board s 0x200bffc)
      (λ (s : Board). read_board s 0x200bff8)
      (λ (s : Board). record s { time = s.time + 1 })
      (λ (s : Board). s.time)
board-IsSplit = record {
  is_high = λ s. refl;
  is_low = λ s. refl;
  runs = λ s. omega arith;
  slowly = λ s. omega arith;
}

-- Memory alone, without the timer.
abbrev pub memory : Platform
memory = record board {
  regs = record {
    State = ℕ → ℕ;
    read = λ s a. s a % 2 ^ 32;
    write = λ s a v. λ b. if b == a then v else s b;
  };
  tick = λ s. s;
}

pub memory-IsMemory : IsMemory memory
memory-IsMemory = record {
  read_back = λ s a v small. let same : (a == a) ≡ true = ground arith in rw (same) (omega arith);
  write_other = λ s a b v differ.
      let unequal : (b == a) ≡ false = ground (arith, differ) in rw (unequal) refl;
  fits = λ s a. omega arith;
}

pub memory-HasMsip : HasMsip memory
unfolding msip
memory-HasMsip = record {
  pending_back =
      λ s hartid v small. memory-IsMemory.read_back s (msip memory hartid) v (omega (arith, small));
  pending_other = λ s hartid other v differ.
      memory-IsMemory.write_other s (msip memory hartid) (msip memory other) v
        (λ e. differ (omega (arith, e)));
}

abbrev pub blank : ℕ → ℕ
blank a = 7

mtimecmp_set-quiet_example :
    (comparator memory 1 blank ≤ comparator memory 1 (lift_high memory 1 blank))
    × (0x500000003 ≤ comparator memory 1 (set_low memory 1 0x500000003 (lift_high memory 1 blank)))
    × ((mtimecmp_set memory 1 0x500000003 blank).1
        ≡ set_high memory 1 0x500000003 (set_low memory 1 0x500000003 (lift_high memory 1 blank)))
    × (comparator memory 1 (mtimecmp_set memory 1 0x500000003 blank).1 ≡ 0x500000003)
mtimecmp_set-quiet_example =
    mtimecmp_set-quiet memory memory-IsMemory 1 0x500000003 blank (omega arith)
