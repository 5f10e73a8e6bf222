-- ===== src/Hpm/Examples.antt =====
-- A hart with two performance counters, and the theorems about src/hpm.c at inputs on it.
use freedom_metal.Prelude.{
  ap, sym, ◌&&◌, ℕ, ◌+◌, ◌/◌, ◌%◌, ◌^◌, ◌≤◌, ◌<◌, ◌≡◌, ◌≢◌, true, false, arith, some, inr, ltb, leb,
  ◌==◌, refl, if◌then◌else◌, bit_and,
}
use freedom_metal.Hpm.{
  Chip, Csr, mcycle, mcycleh, minstret, minstreth, mhpmevent, mhpmcounter, mhpmcounterh, mcounteren,
  mtvec, Hart, init, read_counter, rejects, ret_ok, ret_nok,
}
use freedom_metal.Hpm.Read.{Counts, read_counter-moment}
use freedom_metal.Hpm.Access.{HasTrap}
use freedom_metal.Hpm.Init.{HasSelectors, HasEvents, init-found}

record Board : Type 0 where
  time : ℕ
  events : ℕ → ℕ
  enabled : ℕ
  trap : ℕ

-- Counters 3 and 4 have an event selector of 8 bits.
abbrev selector_mask : ℕ → ℕ
selector_mask n = if leb 3 n && ltb n 5 then 0xff else 0

abbrev read_board : Board → Csr → ℕ
read_board s mcycle = s.time % 2 ^ 32
read_board s mcycleh = s.time / 2 ^ 32
read_board s minstret = s.time % 2 ^ 32
read_board s minstreth = s.time / 2 ^ 32
read_board s (mhpmevent n) = s.events n
read_board s (mhpmcounter n) = s.time % 2 ^ 32
read_board s (mhpmcounterh n) = s.time / 2 ^ 32
read_board s mcounteren = s.enabled
read_board s mtvec = s.trap

abbrev write_board : Board → Csr → ℕ → Board
write_board s mcycle v = s
write_board s mcycleh v = s
write_board s minstret v = s
write_board s minstreth v = s
write_board s (mhpmevent n) v = record s {
  events = λ m. if m == n then bit_and v (selector_mask n) else s.events m;
}
write_board s (mhpmcounter n) v = s
write_board s (mhpmcounterh n) v = s
write_board s mcounteren v = record s { enabled = v }
write_board s mtvec v = record s { trap = v }

abbrev board : Chip
board = record {
  csrs = record { State = Board; read = read_board; write = write_board };
  tick = λ s. record s { time = s.time + 1 };
  has_mcounteren = true;
  trap_exit = 0x80000100;
}

abbrev reset : Hart board
reset = record {
  hpm_count = 0;
  io = record { time = 0x1fffffffe; events = λ n. 0; enabled = 0; trap = 0x80000000 };
}

abbrev running : Hart board
running = record reset { hpm_count = 5 }

board_selected :
    (s : Board) (n v : ℕ)
    → read_board (write_board s (mhpmevent n) v) (mhpmevent n) ≡ bit_and v (selector_mask n)
board_selected s n v = let same : (n == n) ≡ true = ground arith in rw (same) refl

board_other :
    (s : Board) (r : Csr) (n v : ℕ)
    → r ≢ mhpmevent n
    → read_board (write_board s r v) (mhpmevent n) ≡ read_board s (mhpmevent n)
board_other s mcycle n v ne = refl
board_other s mcycleh n v ne = refl
board_other s minstret n v ne = refl
board_other s minstreth n v ne = refl
board_other s (mhpmevent m) n v ne =
    let differ : (n == m) ≡ false = ground (arith, λ (e : n ≡ m). ne (ap mhpmevent (sym e))) in
    rw (differ) refl
board_other s (mhpmcounter m) n v ne = refl
board_other s (mhpmcounterh m) n v ne = refl
board_other s mcounteren n v ne = refl
board_other s mtvec n v ne = refl

board-HasSelectors : HasSelectors board selector_mask
board-HasSelectors = record { selected = board_selected; others = board_other }

events_of_board : (n : ℕ) → 3 ≤ n → n < 5 → HasEvents board selector_mask n
events_of_board n low high e =
    let a : leb 3 n ≡ true = ground arith in
    let b : ltb n 5 ≡ true = ground arith in
    let ones : bit_and 0xFFFFFFFF (selector_mask n) ≡ 0xff = rw (a, b) refl in
    absurd (omega (arith, ones, e))

init-found_example :
    ((init board true reset).0 ≡ ret_ok)
    × ((init board true reset).1.hpm_count ≡ 5)
    × ((n : ℕ) → 3 ≤ n → n < 5 → read_board (init board true reset).1.io (mhpmevent n) ≡ 0)
    × (init board true (init board true reset).1 ≡ (ret_nok, (init board true reset).1))
init-found_example =
    init-found board selector_mask board-HasSelectors 5 reset refl (omega arith) (omega arith)
      events_of_board (inr refl)

unrejected : rejects board true 4 running ≡ false
unfolding rejects
unrejected = refl

unrejected_cycle : rejects board true 0 running ≡ false
unfolding rejects
unrejected_cycle = refl

board-Counts : Counts board 0 (λ (s : Board). s.time)
board-Counts = record {
  is_high = λ s. refl;
  is_low = λ s. refl;
  runs = λ s. omega arith;
  slowly = λ s. omega arith;
}

-- The high word changes under the first round.
read_counter-moment_example :
    (now : Board) × (end : Board) × (read_counter board 2 true 0 running
      ≡ some (now.time, record running { io = end }))
    × (0x1fffffffe ≤ now.time)
    × (now.time ≤ end.time)
read_counter-moment_example =
    read_counter-moment board 2 0 true running (λ (s : Board). s.time) board-Counts unrejected_cycle
      (λ e. absurd (omega (arith, e))) (omega arith) (omega arith)

board-HasTrap : HasTrap board
board-HasTrap = record {
  mtvec_back = λ s v. refl;
  mcounteren_back = λ s v. refl;
  mcounteren_kept = λ s v. refl;
}
