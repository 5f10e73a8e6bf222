-- ===== src/I2c/Examples.antt =====
-- A controller that is busy for one tick after each command, and the theorems about
-- src/drivers/sifive_i2c0.c at it.
use freedom_metal.Prelude.{
  ℕ, zero, suc, ◌+◌, ◌-◌, ◌*◌, ◌%◌, ◌^◌, ◌≤◌, ◌<◌, ◌≡◌, ◌≢◌, refl, sym, ap, ◌∙◌, true, Option, none,
  some, List, [], ◌∷◌, ◌++◌, length, ◌==◌, if◌then◌else◌, arith, ◌⊎◌, ◌>>=◌,
}
use freedom_metal.Prelude.Machine.{Registers}
use freedom_metal.Clock.{null, MetalClock, Heap, Device}
use freedom_metal.Clock.Order.{Schedule}
use freedom_metal.Uart.Api.{Places}
use freedom_metal.I2c.{
  Hardware, Reg, prescale_low, prescale_high, control, transmit, command, status, I2c, ret_ok,
  ret_err, acked, nacked, write, read, transfer, write_addr, write_bytes, set_io, send_byte, await,
  reg_check, acknowledged,
}
use freedom_metal.I2c.Baud.{Board, prescale}
use freedom_metal.I2c.Bus.{Event, put, get, event, IsBus, Progress}
use freedom_metal.I2c.Poll.{Passes, ticks}
use freedom_metal.I2c.Rate.{IsI2c, holds, prescaler, prescale-bounds}
use freedom_metal.I2c.Read.{read-asks}
use freedom_metal.I2c.Transfer.{transfer-parts, transfer-in_sequence, no_bytes, with_bytes}
use freedom_metal.I2c.Write.{write-sends}

abbrev code : Reg → ℕ
code prescale_low = 0
code prescale_high = 1
code control = 2
code transmit = 3
code command = 4
code status = 5

abbrev decode : ℕ → Reg
decode zero = prescale_low
decode (suc zero) = prescale_high
decode (suc (suc zero)) = control
decode (suc (suc (suc zero))) = transmit
decode (suc (suc (suc (suc zero)))) = command
decode (suc (suc (suc (suc (suc n))))) = status

decode-code : (r : Reg) → decode (code r) ≡ r
decode-code prescale_low = refl
decode-code prescale_high = refl
decode-code control = refl
decode-code transmit = refl
decode-code command = refl
decode-code status = refl

code-apart : (a b : Reg) → a ≢ b → code b ≢ code a
code-apart a b apart = λ e. apart (sym (decode-code a) ∙ ap decode (sym e) ∙ decode-code b)

-- The time, the ticks for which a transfer is in progress, whether the last byte was refused, as all
-- bytes of `refused` are, the bytes that the registers hold, and what the controller was told.
record Wires : Type 0 where
  now : ℕ
  busy : ℕ
  rxack : ℕ
  words : ℕ → ℕ
  log : List Event

abbrev refused : ℕ
refused = 0xEE

abbrev get_reg : Wires → Reg → ℕ
get_reg s status = if s.busy == 0 then s.rxack % 256 else 2
get_reg s r = s.words (code r) % 256

abbrev put_reg : Wires → Reg → ℕ → Wires
put_reg s command v = record s {
  busy = 1;
  rxack = if s.words 3 % 256 == refused then 0x80 else 0;
  log = s.log ++ (event (s.words 3 % 256) v ∷ []);
}
put_reg s status v = s
put_reg s r v = record s { words = λ n. if n == code r then v else s.words n }

abbrev wires : Registers Reg
wires = record { State = Wires; read = get_reg; write = put_reg }

abbrev i2c0 : Hardware
i2c0 = record {
  regs = wires;
  tick = λ s. record s { now = s.now + 1; busy = s.busy - 1 };
  time = λ s. s.now;
}

three_ticks : Passes i2c0 3
unfolding ticks
three_ticks s = (2, omega arith, omega arith)

-- What was told, after a write to a register that is no command.
kept_log : (s : Wires) (r : Reg) (v : ℕ) → r ≢ command → (put_reg s r v).log ≡ s.log
kept_log s prescale_low v h = refl
kept_log s prescale_high v h = refl
kept_log s control v h = refl
kept_log s transmit v h = refl
kept_log s command v h = absurd (h refl)
kept_log s status v h = refl

i2c0-IsBus : IsBus i2c0
i2c0-IsBus = record {
  told = λ s. s.log;
  commanded = λ s c. refl;
  quiet = kept_log;
  ticked = λ s. refl;
  held = λ s v. refl;
}

get_reg-lt : (s : Wires) (r : Reg) → get_reg s r < 2 ^ 8
get_reg-lt s prescale_low = omega arith
get_reg-lt s prescale_high = omega arith
get_reg-lt s control = omega arith
get_reg-lt s transmit = omega arith
get_reg-lt s command = omega arith
get_reg-lt s status = ground arith

get_held : (s : Wires) (r : Reg) → holds r ≡ true → get_reg s r ≡ s.words (code r) % 256
get_held s prescale_low h = refl
get_held s prescale_high h = refl
get_held s control h = refl
get_held s transmit h = absurd (cc)
get_held s command h = absurd (cc)
get_held s status h = absurd (cc)

words_back : (s : Wires) (r : Reg) (v : ℕ) → holds r ≡ true → (put_reg s r v).words (code r) ≡ v
words_back s prescale_low v h = refl
words_back s prescale_high v h = refl
words_back s control v h = refl
words_back s transmit v h = absurd (cc)
words_back s command v h = absurd (cc)
words_back s status v h = absurd (cc)

words_other :
    (s : Wires) (a b : Reg) (v : ℕ)
    → code b ≢ code a
    → (put_reg s a v).words (code b) ≡ s.words (code b)
words_other s prescale_low b v h = ground (arith, h)
words_other s prescale_high b v h = ground (arith, h)
words_other s control b v h = ground (arith, h)
words_other s transmit b v h = ground (arith, h)
words_other s command b v h = refl
words_other s status b v h = refl

i2c0-IsI2c : IsI2c i2c0
i2c0-IsI2c = record {
  back = λ s r v h fits.
      get_held (put_reg s r v) r h
      ∙ ap (λ (x : ℕ). x % 256) (words_back s r v h)
      ∙ omega (arith, fits);
  other = λ s a b v apart h.
      get_held (put_reg s a v) b h
      ∙ ap (λ (x : ℕ). x % 256) (words_other s a b v (code-apart a b apart))
      ∙ sym (get_held s b h);
  fits = get_reg-lt;
}

abbrev device : I2c i2c0
device = record {
  init_done = 1;
  baud_rate = 100000;
  io = record { now = 7; busy = 0; rxack = 0; words = λ n. 0; log = [] };
}

is_on : device.init_done ≢ 0
is_on e = absurd (omega (arith, e))

-- 10 and 20 to the device 0x50, with STOP.
write-sends_example :
    (r : ℕ) × (after : Wires) × (write i2c0 3 0x50 (10 ∷ 20 ∷ []) 1 device
      ≡ some (r, record device { io = after }))
    × Progress i2c0 i2c0-IsBus (device.io) (put 0xA0 0x90 ∷ put 10 0x10 ∷ put 20 0x50 ∷ []) r after
write-sends_example = write-sends i2c0 i2c0-IsBus 3 0x50 1 (10 ∷ []) 20 device three_ticks is_on

abbrev outcome : ℕ × I2c i2c0 → Option (ℕ × List Event)
outcome (r, u) = some (r, u.io.log)

-- It does return 0.
write_returns :
    (write i2c0 3 0x50 (10 ∷ 20 ∷ []) 1 device >>= outcome)
    ≡ some (0, put 0xA0 0x90 ∷ put 10 0x10 ∷ put 20 0x50 ∷ [])
unfolding write write_addr write_bytes send_byte await reg_check acknowledged
write_returns = refl

read-asks_example :
    (r : ℕ) × (bytes : List ℕ) × (after : Wires) × (read i2c0 3 0x50 2 1 device
      ≡ some (r, bytes, record device { io = after }))
    × Progress i2c0 i2c0-IsBus (device.io) (put 0xA1 0x90 ∷ get 0x20 ∷ get 0x68 ∷ []) r after
    × (((r ≡ ret_ok) × (length bytes ≡ 2)) ⊎ (r ≡ ret_err))
read-asks_example = read-asks i2c0 i2c0-IsBus 3 0x50 1 1 device three_ticks is_on

transfer-parts_example :
    (transfer i2c0 3 0x50 (10 ∷ 20 ∷ []) 0 device
      ≡ (write i2c0 3 0x50 (10 ∷ 20 ∷ []) 1 device >>= (λ w. some (no_bytes w))))
    × (transfer i2c0 3 0x50 [] 2 device
        ≡ (read i2c0 3 0x50 2 1 device >>= (λ w. some (with_bytes w))))
transfer-parts_example = transfer-parts i2c0 3 0x50 10 1 (20 ∷ []) device

-- After the address, and after a byte that is refused.
abbrev addressed : Wires
addressed = record (device.io) {
  now = 8;
  words = λ n. if n == 3 then 0xA0 else 0;
  log = put 0xA0 0x90 ∷ [];
}

abbrev after_refusal : Wires
after_refusal = record addressed {
  now = 9;
  rxack = 0x80;
  words = λ n. if n == 3 then 0xEE else (if n == 3 then 0xA0 else 0);
  log = put 0xA0 0x90 ∷ put 0xEE 0x10 ∷ [];
}

addresses : write_addr i2c0 3 0x50 0 device.io ≡ some (acked, addressed)
unfolding write_addr send_byte await reg_check acknowledged
addresses = refl

byte_refused : write_bytes i2c0 3 0 (0xEE ∷ []) addressed ≡ some (nacked, after_refusal)
unfolding write_bytes send_byte await reg_check acknowledged
byte_refused = refl

transfer-in_sequence_example :
    (write i2c0 3 0x50 (0xEE ∷ []) 0 device ≡ some (0xFFFFFFFF, set_io i2c0 device after_refusal))
    × (transfer i2c0 3 0x50 (0xEE ∷ []) 1 device
        ≡ (read i2c0 3 0x50 1 1 (set_io i2c0 device after_refusal) >>= (λ w. some (with_bytes w))))
transfer-in_sequence_example =
    transfer-in_sequence i2c0 3 0x50 0xEE 0 [] device nacked addressed after_refusal is_on addresses
      byte_refused (λ e. cc)

prescale-bounds_example :
    (r : ℕ) × (after : I2c i2c0) × (prescale i2c0 16000000 400000 device ≡ some (r, after))
    × (((r ≡ ret_ok)
          × (after.baud_rate ≡ 400000)
          × (400000 * 5 * (prescaler i2c0 (after.io) + 1) ≤ 16000000)
          × (16000000 < 400000 * 5 * (prescaler i2c0 (after.io) + 2)))
        ⊎ ((r ≡ ret_err)
            × (after ≡ device)
            × ((16000000 < 400000 * 5) ⊎ (400000 * 5 * (2 ^ 16 + 1) ≤ 16000000))))
prescale-bounds_example =
    prescale-bounds i2c0 i2c0-IsI2c 16000000 400000 device (omega arith) (omega arith)

-- The two nodes of the device, on no list.
abbrev at : Places
at = record { guart = 64; pre_node = 72; post_node = 96 }

abbrev nodes : Heap
nodes a =
    if a == 72
    then some (record { callback = 0; priv = 0; next = 999 })
    else if a == 96
    then some (record { callback = 0; priv = 0; next = 999 })
    else none

abbrev clock : MetalClock
clock = record { pre_rate_change_callback = null; post_rate_change_callback = null }

abbrev idle : Schedule
idle = record { pre = []; post = [] }

-- The rate is the state; callbacks leave it.
abbrev oscillator : Device
oscillator = record { State = ℕ; call = λ f p m. m; get_rate = λ s. s; set_rate = λ hz s. (hz, hz) }

abbrev board : Board i2c0
board = record { i2c = device; heap = nodes }

abbrev slow : I2c i2c0
slow = record device {
  baud_rate = 100000;
  io =
      put_reg (put_reg (put_reg (put_reg (device.io) control 0) prescale_low 31) prescale_high 0)
        control 0x80;
}

abbrev fast : I2c i2c0
fast = record slow {
  baud_rate = 400000;
  io =
      put_reg (put_reg (put_reg (put_reg (slow.io) control 0) prescale_low 7) prescale_high 0)
        control 0x80;
}
