-- ===== src/Spi/Examples.antt =====
-- A controller that receives each byte that it sends, and the theorems about
-- src/drivers/sifive_spi0.c at it.
use freedom_metal.Prelude.{
  ℕ, zero, suc, ◌+◌, ◌*◌, ◌%◌, ◌^◌, ◌≤◌, ◌<◌, ◌≡◌, ◌≢◌, refl, true, false, Option, none, some, List,
  [], ◌∷◌, ◌++◌, length, ◌==◌, if◌then◌else◌, arith, ◌⊎◌, ◌>>=◌,
}
use freedom_metal.Prelude.Machine.{Registers}
use freedom_metal.Spi.{
  Hardware, Reg, sckdiv, sckmode, csid, csdef, csmode, fmt, txdata, rxdata, txmark, fctrl, ip,
  Config, quad, addr_data, txdata_full, rxdata_empty, tx_byte, can_store, is_known, proto_bits,
  configure_spi, configure_lines, choose_bit, set_frame_len, spi_mode_switch, frames, exchange,
  wait_room, wait_word,
}
use freedom_metal.Spi.Baud.{Spi, set_baud_rate}
use freedom_metal.Spi.Frames.{payload, ticks, polls, Drains, Passes}
use freedom_metal.Spi.Quiet.{IsSpi, IsReleased}
use freedom_metal.Spi.Rate.{IsDivider, divisor, set_baud_rate-divisor}
use freedom_metal.Spi.Send.{transfer-sends}
use freedom_metal.Spi.Transfer.{transfer, stages, loop, switched, finish}

abbrev code : Reg → ℕ
code sckdiv = 0
code sckmode = 1
code csid = 2
code csdef = 3
code csmode = 4
code fmt = 5
code txdata = 6
code rxdata = 7
code txmark = 8
code fctrl = 9
code ip = 10

-- The time, whether the queue is full, whether a byte has come back, and which, the words of the
-- registers, and the bytes sent.
record Wires : Type 0 where
  now : ℕ
  full : ℕ
  back : Option ℕ
  words : ℕ → ℕ
  log : List ℕ

abbrev received : Option ℕ → ℕ
received none = rxdata_empty
received (some byte) = byte % 256

abbrev get_reg : Wires → Reg → ℕ
get_reg s txdata = if s.full == 0 then 0 else txdata_full
get_reg s rxdata = received s.back
get_reg s r = s.words (code r) % 2 ^ 32

abbrev put_reg : Wires → Reg → ℕ → Wires
put_reg s txdata v = record s { full = 1; back = some v; log = s.log ++ (v % 256 ∷ []) }
put_reg s r v = record s { words = λ n. if n == code r then v else s.words n }

abbrev wires : Registers Reg
wires = record { State = Wires; read = get_reg; write = put_reg }

abbrev spi0 : Hardware
spi0 = record {
  regs = wires;
  tick = λ s. record s { now = s.now + 1; full = 0 };
  after_receive = λ s. record s { back = none };
  time = λ s. s.now;
}

drains : Drains spi0 3
unfolding ticks
drains s = (1, omega arith, refl)

passes : Passes spi0 3
unfolding polls
passes s = (2, omega arith, omega arith)

kept_log : (s : Wires) (r : Reg) (v : ℕ) → r ≢ txdata → (put_reg s r v).log ≡ s.log
kept_log s sckdiv v h = refl
kept_log s sckmode v h = refl
kept_log s csid v h = refl
kept_log s csdef v h = refl
kept_log s csmode v h = refl
kept_log s fmt v h = refl
kept_log s txdata v h = absurd (h refl)
kept_log s rxdata v h = refl
kept_log s txmark v h = refl
kept_log s fctrl v h = refl
kept_log s ip v h = refl

received-lt : (back : Option ℕ) → received back < 2 ^ 32
received-lt none = omega arith
received-lt (some byte) = omega arith

get_reg-lt : (s : Wires) (r : Reg) → get_reg s r < 2 ^ 32
get_reg-lt s sckdiv = omega arith
get_reg-lt s sckmode = omega arith
get_reg-lt s csid = omega arith
get_reg-lt s csdef = omega arith
get_reg-lt s csmode = omega arith
get_reg-lt s fmt = omega arith
get_reg-lt s txdata = ground arith
get_reg-lt s rxdata = received-lt s.back
get_reg-lt s txmark = omega arith
get_reg-lt s fctrl = omega arith
get_reg-lt s ip = omega arith

spi0-IsSpi : IsSpi spi0
spi0-IsSpi = record {
  told = λ s. s.log;
  sent = λ s v. refl;
  quiet = kept_log;
  ticked = λ s. refl;
  received = λ s. refl;
  back = λ s v fits. omega (arith, fits);
  fits = get_reg-lt;
}

spi0-IsDivider : IsDivider spi0
spi0-IsDivider = record { back = λ s v fits. omega (arith, fits); fits = λ s. get_reg-lt s sckdiv }

abbrev reset : Wires
reset = record { now = 7; full = 0; back = none; words = λ n. 0; log = [] }

-- One byte of command, two of address and one of data, the address and the data on four wires.
abbrev flash_read : Config
flash_read = record {
  protocol = quad;
  polarity = false;
  phase = false;
  little_endian = false;
  cs_active_high = false;
  chip_select = 0;
  cmd_num = 1;
  addr_num = 2;
  dummy_num = 0;
  multi_wire = addr_data;
}

abbrev out_bytes : List ℕ
out_bytes = 0x6B ∷ 1 ∷ 2 ∷ 0 ∷ []

-- The bytes by their places.
abbrev nth_byte : ℕ → ℕ
nth_byte zero = 0x6B
nth_byte (suc zero) = 1
nth_byte (suc (suc zero)) = 2
nth_byte (suc (suc (suc n))) = 0

gives : (j : ℕ) → j < 4 → tx_byte (some out_bytes) j ≡ some (nth_byte j)
unfolding tx_byte
gives zero h = refl
gives (suc zero) h = refl
gives (suc (suc zero)) h = refl
gives (suc (suc (suc zero))) h = refl
gives (suc (suc (suc (suc j)))) h = absurd (omega (arith, h))

stores : (j : ℕ) → j < 4 → can_store (some 4) j ≡ true
unfolding can_store
stores j h = ground (arith, h)

quad_known : is_known quad ≡ true
unfolding is_known
quad_known = refl

transfer-sends_example :
    (r : ℕ) × (bytes : List ℕ) × (after : Wires) × (count : ℕ) × (transfer spi0 3 flash_read 4
        (some out_bytes)
        (some 4)
        reset
      ≡ some (r, bytes, after))
    × (count ≤ 4)
    × (spi0-IsSpi.told after ≡ spi0-IsSpi.told reset ++ payload nth_byte 0 count)
    × IsReleased spi0 spi0-IsSpi after
    × (((r ≡ 0) × (count ≡ 4) × (length bytes ≡ 4)) ⊎ (r ≡ 1))
transfer-sends_example =
    transfer-sends spi0 spi0-IsSpi 3 nth_byte flash_read 4 (some out_bytes) (some 4) reset
      quad_known drains passes gives stores (omega arith, omega arith)

abbrev outcome : ℕ × List ℕ × Wires → Option (ℕ × List ℕ × List ℕ)
outcome (r, bytes, s) = some (r, bytes, s.log)

-- It does return 0, and each byte has come back.
transfer_returns :
    (transfer spi0 3 flash_read 4 (some out_bytes) (some 4) reset >>= outcome)
    ≡ some (0, out_bytes, out_bytes)
unfolding transfer stages loop switched finish configure_spi configure_lines choose_bit
    set_frame_len spi_mode_switch frames exchange wait_room wait_word tx_byte can_store is_known
    proto_bits
transfer_returns = refl

abbrev device : Spi spi0
device = record { baud_rate = 0; io = reset }

set_baud_rate-divisor_example :
    (r : ℕ) × (after : Spi spi0) × (set_baud_rate spi0 (some 16000000) 1000000 device
      ≡ some (r, after))
    × (after.baud_rate ≡ 1000000)
    × (((r ≡ 0)
          × (2 * 1000000 * (divisor spi0 (after.io) + 1) ≤ 16000000)
          × (16000000 < 2 * 1000000 * (divisor spi0 (after.io) + 2)))
        ⊎ (((r ≡ 0xFFFFFFFF) × (after.io ≡ reset) × (2 * 1000000 * 4097 ≤ 16000000))
            ⊎ ((r ≡ 0) × (16000000 < 2 * 1000000) × (divisor spi0 (after.io) ≡ 4095))))
set_baud_rate-divisor_example =
    set_baud_rate-divisor spi0 spi0-IsDivider 16000000 1000000 device (omega arith) (omega arith)
