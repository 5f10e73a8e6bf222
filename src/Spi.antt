-- ===== src/Spi.antt =====
-- src/drivers/sifive_spi0.c and metal/spi.h: the SPI controller, over its 32-bit registers.
use freedom_metal.Prelude.{
  ℕ, zero, suc, ◌+◌, ◌-◌, ◌*◌, ◌/◌, ◌%◌, ◌^◌, Bool, true, false, not, Option, none, some, List, [],
  ◌∷◌, ◌==◌, ◌||◌, ltb, get_elem?, if◌then◌else◌, ◌>>=◌, bit_and, bit_or, max,
}
use freedom_metal.Prelude.Machine.{Registers, set_bits, clear_bits}
mod Transfer
mod Baud
mod Frames
mod Quiet
mod Send
mod Rate
mod Examples

pub data Reg : Type 0 where
  sckdiv : Reg
  sckmode : Reg
  csid : Reg
  csdef : Reg
  csmode : Reg
  fmt : Reg
  txdata : Reg
  rxdata : Reg
  txmark : Reg
  fctrl : Reg
  ip : Reg

-- The fields of the registers
abbrev pub sckdiv_mask : ℕ
sckdiv_mask = 0xFFF

abbrev pub csmode_mask : ℕ
csmode_mask = 3

abbrev pub csmode_hold : ℕ
csmode_hold = 2

abbrev pub proto_mask : ℕ
proto_mask = 3

abbrev pub endian_lsb : ℕ
endian_lsb = 4

abbrev pub disable_rx : ℕ
disable_rx = 8

abbrev pub frame_len_mask : ℕ
frame_len_mask = 0xF * 2 ^ 16

abbrev pub txdata_full : ℕ
txdata_full = 0x80000000

abbrev pub rxdata_empty : ℕ
rxdata_empty = 0x80000000

abbrev pub txmark_mask : ℕ
txmark_mask = 7

abbrev pub txwm : ℕ
txwm = 1

-- The last is a value that the enumeration does not have.
pub data Protocol : Type 0 where
  single : Protocol
  dual : Protocol
  quad : Protocol
  unknown : Protocol

pub data MultiWire : Type 0 where
  multi_wire_all : MultiWire
  data_only : MultiWire
  addr_data : MultiWire

-- `config->multi_wire == stage`
abbrev pub is_stage : MultiWire → MultiWire → Bool
is_stage multi_wire_all multi_wire_all = true
is_stage data_only data_only = true
is_stage addr_data addr_data = true
is_stage _ _ = false

-- struct metal_spi_config
pub record Config : Type 0 where
  pub protocol : Protocol
  pub polarity : Bool
  pub phase : Bool
  pub little_endian : Bool
  pub cs_active_high : Bool
  pub chip_select : ℕ
  pub cmd_num : ℕ
  pub addr_num : ℕ
  pub dummy_num : ℕ
  pub multi_wire : MultiWire

-- The registers, the time of a poll, what a read of rxdata leaves, and metal_time(), which does not
-- wrap.
pub record Hardware : Type 1 where
  pub regs : Registers Reg
  pub tick : regs.State → regs.State
  pub after_receive : regs.State → regs.State
  pub time : regs.State → ℕ

-- `tx_buf[i]`, or 0 where the buffer is NULL. `none` is a read out of the buffer.
unfoldable pub tx_byte : Option (List ℕ) → ℕ → Option ℕ
tx_byte none i = some 0
tx_byte (some bytes) i = get_elem? bytes i

-- Whether `rx_buf[i]` can be written, or the buffer, of which the size is given, is NULL.
unfoldable pub can_store : Option ℕ → ℕ → Bool
can_store none i = true
can_store (some size) i = ltb i size

-- The bits of a protocol that uses all wires from the start, or only one.
unfoldable pub proto_bits : Config → ℕ
proto_bits c = elim (c.protocol) [
  | single ↦ 0
  | dual ↦ if is_stage (c.multi_wire) multi_wire_all then 1 else 0
  | quad ↦ if is_stage (c.multi_wire) multi_wire_all then 2 else 0
  | unknown ↦ 0
]

unfoldable pub is_known : Protocol → Bool
is_known unknown = false
is_known _ = true

module _ (hardware : Hardware) where
  open hardware use {regs, tick, after_receive, time}

  -- `reg &= ~mask; reg |= bits`
  abbrev pub put_bits : regs.State → Reg → ℕ → ℕ → regs.State
  put_bits s r mask bits = set_bits regs (clear_bits regs 32 s r mask) r bits

  -- `reg |= bit` or `reg &= ~bit`
  unfoldable pub choose_bit : Bool → regs.State → Reg → ℕ → regs.State
  choose_bit true s r b = set_bits regs s r b
  choose_bit false s r b = clear_bits regs 32 s r b

  unfoldable pub set_frame_len : regs.State → regs.State
  set_frame_len s =
      if bit_and (regs.read s fmt) frame_len_mask == 8 * 2 ^ 16
      then s
      else put_bits s fmt frame_len_mask (8 * 2 ^ 16)

  -- configure_spi once the protocol is set
  unfoldable pub configure_lines : Config → regs.State → regs.State
  configure_lines c s =
      let s1 = choose_bit c.polarity s sckmode 2 in
      let s2 = choose_bit c.phase s1 sckmode 1 in
      let s3 = choose_bit c.little_endian s2 fmt endian_lsb in
      let s4 = clear_bits regs 32 s3 fmt disable_rx in
      let s5 = regs.write s4 csdef (if c.cs_active_high then 0 else 1) in
      let s6 = set_frame_len s5 in regs.write (regs.write s6 csid c.chip_select) fctrl 0

  -- Whether the protocol is one that it knows, and the registers.
  unfoldable pub configure_spi : Config → regs.State → Bool × regs.State
  configure_spi c s =
      let cleared = clear_bits regs 32 s fmt proto_mask in
      if is_known c.protocol
      then (true, configure_lines c (set_bits regs cleared fmt (proto_bits c)))
      else (false, cleared)

  unfoldable pub spi_mode_switch : Config → MultiWire → regs.State → regs.State
  spi_mode_switch c stage s =
      let cleared = clear_bits regs 32 s fmt proto_mask in
      if is_stage c.multi_wire stage
      then elim (c.protocol) [
        | single ↦ cleared
        | dual ↦ set_bits regs cleared fmt 1
        | quad ↦ set_bits regs cleared fmt 2
        | unknown ↦ cleared
      ]
      else s

  abbrev pub release : regs.State → regs.State
  release s = clear_bits regs 32 s csmode csmode_mask

  -- The wait for room in the transmit queue. `none` is out of fuel, here and below.
  unfoldable pub wait_room : ℕ → regs.State → Option regs.State
  wait_room zero s = none
  wait_room (suc fuel) s =
      let rest = wait_room fuel (tick s) in
      if bit_and (regs.read s txdata) txdata_full == 0 then some s else rest

  -- The word that is received, or `none` once the time is past `endwait`.
  unfoldable pub wait_word : ℕ → ℕ → regs.State → Option (Option ℕ × regs.State)
  wait_word zero endwait s = none
  wait_word (suc fuel) endwait s =
      let word = regs.read s rxdata in
      let s' = after_receive s in
      let rest = wait_word fuel endwait (tick s') in
      if bit_and word rxdata_empty == 0
      then some (some word, s')
      else if ltb endwait (time s')
      then some (none, s')
      else rest

  -- A byte sent, and the word that comes for it.
  unfoldable pub exchange : ℕ → ℕ → regs.State → Option (Option ℕ × regs.State)
  exchange fuel byte s =
      wait_room fuel s
      >>= (λ ready. let sent = regs.write ready txdata byte in wait_word fuel (time sent + 1) sent)

  -- A loop of `n` turns from `i` on: whether it was not cut off, the bytes that are received, and
  -- the registers. `none` is also an access out of a buffer.
  unfoldable pub frames :
      ℕ → Option (List ℕ) → Option ℕ → ℕ → ℕ → regs.State → Option (Bool × List ℕ × regs.State)
  frames fuel tx rx zero i s = some (true, [], s)
  frames fuel tx rx (suc n) i s = tx_byte tx i >>= (λ byte. exchange fuel byte s >>= (λ (word, s1).
      elim word [
        | none ↦ some (false, [], release s1)
        | some w ↦
            let rest = frames fuel tx rx n (suc i) s1 in
            if can_store rx i
            then rest >>= (λ (ok, bytes, s2). some (ok, bit_and w 0xFF ∷ bytes, s2))
            else none
      ]))
