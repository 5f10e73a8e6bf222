-- ===== src/I2c.antt =====
-- src/drivers/sifive_i2c0.c: the I2C controller, as a master with addresses of 7 bits, over its byte
-- registers. The device that a function is given is not null. A `time_t` does not wrap.
use freedom_metal.Prelude.{
  ℕ, zero, suc, ◌+◌, ◌-◌, ◌*◌, ◌/◌, ◌%◌, ◌^◌, Bool, true, false, not, Option, none, some, List, [],
  ◌∷◌, ◌==◌, ltb, ◌&&◌, if◌then◌else◌, ◌>>=◌, bit_and, bit_or,
}
use freedom_metal.Prelude.Machine.{Registers, set_bits, clear_bits}
mod Poll
mod Bus
mod Write
mod Read
mod Transfer
mod Baud
mod Rate
mod Twice
mod Examples

-- The transmit register is also the one that receives, and the status is read where commands are
-- written.
pub data Reg : Type 0 where
  prescale_low : Reg
  prescale_high : Reg
  control : Reg
  transmit : Reg
  command : Reg
  status : Reg

abbrev pub control_en : ℕ
control_en = 0x80

abbrev pub cmd_start : ℕ
cmd_start = 0x80

abbrev pub cmd_stop : ℕ
cmd_stop = 0x40

abbrev pub cmd_read : ℕ
cmd_read = 0x20

abbrev pub cmd_write : ℕ
cmd_write = 0x10

abbrev pub cmd_ack : ℕ
cmd_ack = 0x08

abbrev pub status_rxack : ℕ
status_rxack = 0x80

abbrev pub status_tip : ℕ
status_tip = 0x02

abbrev pub prescale_max : ℕ
prescale_max = 0xFFFF

abbrev pub insert_stop : ℕ → ℕ
insert_stop stop_flag = bit_and stop_flag 1 * 2 ^ 6

abbrev pub insert_rw_bit : ℕ → ℕ → ℕ
insert_rw_bit addr rw = bit_or (bit_and addr 0x7F * 2) (bit_and rw 1)

-- METAL_I2C_RET_OK and METAL_I2C_RET_ERR, as a pattern of 32 bits
abbrev pub ret_ok : ℕ
ret_ok = 0

abbrev pub ret_err : ℕ
ret_err = 0xFFFFFFFF

-- How the transfer of a byte ends.
pub data Outcome : Type 0 where
  acked : Outcome
  nacked : Outcome
  timed_out : Outcome

abbrev pub ret : Outcome → ℕ
ret acked = ret_ok
ret nacked = ret_err
ret timed_out = ret_err

abbrev pub is_empty : {A : Type 0} → List A → Bool
is_empty [] = true
is_empty (x ∷ xs) = false

-- The registers, the time of a poll, and metal_time().
pub record Hardware : Type 1 where
  pub regs : Registers Reg
  pub tick : regs.State → regs.State
  pub time : regs.State → ℕ

module _ (hardware : Hardware) where
  open hardware use {regs, tick, time}

  -- struct __metal_driver_sifive_i2c0, but for its two callbacks, and the registers
  pub record I2c : Type 0 where
    pub init_done : ℕ
    pub baud_rate : ℕ
    pub io : regs.State

  abbrev pub in_progress : regs.State → Bool
  in_progress s = not (bit_and (regs.read s status) status_tip == 0)

  -- METAL_I2C_REG_CHECK: whether the transfer ended, or else the time ran out. `none` is out of fuel.
  unfoldable pub reg_check : ℕ → ℕ → regs.State → Option (Bool × regs.State)
  reg_check zero timeout s = none
  reg_check (suc fuel) timeout s =
      let rest = reg_check fuel timeout (tick s) in
      if in_progress s
      then (if ltb timeout (time s) then some (false, s) else rest)
      else some (true, s)

  -- With the timeout reset before.
  unfoldable pub await : ℕ → regs.State → Option (Bool × regs.State)
  await fuel s = reg_check fuel (time s + 1) s

  unfoldable pub acknowledged : Bool → regs.State → Outcome
  acknowledged false s = timed_out
  acknowledged true s = if bit_and (regs.read s status) status_rxack == 0 then acked else nacked

  -- A byte, its command, and the end of the transfer.
  unfoldable pub send_byte : ℕ → ℕ → ℕ → regs.State → Option (Outcome × regs.State)
  send_byte fuel byte cmd s = do
    (done, s') ← await fuel (regs.write (regs.write s transmit byte) command cmd)
    some (acknowledged done s', s')

  unfoldable pub write_addr : ℕ → ℕ → ℕ → regs.State → Option (Outcome × regs.State)
  write_addr fuel addr rw s = do
    (idle, s1) ← await fuel s
    if idle
        then send_byte fuel (insert_rw_bit addr rw) (bit_or cmd_write cmd_start) s1
        else some (timed_out, s1)

  -- The loop of a write, over the bytes from buf[i] on.
  unfoldable pub write_bytes : ℕ → ℕ → List ℕ → regs.State → Option (Outcome × regs.State)
  write_bytes fuel stop [] s = some (acked, s)
  write_bytes fuel stop (b ∷ bs) s =
      let cmd = if is_empty bs then bit_or cmd_write (insert_stop stop) else cmd_write in
      send_byte fuel b cmd s >>= (λ (sent, s1). elim sent [
        | acked ↦ write_bytes fuel stop bs s1
        | nacked ↦ some (nacked, s1)
        | timed_out ↦ some (timed_out, s1)
      ])

  -- The loop of a read, of `n` bytes more; what it stores is the bytes that are returned.
  unfoldable pub read_bytes : ℕ → ℕ → ℕ → regs.State → Option (ℕ × List ℕ × regs.State)
  read_bytes fuel stop zero s = some (ret_ok, [], s)
  read_bytes fuel stop (suc n) s =
      let cmd = if n == 0 then bit_or cmd_read (bit_or cmd_ack (insert_stop stop)) else cmd_read in
      await fuel (regs.write s command cmd) >>= (λ (done, s1). elim done [
        | false ↦ some (ret_err, [], s1)
        | true ↦
            read_bytes fuel stop n s1
            >>= (λ (r, bytes, s2). some (r, regs.read s1 transmit ∷ bytes, s2))
      ])

  abbrev pub set_io : I2c → regs.State → I2c
  set_io u s = record u { io = s }

  -- `buf` has the `len` bytes of the call.
  unfoldable pub write : ℕ → ℕ → List ℕ → ℕ → I2c → Option (ℕ × I2c)
  write fuel addr buf stop u = if u.init_done == 0 then some (ret_err, u) else (do
    (addressed, s1) ← write_addr fuel addr 0 u.io
    if ret addressed == 0
        then write_bytes fuel stop buf s1 >>= (λ (sent, s2). some (ret sent, set_io u s2))
        else some (ret addressed, set_io u s1))

  -- With the bytes that are stored.
  unfoldable pub read : ℕ → ℕ → ℕ → ℕ → I2c → Option (ℕ × List ℕ × I2c)
  read fuel addr len stop u = if u.init_done == 0 then some (ret_err, [], u) else (do
    (addressed, s1) ← write_addr fuel addr 1 u.io
    if ret addressed == 0
        then read_bytes fuel stop len s1 >>= (λ (r, bytes, s2). some (r, bytes, set_io u s2))
        else some (ret addressed, [], set_io u s1))

  -- The loop of a transfer that writes, over the bytes from txbuf[i] on. It has its own copy of what
  -- a write does.
  unfoldable pub transfer_tx : ℕ → ℕ → List ℕ → regs.State → Option (Outcome × regs.State)
  transfer_tx fuel rxlen [] s = some (acked, s)
  transfer_tx fuel rxlen (b ∷ bs) s =
      let cmd = if is_empty bs && (rxlen == 0) then bit_or cmd_write cmd_stop else cmd_write in
      await fuel (regs.write (regs.write s transmit b) command cmd) >>= (λ (done, s1). elim done [
        | false ↦ some (timed_out, s1)
        | true ↦
            let rest = transfer_tx fuel rxlen bs s1 in
            if bit_and (regs.read s1 status) status_rxack == 0 then rest else some (nacked, s1)
      ])

  -- The loop of a transfer that reads, of `n` bytes more.
  unfoldable pub transfer_rx : ℕ → ℕ → regs.State → Option (ℕ × List ℕ × regs.State)
  transfer_rx fuel zero s = some (ret_ok, [], s)
  transfer_rx fuel (suc n) s =
      let cmd = if n == 0 then bit_or cmd_read (bit_or cmd_ack cmd_stop) else cmd_read in
      await fuel (regs.write s command cmd) >>= (λ (done, s1). elim done [
        | false ↦ some (ret_err, [], s1)
        | true ↦
            transfer_rx fuel n s1
            >>= (λ (r, bytes, s2). some (r, regs.read s1 transmit ∷ bytes, s2))
      ])

  -- The second half of a transfer; `r` is the value of `ret` before it, `none` where it has none.
  unfoldable pub transfer_read :
      ℕ → ℕ → ℕ → Option ℕ → regs.State → Option (Option ℕ × List ℕ × regs.State)
  transfer_read fuel addr zero r s = some (r, [], s)
  transfer_read fuel addr (suc n) r s = do
    (addressed, s1) ← write_addr fuel addr 1 s
    if ret addressed == 0
        then transfer_rx fuel (suc n) s1 >>= (λ (r', bytes, s2). some (some r', bytes, s2))
        else some (some (ret addressed), [], s1)

  -- A byte that is not acknowledged ends the loop of the writes, and time that runs out the call.
  unfoldable pub transfer_from :
      ℕ → ℕ → List ℕ → ℕ → regs.State → Option (Option ℕ × List ℕ × regs.State)
  transfer_from fuel addr [] rxlen s = transfer_read fuel addr rxlen none s
  transfer_from fuel addr (b ∷ bs) rxlen s = do
    (addressed, s1) ← write_addr fuel addr 0 s
    if ret addressed == 0
        then transfer_tx fuel rxlen (b ∷ bs) s1 >>= (λ (sent, s2). elim sent [
          | acked ↦ transfer_read fuel addr rxlen (some ret_ok) s2
          | nacked ↦ transfer_read fuel addr rxlen (some ret_err) s2
          | timed_out ↦ some (some ret_err, [], s2)
        ])
        else some (some (ret addressed), [], s1)

  unfoldable pub transfer : ℕ → ℕ → List ℕ → ℕ → I2c → Option (Option ℕ × List ℕ × I2c)
  transfer fuel addr txbuf rxlen u =
      if u.init_done == 0
      then some (some ret_err, [], u)
      else transfer_from fuel addr txbuf rxlen u.io
        >>= (λ (r, bytes, s). some (r, bytes, set_io u s))
