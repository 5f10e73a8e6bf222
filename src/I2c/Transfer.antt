-- ===== src/I2c/Transfer.antt =====
-- A transfer of src/drivers/sifive_i2c0.c, whose loops are its own, next to a write and a read.
use freedom_metal.Prelude.{
  ℕ, zero, suc, ◌≡◌, ◌≢◌, ◌∙◌, refl, ap, Bool, true, false, Option, none, some, List, [], ◌∷◌, ◌==◌,
  arith, ◌>>=◌, ◌⊎◌, ◌&&◌, Bool-cases, inl, inr, if◌then◌else◌, bit_or, bit_and,
}
use freedom_metal.I2c.{
  Hardware, I2c, Outcome, acked, nacked, timed_out, ret, ret_ok, ret_err, write_addr, write_bytes,
  write, read, transfer_from, transfer_read, transfer, set_io, read_bytes, transfer_tx, transfer_rx,
  send_byte, acknowledged, await, is_empty, cmd_write, cmd_stop, cmd_read, cmd_ack, insert_stop,
  transmit, command, status, status_rxack,
}

-- The result of a write as that of a transfer, which stores no bytes.
abbrev pub no_bytes : {A : Type 0} → ℕ × A → Option ℕ × List ℕ × A
no_bytes (r, u) = (some r, [], u)

abbrev pub with_bytes : {A : Type 0} → ℕ × List ℕ × A → Option ℕ × List ℕ × A
with_bytes (r, bytes, u) = (some r, bytes, u)

module _ (hardware : Hardware) where
  open hardware use {regs}

  -- What each operation does with the outcome of its last loop.
  abbrev store :
      I2c hardware → Option ℕ × List ℕ × regs.State → Option (Option ℕ × List ℕ × I2c hardware)
  store u (r, bytes, s) = some (r, bytes, set_io hardware u s)

  abbrev end_write : I2c hardware → Outcome × regs.State → Option (ℕ × I2c hardware)
  end_write u (o, s) = some (ret o, set_io hardware u s)

  abbrev end_read : I2c hardware → ℕ × List ℕ × regs.State → Option (ℕ × List ℕ × I2c hardware)
  end_read u (r, bytes, s) = some (r, bytes, set_io hardware u s)

  abbrev as_write : ℕ × I2c hardware → Option (Option ℕ × List ℕ × I2c hardware)
  as_write w = some (no_bytes w)

  abbrev as_read : ℕ × List ℕ × I2c hardware → Option (Option ℕ × List ℕ × I2c hardware)
  as_read w = some (with_bytes w)

  -- The copies of the loops do what the loops of a write and of a read do.
  transfer_tx-write_bytes :
      (fuel rxlen : ℕ) (bs : List ℕ) (s : regs.State)
      → transfer_tx hardware fuel rxlen bs s
        ≡ write_bytes hardware fuel (if rxlen == 0 then 1 else 0) bs s
  unfolding transfer_tx write_bytes send_byte acknowledged
  transfer_tx-write_bytes fuel rxlen [] s = refl
  transfer_tx-write_bytes fuel rxlen (b ∷ bs) s =
      rw (command_same (is_empty bs) (Bool-cases (rxlen == 0))) (
        awaited (λ s1. transfer_tx-write_bytes fuel rxlen bs s1)
          (await hardware fuel (
            regs.write (regs.write s transmit b) command
              (if is_empty bs then bit_or cmd_write (insert_stop stop) else cmd_write))))
    where
      stop : ℕ
      stop = if rxlen == 0 then 1 else 0

      command_same :
          (last : Bool)
          → ((rxlen == 0) ≡ true) ⊎ ((rxlen == 0) ≡ false)
          → (if last && (rxlen == 0) then bit_or cmd_write cmd_stop else cmd_write)
            ≡ (if last then bit_or cmd_write (insert_stop stop) else cmd_write)
      command_same true (inl e) = rw (e) refl
      command_same true (inr e) = rw (e) refl
      command_same false e = refl

      ends : Outcome × regs.State → Option (Outcome × regs.State)
      ends (sent, s1) = elim sent [
        | acked ↦ write_bytes hardware fuel stop bs s1
        | nacked ↦ some (nacked, s1)
        | timed_out ↦ some (timed_out, s1)
      ]

      answered :
          ((s1 : regs.State)
            → transfer_tx hardware fuel rxlen bs s1 ≡ write_bytes hardware fuel stop bs s1)
          → (s1 : regs.State)
          → ((bit_and (regs.read s1 status) status_rxack == 0) ≡ true)
            ⊎ ((bit_and (regs.read s1 status) status_rxack == 0) ≡ false)
          → (if bit_and (regs.read s1 status) status_rxack == 0
              then transfer_tx hardware fuel rxlen bs s1
              else some (nacked, s1))
            ≡ ends (acknowledged hardware true s1, s1)
      answered same s1 (inl e) = rw (e) (same s1)
      answered same s1 (inr e) = rw (e) refl

      awaited :
          ((s1 : regs.State)
            → transfer_tx hardware fuel rxlen bs s1 ≡ write_bytes hardware fuel stop bs s1)
          → (w : Option (Bool × regs.State))
          → (w >>= (λ (done, s1). elim done [
            | false ↦ some (timed_out, s1)
            | true ↦
                if bit_and (regs.read s1 status) status_rxack == 0
                then transfer_tx hardware fuel rxlen bs s1
                else some (nacked, s1)
          ]))
            ≡ ((w >>= (λ (done, s1). some (acknowledged hardware done s1, s1))) >>= ends)
      awaited same none = refl
      awaited same (some (false, s1)) = refl
      awaited same (some (true, s1)) =
          answered same s1 (Bool-cases (bit_and (regs.read s1 status) status_rxack == 0))

  transfer_rx-read_bytes :
      (fuel n : ℕ) (s : regs.State) → transfer_rx hardware fuel n s ≡ read_bytes hardware fuel 1 n s
  unfolding transfer_rx read_bytes
  transfer_rx-read_bytes fuel zero s = refl
  transfer_rx-read_bytes fuel (suc n) s =
      awaited (λ s1. transfer_rx-read_bytes fuel n s1)
        (await hardware fuel (
          regs.write s command
            (if n == 0 then bit_or cmd_read (bit_or cmd_ack cmd_stop) else cmd_read)))
    where
      keep : ℕ → ℕ × List ℕ × regs.State → Option (ℕ × List ℕ × regs.State)
      keep byte (r, bytes, s2) = some (r, byte ∷ bytes, s2)

      stores :
          (regs.State → Option (ℕ × List ℕ × regs.State))
          → Bool × regs.State
          → Option (ℕ × List ℕ × regs.State)
      stores more (done, s1) = elim done [
        | false ↦ some (ret_err, [], s1)
        | true ↦ more s1 >>= keep (regs.read s1 transmit)
      ]

      awaited :
          ((s1 : regs.State) → transfer_rx hardware fuel n s1 ≡ read_bytes hardware fuel 1 n s1)
          → (w : Option (Bool × regs.State))
          → (w >>= stores (transfer_rx hardware fuel n))
            ≡ (w >>= stores (read_bytes hardware fuel 1 n))
      awaited same none = refl
      awaited same (some (false, s1)) = refl
      awaited same (some (true, s1)) = ap (λ w. w >>= keep (regs.read s1 transmit)) (same s1)

  write_only :
      (fuel addr b : ℕ) (bs : List ℕ) (u : I2c hardware)
      → transfer hardware fuel addr (b ∷ bs) 0 u
        ≡ (write hardware fuel addr (b ∷ bs) 1 u >>= as_write)
  unfolding transfer transfer_from transfer_read write
  write_only fuel addr b bs u = elim (Bool-cases (u.init_done == 0)) [
    | inl off ↦ rw (off) refl
    | inr on ↦ rw (on) (addressed (write_addr hardware fuel addr 0 u.io) refl)
  ]
    where
      Same : Type 0
      Same = (transfer_from hardware fuel addr (b ∷ bs) 0 u.io >>= store u) ≡ (
          (write_addr hardware fuel addr 0 u.io >>= (λ (o, s1).
            if ret o == 0
            then write_bytes hardware fuel 1 (b ∷ bs) s1 >>= end_write u
            else end_write u (o, s1)))
          >>= as_write)

      tx :
          (s1 : regs.State)
          → transfer_tx hardware fuel 0 (b ∷ bs) s1 ≡ write_bytes hardware fuel 1 (b ∷ bs) s1
      tx s1 = transfer_tx-write_bytes fuel 0 (b ∷ bs) s1

      sent :
          (s1 : regs.State)
          → write_addr hardware fuel addr 0 u.io ≡ some (acked, s1)
          → (w : Option (Outcome × regs.State)) → write_bytes hardware fuel 1 (b ∷ bs) s1 ≡ w
          → Same
      sent s1 at none e = rw (at, tx s1, e) refl
      sent s1 at (some (acked, s2)) e = rw (at, tx s1, e) refl
      sent s1 at (some (nacked, s2)) e = rw (at, tx s1, e) refl
      sent s1 at (some (timed_out, s2)) e = rw (at, tx s1, e) refl

      addressed :
          (a : Option (Outcome × regs.State)) → write_addr hardware fuel addr 0 u.io ≡ a → Same
      addressed none e = rw (e) refl
      addressed (some (acked, s1)) e = sent s1 e (write_bytes hardware fuel 1 (b ∷ bs) s1) refl
      addressed (some (nacked, s1)) e = rw (e) refl
      addressed (some (timed_out, s1)) e = rw (e) refl

  -- The second half of a transfer, without the value before it.
  transfer_read-result :
      (fuel addr n : ℕ) (r : Option ℕ) (u : I2c hardware)
      → (u.init_done == 0) ≡ false
      → (transfer_read hardware fuel addr (suc n) r u.io >>= store u)
        ≡ (read hardware fuel addr (suc n) 1 u >>= as_read)
  unfolding transfer_read read
  transfer_read-result fuel addr n r u on =
      rw (on) (addressed (write_addr hardware fuel addr 1 u.io) refl)
    where
      Same : Type 0
      Same = (transfer_read hardware fuel addr (suc n) r u.io >>= store u) ≡ (
          (write_addr hardware fuel addr 1 u.io >>= (λ (o, s1).
            if ret o == 0
            then read_bytes hardware fuel 1 (suc n) s1 >>= end_read u
            else end_read u (ret o, [], s1)))
          >>= as_read)

      got :
          (s1 : regs.State)
          → write_addr hardware fuel addr 1 u.io ≡ some (acked, s1)
          → (w : Option (ℕ × List ℕ × regs.State)) → read_bytes hardware fuel 1 (suc n) s1 ≡ w
          → Same
      got s1 at none e = rw (at, transfer_rx-read_bytes fuel (suc n) s1, e) refl
      got s1 at (some w) e = rw (at, transfer_rx-read_bytes fuel (suc n) s1, e) refl

      addressed :
          (a : Option (Outcome × regs.State)) → write_addr hardware fuel addr 1 u.io ≡ a → Same
      addressed none e = rw (e) refl
      addressed (some (acked, s1)) e = got s1 e (read_bytes hardware fuel 1 (suc n) s1) refl
      addressed (some (nacked, s1)) e = rw (e) refl
      addressed (some (timed_out, s1)) e = rw (e) refl

  read_only :
      (fuel addr n : ℕ) (u : I2c hardware)
      → transfer hardware fuel addr [] (suc n) u ≡ (read hardware fuel addr (suc n) 1 u >>= as_read)
  unfolding transfer transfer_from read
  read_only fuel addr n u = elim (Bool-cases (u.init_done == 0)) [
    | inl off ↦ rw (off) refl
    | inr on ↦ started on ∙ transfer_read-result fuel addr n none u on
  ]
    where
      started :
          (u.init_done == 0) ≡ false
          → transfer hardware fuel addr [] (suc n) u
            ≡ (transfer_read hardware fuel addr (suc n) none u.io >>= store u)
      started on = rw (on) refl

  -- A transfer of one byte or more to write and none to read is a write with STOP, and a
  -- transfer of no bytes to write and one or more to read is a read with STOP: the same results
  -- and the same effects on every path, although the transfer has loops of its own.
  pub transfer-parts :
      (fuel addr b n : ℕ) (bs : List ℕ) (u : I2c hardware)
      → (transfer hardware fuel addr (b ∷ bs) 0 u
          ≡ (write hardware fuel addr (b ∷ bs) 1 u >>= as_write))
        × (transfer hardware fuel addr [] (suc n) u
            ≡ (read hardware fuel addr (suc n) 1 u >>= as_read))
  transfer-parts fuel addr b n bs u = (write_only fuel addr b bs u, read_only fuel addr n u)

  -- Where the device has been initialised, the address is acknowledged, and the loop of a write
  -- without STOP ends before the time runs out, all its bytes acknowledged or one of them not:
  -- metal_i2c_write without STOP returns 0 or -1 by that outcome, and a transfer that writes the
  -- same bytes and reads one or more has on every path the result and the effects of a read with
  -- STOP after that write. So where a byte is not acknowledged the write returns -1, and the
  -- transfer still returns what the read does.
  pub transfer-in_sequence :
      (fuel addr b n : ℕ) (bs : List ℕ) (u : I2c hardware) (o : Outcome) (s1 s2 : regs.State)
      → u.init_done ≢ 0
      → write_addr hardware fuel addr 0 u.io ≡ some (acked, s1)
      → write_bytes hardware fuel 0 (b ∷ bs) s1 ≡ some (o, s2)
      → o ≢ timed_out
      → (write hardware fuel addr (b ∷ bs) 0 u ≡ some (ret o, set_io hardware u s2))
        × (transfer hardware fuel addr (b ∷ bs) (suc n) u
            ≡ (read hardware fuel addr (suc n) 1 (set_io hardware u s2) >>= as_read))
  unfolding write transfer transfer_from
  transfer-in_sequence fuel addr b n bs u o s1 s2 started at sent in_time =
      let on : (u.init_done == 0) ≡ false = ground (arith, started) in
      let some_left : (suc n == 0) ≡ false = ground arith in
      let tx : transfer_tx hardware fuel (suc n) (b ∷ bs) s1 ≡ some (o, s2) =
        transfer_tx-write_bytes fuel (suc n) (b ∷ bs) s1
        ∙ ap (λ (stop : ℕ). write_bytes hardware fuel stop (b ∷ bs) s1) (rw (some_left) refl)
        ∙ sent in
      (rw (on, at, sent) refl, rw (on, at, tx) (then_read on o in_time))
    where
      then_read :
          (u.init_done == 0) ≡ false
          → (o' : Outcome) → o' ≢ timed_out
          → ((elim o' [
            | acked ↦ transfer_read hardware fuel addr (suc n) (some ret_ok) s2
            | nacked ↦ transfer_read hardware fuel addr (suc n) (some ret_err) s2
            | timed_out ↦ some (some ret_err, [], s2)
          ])
              >>= store u)
            ≡ (read hardware fuel addr (suc n) 1 (set_io hardware u s2) >>= as_read)
      then_read on acked h =
          transfer_read-result fuel addr n (some ret_ok) (set_io hardware u s2) on
      then_read on nacked h =
          transfer_read-result fuel addr n (some ret_err) (set_io hardware u s2) on
      then_read on timed_out h = absurd (h refl)
