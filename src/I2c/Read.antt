-- ===== src/I2c/Read.antt =====
-- A read of src/drivers/sifive_i2c0.c, byte after byte.
use freedom_metal.Prelude.{
  ℕ, zero, suc, ◌+◌, ◌*◌, ◌%◌, ◌≤◌, ◌≡◌, ◌≢◌, refl, sym, ap, Bool, true, false, some, List, [], ◌∷◌,
  ◌++◌, length, ◌⊎◌, inl, inr, ◌==◌, arith, bit_and, bit_or,
}
use freedom_metal.I2c.{
  Hardware, I2c, transmit, command, cmd_read, cmd_ack, Outcome, acked, nacked, timed_out, ret,
  ret_ok, ret_err, insert_stop, await, write_addr, read_bytes, read,
}
use freedom_metal.I2c.Poll.{ticks, Passes, await-ends}
use freedom_metal.I2c.Bus.{
  Event, get, event, IsBus, Progress, Progress-then, Progress-stop, command-Progress,
  write_addr-Progress, address,
}
use freedom_metal.I2c.Write.{insert_stop-value}
use mathlib.Core.Path.{subst}

-- The bytes of a read that are not its last.
abbrev pub asks : ℕ → List Event
asks zero = []
asks (suc n) = get 0x20 ∷ asks n

-- The last byte is asked for with ACK, which is to say with no acknowledgement, and with STOP where
-- the lowest bit of the flag asks for it.
abbrev pub last_ask : ℕ → Event
last_ask stop = get (0x28 + stop % 2 * 0x40)

stop-read :
    (stop : ℕ)
    → (bit_or cmd_read (bit_or cmd_ack (insert_stop stop)) ≡ 0x28 + stop % 2 * 0x40)
      × ((bit_and (0x28 + stop % 2 * 0x40) cmd_read == 0) ≡ false)
stop-read stop =
    let flag : insert_stop stop ≡ stop % 2 * 64 = insert_stop-value stop in
    elim (flags (stop % 2) (omega arith)) [
      | inl z ↦ rw (flag, z) (refl, refl)
      | inr o ↦ rw (flag, o) (refl, refl)
    ]
  where
    flags : (x : ℕ) → x ≤ 1 → (x ≡ 0) ⊎ (x ≡ 1)
    flags x small = ground arith

module _ (hardware : Hardware) (laws : IsBus hardware) where
  open hardware use {regs}

  -- A byte that is asked for.
  get-Progress :
      (fuel cmd : ℕ) (s : regs.State)
      → (bit_and cmd cmd_read == 0) ≡ false
      → Passes hardware fuel
      → (done : Bool) × (after : regs.State) × (await hardware fuel (regs.write s command cmd)
          ≡ some (done, after))
        × ((r : ℕ) → (r ≡ ret_ok) ⊎ (r ≡ ret_err) → Progress hardware laws s (get cmd ∷ []) r after)
  get-Progress fuel cmd s reads passes =
      let (k, done, ends, over) = await-ends hardware fuel (regs.write s command cmd) passes in
      let asked : event (regs.read s transmit) cmd ≡ get cmd = rw (reads) refl in
      (
        done,
        ticks hardware k (regs.write s command cmd),
        ends,
        λ r either.
            subst
              (λ (e : Event).
                Progress hardware laws s (e ∷ []) r (ticks hardware k (regs.write s command cmd)))
              asked (command-Progress hardware laws fuel s cmd r k either),
      )

  -- What a loop of `n + 1` bytes leaves.
  abbrev Reads : ℕ → ℕ → ℕ → regs.State → Type 0
  Reads fuel stop n s =
      (r : ℕ) × (bytes : List ℕ) × (after : regs.State) × (read_bytes hardware fuel stop (suc n) s
        ≡ some (r, bytes, after))
      × Progress hardware laws s (asks n ++ (last_ask stop ∷ [])) r after
      × (((r ≡ ret_ok) × (length bytes ≡ suc n)) ⊎ (r ≡ ret_err))

  last-Reads : (fuel stop : ℕ) (s : regs.State) → Passes hardware fuel → Reads fuel stop 0 s
  unfolding read_bytes
  last-Reads fuel stop s passes =
      let (cmd, reads) = stop-read stop in
      let (done, after, ends, moved) = get-Progress fuel (0x28 + stop % 2 * 0x40) s reads passes in
      let ends' : await hardware fuel
            (regs.write s command (bit_or cmd_read (bit_or cmd_ack (insert_stop stop))))
          ≡ some (done, after) =
        subst (λ (x : ℕ). await hardware fuel (regs.write s command x) ≡ some (done, after))
          (sym cmd) ends in
      goes done after ends' moved
    where
      goes :
          (done : Bool) (after : regs.State)
          → await hardware fuel
              (regs.write s command (bit_or cmd_read (bit_or cmd_ack (insert_stop stop))))
            ≡ some (done, after)
          → ((r : ℕ)
              → (r ≡ ret_ok) ⊎ (r ≡ ret_err)
              → Progress hardware laws s (last_ask stop ∷ []) r after)
          → Reads fuel stop 0 s
      goes true after ends moved = (
        ret_ok,
        regs.read after transmit ∷ [],
        after,
        rw (ends) refl,
        moved ret_ok (inl refl),
        inl (refl, refl),
      )
      goes false after ends moved =
          (ret_err, [], after, rw (ends) refl, moved ret_err (inr refl), inr refl)

  read_bytes-asks : (fuel stop n : ℕ) (s : regs.State) → Passes hardware fuel → Reads fuel stop n s
  unfolding read_bytes
  read_bytes-asks fuel stop zero s passes = last-Reads fuel stop s passes
  read_bytes-asks fuel stop (suc n) s passes =
      let (done, s1, ends, moved) = get-Progress fuel cmd_read s refl passes in
      goes done s1 ends moved (read_bytes-asks fuel stop n s1 passes)
    where
      rest : List Event
      rest = asks n ++ (last_ask stop ∷ [])

      not_last : (suc n == 0) ≡ false
      not_last = ground arith

      goes :
          (done : Bool) (s1 : regs.State)
          → await hardware fuel (regs.write s command cmd_read) ≡ some (done, s1)
          → ((r : ℕ) → (r ≡ ret_ok) ⊎ (r ≡ ret_err) → Progress hardware laws s (get 0x20 ∷ []) r s1)
          → Reads fuel stop n s1
          → Reads fuel stop (suc n) s
      goes true s1 ends moved (r, bytes, after, later, moved', result) = (
        r,
        regs.read s1 transmit ∷ bytes,
        after,
        rw (not_last, ends, later) refl,
        Progress-then hardware laws (moved ret_ok (inl refl)) moved',
        elim result [ inl ok ↦ inl (ok.0, ap suc ok.1) | inr err ↦ inr err ],
      )
      goes false s1 ends moved later = (
        ret_err,
        [],
        s1,
        rw (not_last, ends) refl,
        Progress-stop hardware laws rest refl (moved ret_err (inr refl)),
        inr refl,
      )

  -- Where the controller has been started, keeps the byte to send, and the time passes within
  -- the fuel, a read of n + 1 bytes ends, whatever the device at the address does. It returns 0,
  -- with n + 1 bytes stored, or -1. What the controller is told is the start of: the address
  -- with the bit of a read and START, n times READ, and READ with no acknowledgement of the
  -- byte, and STOP where it is asked for. Where the result is 0 it is told all of this.
  pub read-asks :
      (fuel addr stop n : ℕ) (u : I2c hardware)
      → Passes hardware fuel
      → u.init_done ≢ 0
      → (r : ℕ) × (bytes : List ℕ) × (after : regs.State) × (read hardware fuel addr (suc n) stop u
          ≡ some (r, bytes, record u { io = after }))
        × Progress hardware laws (u.io) (address addr 1 ∷ (asks n ++ (last_ask stop ∷ []))) r after
        × (((r ≡ ret_ok) × (length bytes ≡ suc n)) ⊎ (r ≡ ret_err))
  unfolding read
  read-asks fuel addr stop n u passes started =
      let test : (u.init_done == 0) ≡ false = ground (arith, started) in
      let (o, s1, sends, moved) =
        write_addr-Progress hardware laws fuel addr 1 u.io passes (inr refl) in
      goes test o s1 sends moved (read_bytes-asks fuel stop n s1 passes)
    where
      rest : List Event
      rest = asks n ++ (last_ask stop ∷ [])

      goes :
          (u.init_done == 0) ≡ false
          → (o : Outcome) (s1 : regs.State) → write_addr hardware fuel addr 1 u.io ≡ some (o, s1)
          → Progress hardware laws (u.io) (address addr 1 ∷ []) (ret o) s1
          → Reads fuel stop n s1
          → (r : ℕ) × (bytes : List ℕ) × (after : regs.State) × (read hardware fuel addr
                (suc n)
                stop
                u
              ≡ some (r, bytes, record u { io = after }))
            × Progress hardware laws (u.io) (address addr 1 ∷ rest) r after
            × (((r ≡ ret_ok) × (length bytes ≡ suc n)) ⊎ (r ≡ ret_err))
      goes test acked s1 sends moved (r, bytes, after, later, moved', result) = (
        r,
        bytes,
        after,
        rw (test, sends, later) refl,
        Progress-then hardware laws moved moved',
        result,
      )
      goes test nacked s1 sends moved later = (
        ret_err,
        [],
        s1,
        rw (test, sends) refl,
        Progress-stop hardware laws rest refl moved,
        inr refl,
      )
      goes test timed_out s1 sends moved later = (
        ret_err,
        [],
        s1,
        rw (test, sends) refl,
        Progress-stop hardware laws rest refl moved,
        inr refl,
      )
