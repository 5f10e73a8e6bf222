-- ===== src/I2c/Write.antt =====
-- A write of src/drivers/sifive_i2c0.c, byte after byte.
use freedom_metal.Prelude.{
  ℕ, ◌+◌, ◌*◌, ◌%◌, ◌≤◌, ◌≡◌, ◌≢◌, refl, true, false, some, List, [], ◌∷◌, ◌++◌, map, ◌⊎◌, inl, inr,
  ◌==◌, arith, bit_and, bit_or,
}
use freedom_metal.Prelude.Fields.{bit_and-mask}
use mathlib.Core.Path.{subst}
use freedom_metal.I2c.{
  Hardware, I2c, cmd_read, cmd_write, Outcome, acked, nacked, timed_out, ret, ret_err, insert_stop,
  is_empty, send_byte, write_addr, write_bytes, write,
}
use freedom_metal.I2c.Poll.{Passes}
use freedom_metal.I2c.Bus.{
  Event, put, IsBus, Progress, Progress-then, Progress-stop, send_byte-Progress,
  write_addr-Progress, address,
}

-- The bytes of a write that are not its last.
abbrev pub bytes_before : List ℕ → List Event
bytes_before bs = map (λ b. put (b % 256) 0x10) bs

-- STOP comes with the last byte where the lowest bit of the flag asks for it.
abbrev pub last_byte : ℕ → ℕ → Event
last_byte stop b = put (b % 256) (0x10 + stop % 2 * 0x40)

pub insert_stop-value : (stop : ℕ) → insert_stop stop ≡ stop % 2 * 0x40
insert_stop-value stop = omega (arith, bit_and-mask 1 0 stop)

stop-write :
    (stop : ℕ)
    → (bit_or cmd_write (insert_stop stop) ≡ 0x10 + stop % 2 * 0x40)
      × ((bit_and (bit_or cmd_write (insert_stop stop)) cmd_read == 0) ≡ true)
stop-write stop =
    let flag : insert_stop stop ≡ stop % 2 * 64 = insert_stop-value stop in
    elim (flags (stop % 2) (omega arith)) [
      | inl z ↦ rw (flag, z) (refl, refl)
      | inr o ↦ rw (flag, o) (refl, refl)
    ]
  where
    flags : (x : ℕ) → x ≤ 1 → (x ≡ 0) ⊎ (x ≡ 1)
    flags x small = ground arith

more : (bs : List ℕ) (b : ℕ) → is_empty (bs ++ (b ∷ [])) ≡ false
more [] b = refl
more (x ∷ xs) b = refl

module _ (hardware : Hardware) (laws : IsBus hardware) where
  open hardware use {regs}

  write_bytes-sends :
      (fuel stop : ℕ) (bs : List ℕ) (b : ℕ) (s : regs.State)
      → Passes hardware fuel
      → (o : Outcome) × (after : regs.State) × (write_bytes hardware fuel stop (bs ++ (b ∷ [])) s
          ≡ some (o, after))
        × Progress hardware laws s (bytes_before bs ++ (last_byte stop b ∷ [])) (ret o) after
  unfolding write_bytes
  write_bytes-sends fuel stop [] b s passes =
      let (cmd, writes) = stop-write stop in
      let (o, after, sends, moved) =
        send_byte-Progress hardware laws fuel b (bit_or cmd_write (insert_stop stop)) s passes
          writes in
      let moved' : Progress hardware laws s (last_byte stop b ∷ []) (ret o) after =
        subst (λ (x : ℕ). Progress hardware laws s (put (b % 256) x ∷ []) (ret o) after) cmd
          moved in
      ended o after sends moved'
    where
      ended :
          (o : Outcome) (after : regs.State)
          → send_byte hardware fuel b (bit_or cmd_write (insert_stop stop)) s ≡ some (o, after)
          → Progress hardware laws s (last_byte stop b ∷ []) (ret o) after
          → (o : Outcome) × (after : regs.State) × (write_bytes hardware fuel stop (b ∷ []) s
              ≡ some (o, after))
            × Progress hardware laws s (last_byte stop b ∷ []) (ret o) after
      ended acked after sends moved = (acked, after, rw (sends) refl, moved)
      ended nacked after sends moved = (nacked, after, rw (sends) refl, moved)
      ended timed_out after sends moved = (timed_out, after, rw (sends) refl, moved)
  write_bytes-sends fuel stop (x ∷ xs) b s passes =
      let (o, s1, sends, moved) = send_byte-Progress hardware laws fuel x cmd_write s passes refl in
      goes o s1 sends moved (write_bytes-sends fuel stop xs b s1 passes)
    where
      rest : List Event
      rest = bytes_before xs ++ (last_byte stop b ∷ [])

      goes :
          (o : Outcome) (s1 : regs.State)
          → send_byte hardware fuel x cmd_write s ≡ some (o, s1)
          → Progress hardware laws s (put (x % 256) 0x10 ∷ []) (ret o) s1
          → ((o' : Outcome) × (after : regs.State) × (write_bytes hardware fuel stop
                  (xs ++ (b ∷ []))
                  s1
                ≡ some (o', after))
              × Progress hardware laws s1 rest (ret o') after)
          → (o' : Outcome) × (after : regs.State) × (write_bytes hardware fuel stop
                (x ∷ (xs ++ (b ∷ [])))
                s
              ≡ some (o', after))
            × Progress hardware laws s (put (x % 256) 0x10 ∷ rest) (ret o') after
      goes acked s1 sends moved (o', after, later, moved') =
          (o', after, rw (more xs b, sends) later, Progress-then hardware laws moved moved')
      goes nacked s1 sends moved later =
          (nacked, s1, rw (more xs b, sends) refl, Progress-stop hardware laws rest refl moved)
      goes timed_out s1 sends moved later =
          (timed_out, s1, rw (more xs b, sends) refl, Progress-stop hardware laws rest refl moved)

  -- Where the controller has been started, keeps the byte to send, and the time passes within
  -- the fuel, a write of one byte or more ends, whatever the device at the address does. It
  -- returns 0 or -1. What the controller is told is the start of: the address with the bit of a
  -- write and START, each byte but the last, and the last one, with STOP where it is asked for.
  -- Where the result is 0 it is told all of this.
  pub write-sends :
      (fuel addr stop : ℕ) (bs : List ℕ) (b : ℕ) (u : I2c hardware)
      → Passes hardware fuel
      → u.init_done ≢ 0
      → (r : ℕ) × (after : regs.State) × (write hardware fuel addr (bs ++ (b ∷ [])) stop u
          ≡ some (r, record u { io = after }))
        × Progress hardware laws
            (u.io)
            (address addr 0 ∷ (bytes_before bs ++ (last_byte stop b ∷ [])))
            r
            after
  unfolding write
  write-sends fuel addr stop bs b u passes started =
      let test : (u.init_done == 0) ≡ false = ground (arith, started) in
      let (o, s1, sends, moved) =
        write_addr-Progress hardware laws fuel addr 0 u.io passes (inl refl) in
      goes test o s1 sends moved (write_bytes-sends fuel stop bs b s1 passes)
    where
      rest : List Event
      rest = bytes_before bs ++ (last_byte stop b ∷ [])

      goes :
          (u.init_done == 0) ≡ false
          → (o : Outcome) (s1 : regs.State) → write_addr hardware fuel addr 0 u.io ≡ some (o, s1)
          → Progress hardware laws (u.io) (address addr 0 ∷ []) (ret o) s1
          → ((o' : Outcome) × (after : regs.State) × (write_bytes hardware fuel stop
                  (bs ++ (b ∷ []))
                  s1
                ≡ some (o', after))
              × Progress hardware laws s1 rest (ret o') after)
          → (r : ℕ) × (after : regs.State) × (write hardware fuel addr (bs ++ (b ∷ [])) stop u
              ≡ some (r, record u { io = after }))
            × Progress hardware laws (u.io) (address addr 0 ∷ rest) r after
      goes test acked s1 sends moved (o', after, later, moved') =
          (ret o', after, rw (test, sends, later) refl, Progress-then hardware laws moved moved')
      goes test nacked s1 sends moved later =
          (ret_err, s1, rw (test, sends) refl, Progress-stop hardware laws rest refl moved)
      goes test timed_out s1 sends moved later =
          (ret_err, s1, rw (test, sends) refl, Progress-stop hardware laws rest refl moved)
