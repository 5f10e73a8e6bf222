-- ===== src/I2c/Bus.antt =====
-- What src/drivers/sifive_i2c0.c makes the controller do, as a list of bytes and commands.
use freedom_metal.Prelude.{
  ℕ, zero, suc, ◌+◌, ◌*◌, ◌/◌, ◌%◌, ◌≡◌, ◌≢◌, ◌∙◌, refl, sym, ap, true, some, List, [], ◌∷◌, ◌++◌,
  ◌⊎◌, inl, inr, ◌==◌, if◌then◌else◌, arith, bit_and, bit_or, Bool-cases,
}
use freedom_metal.Prelude.Fields.{bit_and-mask}
use freedom_metal.Prelude.Bits.{bit_or-zero}
use freedom_metal.Prelude.Digits.{or_by_halves}
use mathlib.Core.Path.{subst}
use mathlib.Core.List.{append_assoc, append-nil}
use freedom_metal.I2c.{
  Hardware, Reg, transmit, command, cmd_read, cmd_write, cmd_start, Outcome, acked, nacked,
  timed_out, ret, ret_ok, ret_err, insert_rw_bit, acknowledged, send_byte, write_addr,
}
use freedom_metal.I2c.Poll.{ticks, Passes, await-ends}

-- A byte sent, or a byte received, each with its command.
pub data Event : Type 0 where
  put : ℕ → ℕ → Event
  get : ℕ → Event

abbrev pub event : ℕ → ℕ → Event
event byte cmd = if bit_and cmd cmd_read == 0 then put byte cmd else get cmd

-- The byte of an address: its seven bits, above the bit that asks to read, with WRITE and START.
abbrev pub address : ℕ → ℕ → Event
address addr rw_flag = put ((addr % 128 * 2 + rw_flag) % 256) 0x90

-- A shift by one place and a lowest bit.
insert_rw_bit-address :
    (addr rw_flag : ℕ)
    → (rw_flag ≡ 0) ⊎ (rw_flag ≡ 1)
    → insert_rw_bit addr rw_flag ≡ addr % 128 * 2 + rw_flag
insert_rw_bit-address addr rw_flag flag =
    let low : bit_and addr 127 ≡ addr % 128 = omega (arith, bit_and-mask 7 0 addr) in
    let x : ℕ = addr % 128 in
    elim flag [
      | inl z ↦ rw (z, low) (bit_or-zero (x * 2) ∙ omega arith)
      | inr o ↦ rw (o, low) (omega (arith, or_by_halves (x * 2) 1, bit_or-zero (x * 2 / 2)))
    ]

module _ (hardware : Hardware) where
  open hardware use {regs, tick}

  -- What the controller has been told is known, and it keeps the byte to send.
  pub record IsBus : Type 0 where
    pub told : regs.State → List Event
    pub commanded :
        (s : regs.State) (c : ℕ)
        → told (regs.write s command c) ≡ told s ++ (event (regs.read s transmit) c ∷ [])
    pub quiet : (s : regs.State) (r : Reg) (v : ℕ) → r ≢ command → told (regs.write s r v) ≡ told s
    pub ticked : (s : regs.State) → told (tick s) ≡ told s
    pub held : (s : regs.State) (v : ℕ) → regs.read (regs.write s transmit v) transmit ≡ v % 256

  module _ (laws : IsBus) where
    open laws use {told}

    -- The controller has been told the first events of a message, and all of them where `ret` is 0.
    pub record Progress (before : regs.State) (message : List Event) (r : ℕ) (after : regs.State)
        : Type 0 where
      pub done : List Event
      pub left : List Event
      pub split : message ≡ done ++ left
      pub appended : told after ≡ told before ++ done
      pub verdict : ((r ≡ ret_ok) × (left ≡ [])) ⊎ (r ≡ ret_err)

    pub ticks-told : (n : ℕ) (s : regs.State) → told (ticks hardware n s) ≡ told s
    unfolding ticks
    ticks-told zero s = refl
    ticks-told (suc n) s = ticks-told n (tick s) ∙ laws.ticked s

    pub Progress-then :
        {s s1 s2 : regs.State} {m1 m2 : List Event} {r : ℕ}
        → Progress s m1 ret_ok s1
        → Progress s1 m2 r s2
        → Progress s (m1 ++ m2) r s2
    Progress-then {s} {s1} {s2} {m1} {m2} first second = elim (first.verdict) [
      | inl (ok, all) ↦
          let whole : m1 ≡ first.done =
            first.split ∙ ap (λ x. first.done ++ x) all ∙ append-nil first.done in
          record {
            done = m1 ++ second.done;
            left = second.left;
            split = ap (λ x. m1 ++ x) second.split ∙ sym (append_assoc m1 second.done second.left);
            appended =
                second.appended
                ∙ ap (λ x. x ++ second.done) (first.appended ∙ ap (λ x. told s ++ x) (sym whole))
                ∙ append_assoc (told s) m1 second.done;
            verdict = second.verdict;
          }
      | inr e ↦ absurd (omega (arith, e))
    ]

    pub Progress-stop :
        {s s1 : regs.State} {m1 : List Event} {r : ℕ} (m2 : List Event)
        → r ≡ ret_err
        → Progress s m1 r s1
        → Progress s (m1 ++ m2) r s1
    Progress-stop {s} {s1} {m1} m2 failed first = record {
      done = first.done;
      left = first.left ++ m2;
      split = ap (λ x. x ++ m2) first.split ∙ append_assoc first.done first.left m2;
      appended = first.appended;
      verdict = inr failed;
    }

    pub Progress-idle :
        {s s1 : regs.State} {r : ℕ}
        → told s1 ≡ told s
        → (r ≡ ret_ok) ⊎ (r ≡ ret_err)
        → Progress s [] r s1
    Progress-idle {s} same either = record {
      done = [];
      left = [];
      split = refl;
      appended = same ∙ sym (append-nil (told s));
      verdict = elim either [ inl ok ↦ inl (ok, refl) | inr err ↦ inr err ];
    }

    -- A command, told to the controller, and the end of its transfer.
    pub command-Progress :
        (fuel : ℕ) (s : regs.State) (c r : ℕ) (k : ℕ)
        → (r ≡ ret_ok) ⊎ (r ≡ ret_err)
        → Progress s
            (event (regs.read s transmit) c ∷ [])
            r
            (ticks hardware k (regs.write s command c))
    command-Progress fuel s c r k either = record {
      done = event (regs.read s transmit) c ∷ [];
      left = [];
      split = refl;
      appended = ticks-told k (regs.write s command c) ∙ laws.commanded s c;
      verdict = elim either [ inl ok ↦ inl (ok, refl) | inr err ↦ inr err ];
    }

    ret-cases : (o : Outcome) → (ret o ≡ ret_ok) ⊎ (ret o ≡ ret_err)
    ret-cases acked = inl refl
    ret-cases nacked = inr refl
    ret-cases timed_out = inr refl

    pub send_byte-Progress :
        (fuel byte cmd : ℕ) (s : regs.State)
        → Passes hardware fuel
        → (bit_and cmd cmd_read == 0) ≡ true
        → (o : Outcome) × (after : regs.State) × (send_byte hardware fuel byte cmd s
            ≡ some (o, after))
          × Progress s (put (byte % 256) cmd ∷ []) (ret o) after
    unfolding send_byte
    send_byte-Progress fuel byte cmd s passes writes =
        let s1 : regs.State = regs.write s transmit byte in
        let (k, done, ends, over) = await-ends hardware fuel (regs.write s1 command cmd) passes in
        let s2 : regs.State = ticks hardware k (regs.write s1 command cmd) in
        let o : Outcome = acknowledged hardware done s2 in
        let sent : event (regs.read s1 transmit) cmd ≡ put (byte % 256) cmd =
          rw (writes) (ap (λ (x : ℕ). put x cmd) (laws.held s byte)) in
        let moved : Progress s1 (event (regs.read s1 transmit) cmd ∷ []) (ret o) s2 =
          command-Progress fuel s1 cmd (ret o) k (ret-cases o) in
        (
          o,
          s2,
          rw (ends) refl,
          record {
            done = moved.done;
            left = moved.left;
            split = ap (λ x. x ∷ []) (sym sent) ∙ moved.split;
            appended =
                moved.appended ∙ ap (λ x. x ++ moved.done) (laws.quiet s transmit byte (λ e. cc));
            verdict = moved.verdict;
          },
        )

    pub write_addr-Progress :
        (fuel addr rw_flag : ℕ) (s : regs.State)
        → Passes hardware fuel
        → (rw_flag ≡ 0) ⊎ (rw_flag ≡ 1)
        → (o : Outcome) × (after : regs.State) × (write_addr hardware fuel addr rw_flag s
            ≡ some (o, after))
          × Progress s (address addr rw_flag ∷ []) (ret o) after
    unfolding write_addr
    write_addr-Progress fuel addr rw_flag s passes small =
        let (k, idle, ends, over) = await-ends hardware fuel s passes in
        let s1 : regs.State = ticks hardware k s in
        elim (Bool-cases idle) [
          | inr busy ↦ (
            timed_out,
            s1,
            rw (ends, busy) refl,
            Progress-stop (address addr rw_flag ∷ []) refl
                (Progress-idle (ticks-told k s) (inr refl)),
          )
          | inl free ↦
              let (o, after, sends, moved) =
                send_byte-Progress fuel (insert_rw_bit addr rw_flag) (bit_or cmd_write cmd_start) s1
                  passes refl in
              (
                o,
                after,
                rw (ends, free) sends,
                Progress-then (Progress-idle (ticks-told k s) (inl refl)) (
                    subst (λ (x : ℕ). Progress s1 (put (x % 256) 0x90 ∷ []) (ret o) after)
                      (insert_rw_bit-address addr rw_flag small) moved),
              )
        ]
