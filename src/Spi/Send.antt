-- ===== src/Spi/Send.antt =====
-- metal_spi_transfer of src/drivers/sifive_spi0.c as a whole.
use freedom_metal.Prelude.{
  ℕ, zero, suc, ◌+◌, ◌-◌, ◌%◌, ◌^◌, ◌≤◌, ◌<◌, ◌≡◌, ◌∙◌, refl, sym, ap, true, false, Option, some,
  List, [], ◌∷◌, ◌++◌, length, Bool-cases, ◌⊎◌, inl, inr, arith, max,
}
use mathlib.Core.List.{append_assoc, append-nil}
use mathlib.Core.Bool.{true≢false}
use native.Mathlib.Nat.{mod-eq_of_lt, zero-add, add-zero, suc-add, add-suc}
use freedom_metal.Spi.{
  Hardware, Config, MultiWire, addr_data, data_only, csmode, csmode_mask, csmode_hold, tx_byte,
  can_store, put_bits, is_known, configure_spi, release,
}
use freedom_metal.Spi.Frames.{payload, Drains, Passes, frames-Sends}
use freedom_metal.Spi.Quiet.{
  IsSpi, IsReleased, release-IsReleased, configure_spi-told, put_bits-told, spi_mode_switch-told,
}
use freedom_metal.Spi.Transfer.{Run, loop, switched, finish, begin, stages, transfer}

payload-append :
    (f : ℕ → ℕ) (i a b : ℕ) → payload f i (a + b) ≡ payload f i a ++ payload f (i + a) b
unfolding payload
payload-append f i zero b = rw (zero-add, add-zero) refl
payload-append f i (suc a) b =
    rw (suc-add, add-suc)
      (ap (λ x. f i % 256 ∷ x) (payload-append f (suc i) a b ∙ rw (suc-add) refl))

length-append : (xs ys : List ℕ) → length (xs ++ ys) ≡ length xs + length ys
length-append [] ys = omega arith
length-append (x ∷ xs) ys = omega (arith, length-append xs ys)

module _ (hardware : Hardware) (laws : IsSpi hardware) where
  open hardware use {regs}
  open laws use {told}

  -- The first `count` bytes are sent; all up to `at` where no loop was cut off.
  record IsRun (f : ℕ → ℕ) (len : ℕ) (s : regs.State) (run : Run hardware) : Type 0 where
    count : ℕ
    within : count ≤ len
    appended : told run.io ≡ told s ++ payload f 0 count
    whole : run.ok ≡ true → (count ≡ run.at) × (length run.bytes ≡ run.at)
    cut : run.ok ≡ false → IsReleased hardware laws run.io

  loop-IsRun :
      (fuel : ℕ) (f : ℕ → ℕ) (tx : Option (List ℕ)) (rx : Option ℕ) (len bound : ℕ) (s : regs.State)
      (run : Run hardware)
      → Drains hardware fuel
      → Passes hardware fuel
      → ((j : ℕ) → j < len → tx_byte tx j ≡ some (f j))
      → ((j : ℕ) → j < len → can_store rx j ≡ true)
      → bound ≤ len
      → run.at ≤ bound
      → IsRun f len s run
      → (after : Run hardware) × (loop hardware fuel tx rx bound run ≡ some after)
        × IsRun f len s after
        × (after.ok ≡ true → after.at ≡ bound)
        × (after.at ≤ bound)
  unfolding loop
  loop-IsRun fuel f tx rx len bound s run drains passes gives stores inside from is =
      elim (Bool-cases (run.ok)) [
        | inr stopped ↦
            (run, rw (stopped) refl, is, λ e. absurd (true≢false (sym e ∙ stopped)), from)
        | inl going ↦
            let n : ℕ = bound - run.at in
            let (ok, more, after, loops, sends) =
              frames-Sends hardware laws fuel f tx rx n run.at run.io drains passes
                (λ j h. gives j (omega (arith, h, inside, from)))
                (λ j h. stores j (omega (arith, h, inside, from))) in
            let (counted, stored) = is.whole going in
            let reached : max run.at bound ≡ bound = omega (arith, from) in
            let next : payload f (0 + is.count) sends.count ≡ payload f run.at sends.count =
              ap (λ (x : ℕ). payload f x sends.count) (omega (arith, counted)) in
            (
              record { ok = ok; at = max run.at bound; bytes = run.bytes ++ more; io = after },
              rw (going, loops) refl,
              record {
                count = is.count + sends.count;
                within = omega (arith, sends.within, counted, inside, from);
                appended =
                    sends.appended
                    ∙ ap (λ x. x ++ payload f run.at sends.count) is.appended
                    ∙ append_assoc (told s) (payload f 0 is.count) (payload f run.at sends.count)
                    ∙ ap (λ x. told s ++ x)
                        (ap (λ x. payload f 0 is.count ++ x) (sym next)
                          ∙ sym (payload-append f 0 is.count sends.count));
                whole = λ e. (
                  omega (arith, (sends.whole e).0, counted, from),
                  omega (arith, (sends.whole e).1, stored, from, length-append run.bytes more),
                );
                cut = sends.cut;
              },
              λ e. reached,
              omega (arith, from),
            )
      ]

  switched-IsRun :
      (f : ℕ → ℕ) (len : ℕ) (c : Config) (stage : MultiWire) (s : regs.State) (run : Run hardware)
      → IsRun f len s run
      → IsRun f len s (switched hardware c stage run)
        × ((switched hardware c stage run).ok ≡ run.ok)
        × ((switched hardware c stage run).at ≡ run.at)
  unfolding switched
  switched-IsRun f len c stage s run is = elim (Bool-cases (run.ok)) [
    | inr stopped ↦ rw (stopped) (
      record {
        count = is.count;
        within = is.within;
        appended = is.appended;
        whole = λ e. absurd (true≢false (sym e));
        cut = λ e. is.cut stopped;
      },
      refl,
      refl,
    )
    | inl going ↦ rw (going) (
      record {
        count = is.count;
        within = is.within;
        appended = spi_mode_switch-told hardware laws c stage run.io ∙ is.appended;
        whole = λ e. is.whole going;
        cut = λ e. absurd (true≢false e);
      },
      refl,
      refl,
    )
  ]

  -- The frames of the command, the address and the dummy, which the data are to cover.
  abbrev pub Fits : Config → ℕ → Type 0
  Fits c len =
      (c.cmd_num + c.addr_num + c.dummy_num ≤ len) × (c.cmd_num + c.addr_num + c.dummy_num < 2 ^ 32)

  begin-IsRun : (f : ℕ → ℕ) (len : ℕ) (s : regs.State) → IsRun f len s (begin hardware s)
  unfolding payload
  begin-IsRun f len s = record {
    count = 0;
    within = omega arith;
    appended = sym (append-nil (told s));
    whole = λ e. (refl, refl);
    cut = λ e. absurd (true≢false e);
  }

  stages-IsRun :
      (fuel : ℕ) (f : ℕ → ℕ) (c : Config) (len : ℕ) (tx : Option (List ℕ)) (rx : Option ℕ)
      (s : regs.State)
      → Drains hardware fuel
      → Passes hardware fuel
      → ((j : ℕ) → j < len → tx_byte tx j ≡ some (f j))
      → ((j : ℕ) → j < len → can_store rx j ≡ true)
      → Fits c len
      → (after : Run hardware) × (stages hardware fuel c len tx rx s ≡ some after)
        × IsRun f len s after
        × (after.ok ≡ true → after.at ≡ len)
  unfolding stages
  stages-IsRun fuel f c len tx rx s drains passes gives stores (covers, narrow) =
      let word2 : (c.cmd_num + c.addr_num) % 2 ^ 32 ≡ c.cmd_num + c.addr_num =
        mod-eq_of_lt (omega (arith, narrow)) in
      let word3 : (c.cmd_num + c.addr_num + c.dummy_num) % 2 ^ 32
          ≡ c.cmd_num + c.addr_num + c.dummy_num =
        mod-eq_of_lt narrow in
      let (r1, e1, is1, at1, low1) =
        loop-IsRun fuel f tx rx len c.cmd_num s (begin hardware s) drains passes gives stores
          (omega (arith, covers)) (omega arith) (begin-IsRun f len s) in
      let (is1', ok1, same1) = switched-IsRun f len c addr_data s r1 is1 in
      let (r2, e2, is2, at2, low2) =
        loop-IsRun fuel f tx rx len ((c.cmd_num + c.addr_num) % 2 ^ 32) s
          (switched hardware c addr_data r1) drains passes gives stores
          (omega (arith, word2, covers)) (omega (arith, word2, same1, low1)) is1' in
      let (r3, e3, is3, at3, low3) =
        loop-IsRun fuel f tx rx len ((c.cmd_num + c.addr_num + c.dummy_num) % 2 ^ 32) s r2 drains
          passes gives stores (omega (arith, word3, covers)) (omega (arith, word2, word3, low2))
          is2 in
      let (is3', ok3, same3) = switched-IsRun f len c data_only s r3 is3 in
      let (r4, e4, is4, at4, low4) =
        loop-IsRun fuel f tx rx len len s (switched hardware c data_only r3) drains passes gives
          stores (omega arith) (omega (arith, word3, covers, same3, low3)) is3' in
      (r4, rw (e1, e2, e3) e4, is4, at4)

  finish-Sends :
      (f : ℕ → ℕ) (len : ℕ) (s : regs.State) (run : Run hardware)
      → IsRun f len s run
      → (run.ok ≡ true → run.at ≡ len)
      → (r : ℕ) × (bytes : List ℕ) × (after : regs.State) × (count : ℕ) × (finish hardware run
          ≡ (r, bytes, after))
        × (count ≤ len)
        × (told after ≡ told s ++ payload f 0 count)
        × IsReleased hardware laws after
        × (((r ≡ 0) × (count ≡ len) × (length bytes ≡ len)) ⊎ (r ≡ 1))
  unfolding finish
  finish-Sends f len s run is end = elim (Bool-cases (run.ok)) [
    | inr stopped ↦ (
      1,
      run.bytes,
      run.io,
      is.count,
      rw (stopped) refl,
      is.within,
      is.appended,
      is.cut stopped,
      inr refl,
    )
    | inl going ↦ (
      0,
      run.bytes,
      release hardware run.io,
      is.count,
      rw (going) refl,
      is.within,
      (release-IsReleased hardware laws run.io).1 ∙ is.appended,
      (release-IsReleased hardware laws run.io).0,
      inl (refl, (is.whole going).0 ∙ end going, (is.whole going).1 ∙ end going),
    )
  ]

  -- Where the protocol is one of the enumeration, the buffers cover the length and the length
  -- the command, address and dummy frames, the transmit queue drains and the time passes within
  -- the fuel, and csmode holds what is written, a transfer ends. It returns 0 or 1, has sent the
  -- bytes of the buffer in order up to some length, and leaves the chip select in its automatic
  -- mode. Where the result is 0 it has sent all and received as many.
  pub transfer-sends :
      (fuel : ℕ) (f : ℕ → ℕ) (c : Config) (len : ℕ) (tx : Option (List ℕ)) (rx : Option ℕ)
      (s : regs.State)
      → is_known c.protocol ≡ true
      → Drains hardware fuel
      → Passes hardware fuel
      → ((j : ℕ) → j < len → tx_byte tx j ≡ some (f j))
      → ((j : ℕ) → j < len → can_store rx j ≡ true)
      → Fits c len
      → (r : ℕ) × (bytes : List ℕ) × (after : regs.State) × (count : ℕ) × (transfer hardware fuel c
            len tx rx s
          ≡ some (r, bytes, after))
        × (count ≤ len)
        × (told after ≡ told s ++ payload f 0 count)
        × IsReleased hardware laws after
        × (((r ≡ 0) × (count ≡ len) × (length bytes ≡ len)) ⊎ (r ≡ 1))
  unfolding transfer
  transfer-sends fuel f c len tx rx s known drains passes gives stores fits =
      let (accepted, quiet) = configure_spi-told hardware laws c s known in
      let s0 : regs.State = (configure_spi hardware c s).1 in
      let held : regs.State = put_bits hardware s0 csmode csmode_mask csmode_hold in
      let same : told held ≡ told s =
        put_bits-told hardware laws s0 csmode csmode_mask csmode_hold (λ e. cc) ∙ quiet in
      let (run, ends, is, at) =
        stages-IsRun fuel f c len tx rx held drains passes gives stores fits in
      let (r, bytes, after, count, finishes, within, appended, released, whole) =
        finish-Sends f len held run is at in
      (
        r,
        bytes,
        after,
        count,
        rw (accepted, ends, finishes) refl,
        within,
        appended ∙ ap (λ x. x ++ payload f 0 count) same,
        released,
        whole,
      )
