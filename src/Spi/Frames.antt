-- ===== src/Spi/Frames.antt =====
-- One loop of a transfer of src/drivers/sifive_spi0.c: it ends, and sends its bytes in order.
use freedom_metal.Prelude.{
  ℕ, zero, suc, ◌+◌, ◌%◌, ◌≤◌, ◌<◌, ◌≡◌, ◌∙◌, refl, sym, ap, Bool, true, false, Option, none, some,
  List, [], ◌∷◌, ◌++◌, length, ◌==◌, ltb, Bool-cases, inl, inr, arith, bit_and,
}
use mathlib.Core.List.{append_assoc, append-nil}
use freedom_metal.Spi.{
  Hardware, txdata, rxdata, txdata_full, rxdata_empty, tx_byte, can_store, wait_room, wait_word,
  exchange, frames, release,
}
use freedom_metal.Spi.Quiet.{IsSpi, IsReleased, release-IsReleased}

-- The bytes that `f` gives for `n` places from `i` on.
unfoldable pub payload : (ℕ → ℕ) → ℕ → ℕ → List ℕ
payload f i zero = []
payload f i (suc n) = f i % 256 ∷ payload f (suc i) n

module _ (hardware : Hardware) where
  open hardware use {regs, tick, after_receive, time}

  unfoldable pub ticks : ℕ → regs.State → regs.State
  ticks zero s = s
  ticks (suc n) s = ticks n (tick s)

  -- The polls of rxdata, which take a word each time.
  unfoldable pub polls : ℕ → regs.State → regs.State
  polls zero s = after_receive s
  polls (suc n) s = polls n (tick (after_receive s))

  -- The transmit queue has room within fewer ticks than the fuel.
  abbrev pub Drains : ℕ → Type 0
  Drains fuel =
      (s : regs.State)
      → (n : ℕ) × (n < fuel) × ((bit_and (regs.read (ticks n s) txdata) txdata_full == 0) ≡ true)

  -- Within fewer polls than the fuel the clock gains more than METAL_SPI_RXDATA_TIMEOUT.
  abbrev pub Passes : ℕ → Type 0
  Passes fuel = (s : regs.State) → (n : ℕ) × (n < fuel) × (time s + 1 < time (polls n s))

  module _ (laws : IsSpi hardware) where
    open laws use {told}

    wait_room-ends :
        (fuel n : ℕ) (s : regs.State)
        → n < fuel
        → (bit_and (regs.read (ticks n s) txdata) txdata_full == 0) ≡ true
        → (after : regs.State) × (wait_room hardware fuel s ≡ some after) × (told after ≡ told s)
    unfolding wait_room ticks
    wait_room-ends zero n s h room = absurd (omega arith)
    wait_room-ends (suc fuel) zero s h room = (s, rw (room) refl, refl)
    wait_room-ends (suc fuel) (suc n) s h room =
        elim (Bool-cases (bit_and (regs.read s txdata) txdata_full == 0)) [
          | inl now ↦ (s, rw (now) refl, refl)
          | inr full ↦
              let (after, ends, same) = wait_room-ends fuel n (tick s) (omega arith) room in
              (after, rw (full) ends, same ∙ laws.ticked s)
        ]

    wait_word-ends :
        (fuel n endwait : ℕ) (s : regs.State)
        → n < fuel
        → endwait < time (polls n s)
        → (word : Option ℕ) × (after : regs.State) × (wait_word hardware fuel endwait s
            ≡ some (word, after))
          × (told after ≡ told s)
    unfolding wait_word polls
    wait_word-ends zero n endwait s h late = absurd (omega arith)
    wait_word-ends (suc fuel) zero endwait s h late =
        let out : ltb endwait (time (after_receive s)) ≡ true = ground (arith, late) in
        elim (Bool-cases (bit_and (regs.read s rxdata) rxdata_empty == 0)) [
          | inl here ↦ (some (regs.read s rxdata), after_receive s, rw (here) refl, laws.received s)
          | inr empty ↦ (none, after_receive s, rw (empty, out) refl, laws.received s)
        ]
    wait_word-ends (suc fuel) (suc n) endwait s h late =
        elim (Bool-cases (bit_and (regs.read s rxdata) rxdata_empty == 0)) [
          | inl here ↦ (some (regs.read s rxdata), after_receive s, rw (here) refl, laws.received s)
          | inr empty ↦ elim (Bool-cases (ltb endwait (time (after_receive s)))) [
            | inl out ↦ (none, after_receive s, rw (empty, out) refl, laws.received s)
            | inr early ↦
                let (word, after, ends, same) =
                  wait_word-ends fuel n endwait (tick (after_receive s)) (omega arith) late in
                (
                  word,
                  after,
                  rw (empty, early) ends,
                  same ∙ laws.ticked (after_receive s) ∙ laws.received s,
                )
          ]
        ]

    exchange-sends :
        (fuel byte : ℕ) (s : regs.State)
        → Drains fuel
        → Passes fuel
        → (word : Option ℕ) × (after : regs.State) × (exchange hardware fuel byte s
            ≡ some (word, after))
          × (told after ≡ told s ++ (byte % 256 ∷ []))
    unfolding exchange
    exchange-sends fuel byte s drains passes =
        let (n, h, room) = drains s in
        let (ready, free, same) = wait_room-ends fuel n s h room in
        let given : regs.State = regs.write ready txdata byte in
        let (m, h', late) = passes given in
        let (word, after, ends, kept) = wait_word-ends fuel m (time given + 1) given h' late in
        (
          word,
          after,
          rw (free) ends,
          kept ∙ laws.sent ready byte ∙ ap (λ x. x ++ (byte % 256 ∷ [])) same,
        )

    -- What a loop of at most `n` turns from `i` on leaves.
    pub record Sends (f : ℕ → ℕ) (i n : ℕ) (s : regs.State) (ok : Bool) (bytes : List ℕ)
        (after : regs.State) : Type 0 where
      pub count : ℕ
      pub within : count ≤ n
      pub appended : told after ≡ told s ++ payload f i count
      pub whole : ok ≡ true → (count ≡ n) × (length bytes ≡ n)
      pub cut : ok ≡ false → IsReleased hardware laws after

    pub frames-Sends :
        (fuel : ℕ) (f : ℕ → ℕ) (tx : Option (List ℕ)) (rx : Option ℕ) (n i : ℕ) (s : regs.State)
        → Drains fuel
        → Passes fuel
        → ((j : ℕ) → j < i + n → tx_byte tx j ≡ some (f j))
        → ((j : ℕ) → j < i + n → can_store rx j ≡ true)
        → (ok : Bool) × (bytes : List ℕ) × (after : regs.State) × (frames hardware fuel tx rx n i s
            ≡ some (ok, bytes, after))
          × Sends f i n s ok bytes after
    unfolding frames payload
    frames-Sends fuel f tx rx zero i s drains passes gives stores = (
      true,
      [],
      s,
      refl,
      record {
        count = 0;
        within = omega arith;
        appended = sym (append-nil (told s));
        whole = λ e. (refl, refl);
        cut = λ e. absurd (cc);
      },
    )
    frames-Sends fuel f tx rx (suc n) i s drains passes gives stores =
        let byte : tx_byte tx i ≡ some (f i) = gives i (omega arith) in
        let (word, s1, ends, sent) = exchange-sends fuel (f i) s drains passes in
        turn word s1 byte ends sent (stores i (omega arith)) (
          frames-Sends fuel f tx rx n (suc i) s1 drains passes (λ j h. gives j (omega (arith, h)))
            (λ j h. stores j (omega (arith, h))))
      where
        turn :
            (word : Option ℕ) (s1 : regs.State)
            → tx_byte tx i ≡ some (f i)
            → exchange hardware fuel (f i) s ≡ some (word, s1)
            → told s1 ≡ told s ++ (f i % 256 ∷ [])
            → can_store rx i ≡ true
            → ((ok : Bool) × (bytes : List ℕ) × (after : regs.State) × (frames hardware fuel tx rx n
                    (suc i)
                    s1
                  ≡ some (ok, bytes, after))
                × Sends f (suc i) n s1 ok bytes after)
            → (ok : Bool) × (bytes : List ℕ) × (after : regs.State) × (frames hardware fuel tx rx
                  (suc n)
                  i
                  s
                ≡ some (ok, bytes, after))
              × Sends f i (suc n) s ok bytes after
        turn none s1 byte ends sent room later = (
          false,
          [],
          release hardware s1,
          rw (byte, ends) refl,
          record {
            count = 1;
            within = omega arith;
            appended = (release-IsReleased hardware laws s1).1 ∙ sent;
            whole = λ e. absurd (cc);
            cut = λ e. (release-IsReleased hardware laws s1).0;
          },
        )
        turn (some w) s1 byte ends sent room (ok, bytes, after, loops, rest) = (
          ok,
          bit_and w 0xFF ∷ bytes,
          after,
          rw (byte, ends, room, loops) refl,
          record {
            count = suc rest.count;
            within = omega (arith, rest.within);
            appended =
                rest.appended
                ∙ ap (λ x. x ++ payload f (suc i) rest.count) sent
                ∙ append_assoc (told s) (f i % 256 ∷ []) (payload f (suc i) rest.count);
            whole = λ e. (ap suc (rest.whole e).0, ap suc (rest.whole e).1);
            cut = rest.cut;
          },
        )
