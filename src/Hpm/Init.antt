-- ===== src/Hpm/Init.antt =====
-- metal_hpm_init of src/hpm.c: which counters it finds.
use freedom_metal.Prelude.{
  ℕ, zero, suc, ◌+◌, ◌≤◌, ◌<◌, ◌≡◌, ◌≢◌, ◌⊎◌, ◌∙◌, true, false, arith, inl, inr, Bool-cases, leb,
  ◌==◌, refl, bit_and, bit_or, sym, ap, ==_iff,
}
use freedom_metal.Prelude.Bits.{complement, bit_and-zero, zero-bit_and}
use freedom_metal.Hpm.{
  Chip, Csr, mhpmevent, mhpmcounter, mhpmcounterh, mcycle, mcycleh, minstret, minstreth, Hart,
  write_csr, rejects, has_case, set_event_reg, clr_event_reg, clr_count, set_event, get_event,
  clr_event, clear_counter, probe, clear_all, init, ret_ok, ret_nok,
}
use native.Mathlib.Decide.{dec_lt}

module _ (chip : Chip) where
  open chip use {csrs}

  -- Each event selector has the bits of its mask and no other; no other CSR changes one.
  pub record HasSelectors (mask : ℕ → ℕ) : Type 0 where
    pub selected :
        (s : csrs.State) (n v : ℕ)
        → csrs.read (csrs.write s (mhpmevent n) v) (mhpmevent n) ≡ bit_and v (mask n)
    pub others :
        (s : csrs.State) (r : Csr) (n v : ℕ)
        → r ≢ mhpmevent n
        → csrs.read (csrs.write s r v) (mhpmevent n) ≡ csrs.read s (mhpmevent n)

  -- Counter `n` can be given an event.
  abbrev pub HasEvents : (ℕ → ℕ) → ℕ → Type 0
  HasEvents mask n = bit_and 0xFFFFFFFF (mask n) ≢ 0

  module _ (mask : ℕ → ℕ) (laws : HasSelectors mask) where
    all_ones : (x : ℕ) → bit_or (bit_and x (complement 32 0xFFFFFFFF)) 0xFFFFFFFF ≡ 0xFFFFFFFF
    all_ones x = let none_kept : bit_and x 0 ≡ 0 = bit_and-zero x in rw none_kept refl

    -- A round of the search: the selector reads as the ones that it has.
    set_event-reads :
        (n : ℕ) (h : Hart chip)
        → n < h.hpm_count
        → 3 ≤ n
        → n ≤ 31
        → get_event chip true n (set_event chip true n 0xFFFFFFFF h).1 ≡ bit_and 0xFFFFFFFF (mask n)
    unfolding set_event get_event rejects has_case set_event_reg write_csr
    set_event-reads n h inside low high =
        let allowed : leb h.hpm_count n ≡ false = ground arith in
        let a : leb 3 n ≡ true = ground arith in
        let b : leb n 31 ≡ true = ground arith in
        rw (allowed, a, b, allowed)
          (laws.selected h.io n _ ∙ ap (λ (x : ℕ). bit_and x (mask n)) (all_ones _))

    set_event-hpm_count :
        (n v : ℕ) (h : Hart chip) → (set_event chip true n v h).1.hpm_count ≡ h.hpm_count
    unfolding set_event set_event_reg write_csr
    set_event-hpm_count n v h = elim (Bool-cases (rejects chip true n h)) [
      | inl refused ↦ rw (refused) refl
      | inr allowed ↦ rw (allowed) (elim (Bool-cases (has_case chip n)) [
        | inl has ↦ rw (has) refl
        | inr has_not ↦ rw (has_not) refl
      ])
    ]

    probe-found :
        (left n k : ℕ) (h : Hart chip)
        → h.hpm_count ≡ 32
        → 3 ≤ n
        → n + left ≡ 31
        → n ≤ k
        → k ≤ 31
        → ((i : ℕ) → n ≤ i → i < k → HasEvents mask i)
        → (k ≡ 31) ⊎ (bit_and 0xFFFFFFFF (mask k) ≡ 0)
        → ((probe chip left n h).0 ≡ k) × ((probe chip left n h).1.hpm_count ≡ 32)
    unfolding probe
    probe-found zero n k h c lo sum below top has stop = (omega arith, c)
    probe-found (suc left) n k h c lo sum below top has stop =
        let written : Hart chip = (set_event chip true n 0xFFFFFFFF h).1 in
        let c' : written.hpm_count ≡ 32 = set_event-hpm_count n 0xFFFFFFFF h ∙ c in
        let reads : get_event chip true n written ≡ bit_and 0xFFFFFFFF (mask n) =
          set_event-reads n h (omega (arith, c)) lo (omega arith) in
        elim (Bool-cases (get_event chip true n written == 0)) [
          | inl ends ↦
              let no_event : bit_and 0xFFFFFFFF (mask n) ≡ 0 = sym reads ∙ (==_iff _ _).0 ends in
              elim (dec_lt n k) [
                | yes before ↦ absurd (has n (omega arith) before no_event)
                | no not_before ↦ rw (ends) (omega arith, c')
              ]
          | inr goes_on ↦
              let event : HasEvents mask n =
                λ none_there. absurd (ground (arith, reads, none_there)) in
              let before : n < k = elim stop [
                | inl last ↦ omega arith
                | inr stops ↦ elim (dec_lt n k) [
                  | yes l ↦ l
                  | no not_l ↦
                      let same : n ≡ k = omega arith in
                      absurd (event (ap (λ (x : ℕ). bit_and 0xFFFFFFFF (mask x)) same ∙ stops))
                ]
              ] in
              rw (goes_on) (
                probe-found left (n + 1) k written c' (omega arith) (omega arith) (omega arith) top
                  (λ j above under. has j (omega arith) under) stop)
        ]

    -- What a round of the second loop does to the event selectors.
    clr_count-event :
        (high low : Csr) (n : ℕ) (h : Hart chip)
        → high ≢ mhpmevent n
        → low ≢ mhpmevent n
        → csrs.read (clr_count chip high low h).io (mhpmevent n) ≡ csrs.read h.io (mhpmevent n)
    unfolding clr_count write_csr
    clr_count-event high low n h a b =
        laws.others _ high n 0 a ∙ laws.others _ low n 0 b ∙ laws.others _ high n 0 a

    clear_counter-event :
        (i n : ℕ) (h : Hart chip)
        → csrs.read (clear_counter chip true i h).1.io (mhpmevent n) ≡ csrs.read h.io (mhpmevent n)
    unfolding clear_counter
    clear_counter-event i n h = ground (
      arith,
      clr_count-event mcycleh mcycle n h (λ e. cc) (λ e. cc),
      clr_count-event minstreth minstret n h (λ e. cc) (λ e. cc),
      clr_count-event (mhpmcounterh i) (mhpmcounter i) n h (λ e. cc) (λ e. cc),
    )

    clear_counter-hpm_count :
        (i : ℕ) (h : Hart chip) → (clear_counter chip true i h).1.hpm_count ≡ h.hpm_count
    unfolding clear_counter clr_count write_csr
    clear_counter-hpm_count i h = ground arith

    clr_event-hpm_count :
        (i v : ℕ) (h : Hart chip) → (clr_event chip true i v h).1.hpm_count ≡ h.hpm_count
    unfolding clr_event clr_event_reg write_csr
    clr_event-hpm_count i v h = ground arith

    clr_event-cleared :
        (n : ℕ) (h : Hart chip)
        → n < h.hpm_count
        → 3 ≤ n
        → n ≤ 31
        → csrs.read (clr_event chip true n 0xFFFFFFFF h).1.io (mhpmevent n) ≡ 0
    unfolding clr_event clr_event_reg write_csr rejects has_case
    clr_event-cleared n h inside low high =
        let allowed : leb h.hpm_count n ≡ false = ground arith in
        let a : leb 3 n ≡ true = ground arith in
        let b : leb n 31 ≡ true = ground arith in
        let none_kept : bit_and (csrs.read h.io (mhpmevent n)) 0 ≡ 0 = bit_and-zero _ in
        rw (allowed, a, b)
          (laws.selected h.io n _ ∙ ap (λ (x : ℕ). bit_and x (mask n)) none_kept ∙ zero-bit_and _)

    clr_event-other :
        (i n : ℕ) (h : Hart chip)
        → i ≢ n
        → csrs.read (clr_event chip true i 0xFFFFFFFF h).1.io (mhpmevent n)
          ≡ csrs.read h.io (mhpmevent n)
    unfolding clr_event clr_event_reg write_csr
    clr_event-other i n h differ = ground (
      arith,
      laws.others h.io (mhpmevent i) n
          (bit_and (csrs.read h.io (mhpmevent i)) (complement 32 0xFFFFFFFF)) (λ e. differ cc),
    )

    clear_all-hpm_count :
        (left i : ℕ) (h : Hart chip) → (clear_all chip left i h).hpm_count ≡ h.hpm_count
    unfolding clear_all
    clear_all-hpm_count zero i h = refl
    clear_all-hpm_count (suc left) i h =
        clear_all-hpm_count left (i + 1) _ ∙ clear_counter-hpm_count i _ ∙ clr_event-hpm_count i _ h

    clear_all-kept :
        (left i n : ℕ) (h : Hart chip)
        → n < i
        → csrs.read (clear_all chip left i h).io (mhpmevent n) ≡ csrs.read h.io (mhpmevent n)
    unfolding clear_all
    clear_all-kept zero i n h past = refl
    clear_all-kept (suc left) i n h past =
        clear_all-kept left (i + 1) n _ (omega arith)
        ∙ clear_counter-event i n _
        ∙ clr_event-other i n h (λ e. absurd (omega (arith, e)))

    clear_all-cleared :
        (left i n : ℕ) (h : Hart chip)
        → i ≤ n
        → n < i + left
        → i + left ≤ h.hpm_count
        → 3 ≤ n
        → n ≤ 31
        → csrs.read (clear_all chip left i h).io (mhpmevent n) ≡ 0
    unfolding clear_all
    clear_all-cleared zero i n h from to within low high = absurd (omega arith)
    clear_all-cleared (suc left) i n h from to within low high =
        let cleared : Hart chip = (clr_event chip true i 0xFFFFFFFF h).1 in
        let zeroed : Hart chip = (clear_counter chip true i cleared).1 in
        let count : zeroed.hpm_count ≡ h.hpm_count =
          clear_counter-hpm_count i cleared ∙ clr_event-hpm_count i _ h in
        elim (dec_lt i n) [
          | yes later ↦
              clear_all-cleared left (i + 1) n zeroed (omega arith) (omega arith)
                (omega (arith, count)) low high
          | no not_later ↦
              let same : i ≡ n = omega arith in
              clear_all-kept left (i + 1) n zeroed (omega arith)
              ∙ clear_counter-event i n cleared
              ∙ rw same (clr_event-cleared n h (omega arith) low high)
        ]

    init-refuses : (h : Hart chip) → 1 ≤ h.hpm_count → init chip true h ≡ (ret_nok, h)
    unfolding init
    init-refuses h counted =
        let again : (h.hpm_count == 0) ≡ false = ground arith in rw (again) refl

    -- On a hart whose counters 3 up to k have event selectors that hold some bit, and counter k
    -- has none or k is 31, metal_hpm_init with no counters yet returns 0, sets hpm_count to k,
    -- leaves the event selectors of the counters 3 up to k at 0, and a second call returns 1 and
    -- changes nothing. Counter 31 is never counted.
    pub init-found :
        (k : ℕ) (h : Hart chip)
        → h.hpm_count ≡ 0
        → 3 ≤ k
        → k ≤ 31
        → ((n : ℕ) → 3 ≤ n → n < k → HasEvents mask n)
        → (k ≡ 31) ⊎ (bit_and 0xFFFFFFFF (mask k) ≡ 0)
        → ((init chip true h).0 ≡ ret_ok)
          × ((init chip true h).1.hpm_count ≡ k)
          × ((n : ℕ) → 3 ≤ n → n < k → csrs.read (init chip true h).1.io (mhpmevent n) ≡ 0)
          × (init chip true (init chip true h).1 ≡ (ret_nok, (init chip true h).1))
    unfolding init
    init-found k h fresh low high has stop =
        let all : Hart chip = record h { hpm_count = 32 } in
        let (found, kept) = probe-found 28 3 k all refl (omega arith) refl low high has stop in
        let probed : Hart chip = record ((probe chip 28 3 all).1) { hpm_count = k } in
        let first : init chip true h ≡ (ret_ok, clear_all chip k 0 probed) =
          rw (fresh, found) refl in
        let count : (init chip true h).1.hpm_count ≡ k =
          ap (λ (r : ℕ × Hart chip). r.1.hpm_count) first ∙ clear_all-hpm_count k 0 probed in
        (
          ap (λ (r : ℕ × Hart chip). r.0) first,
          count,
          λ n above below.
              ap (λ (r : ℕ × Hart chip). csrs.read r.1.io (mhpmevent n)) first
              ∙ clear_all-cleared k 0 n probed (omega arith) (omega arith) (omega arith) above
                  (omega arith),
          init-refuses (init chip true h).1 (omega (arith, count)),
        )
