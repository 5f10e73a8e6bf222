-- ===== src/Hpm/Read.antt =====
-- metal_hpm_read_counter of src/hpm.c on a counter that runs.
use freedom_metal.Prelude.{
  ℕ, ◌≤◌, ◌≡◌, ◌≢◌, Bool, true, false, arith, some, ◌==◌, ◌||◌, refl, if◌then◌else◌,
}
use freedom_metal.Prelude.Split.{read_split, IsSplit, read_split-moment}
use freedom_metal.Hpm.{
  Chip, Csr, mcycle, mcycleh, minstret, minstreth, mhpmcounter, mhpmcounterh, Hart, read_counter,
  read_pair, rejects, has_case,
}

-- The two words of a counter.
abbrev pub high_word : ℕ → Csr
high_word counter =
    if counter == 0 then mcycleh else if counter == 2 then minstreth else mhpmcounterh counter

abbrev pub low_word : ℕ → Csr
low_word counter =
    if counter == 0 then mcycle else if counter == 2 then minstret else mhpmcounter counter

module _ (chip : Chip) where
  open chip use {csrs, tick}

  abbrev pub Counts : ℕ → (csrs.State → ℕ) → Type 0
  Counts counter count =
      IsSplit (λ (s : csrs.State). csrs.read s (high_word counter))
        (λ (s : csrs.State). csrs.read s (low_word counter)) tick count

  read_pair-value :
      (fuel value : ℕ) (high low : Csr) (h : Hart chip) (end : csrs.State)
      → read_split
          (λ (s : csrs.State). csrs.read s high)
          (λ (s : csrs.State). csrs.read s low)
          tick
          fuel
          h.io
        ≡ some (value, end)
      → read_pair chip fuel high low h ≡ some (value, record h { io = end })
  unfolding read_pair
  read_pair-value fuel value high low h end e = rw (e, read_pair) refl

  -- On RV32, for a counter other than the time that is not refused, of 64 bits, never backwards
  -- and advancing by less than 2 ^ 28 in one access, metal_hpm_read_counter ends within two
  -- rounds, and the 64 bits that it returns are the value of the counter at one moment between
  -- the start and the end of the call.
  pub read_counter-moment :
      (fuel counter : ℕ) (gcpu : Bool) (h : Hart chip) (count : csrs.State → ℕ)
      → Counts counter count
      → rejects chip gcpu counter h ≡ false
      → counter ≢ 1
      → counter ≤ 31
      → 2 ≤ fuel
      → (now : csrs.State) × (end : csrs.State) × (read_counter chip fuel gcpu counter h
          ≡ some (count now, record h { io = end }))
        × (count h.io ≤ count now)
        × (count now ≤ count end)
  unfolding read_counter
  read_counter-moment fuel counter gcpu h count laws allowed timer known enough =
      let (now, end, reads, later, last) =
        read_split-moment (λ (s : csrs.State). csrs.read s (high_word counter))
          (λ (s : csrs.State). csrs.read s (low_word counter)) tick count laws fuel h.io enough in
      let pair : read_pair chip fuel (high_word counter) (low_word counter) h
          ≡ some (count now, record h { io = end }) =
        read_pair-value fuel (count now) (high_word counter) (low_word counter) h end reads in
      let cases : (counter == 0) || ((counter == 2) || has_case chip counter) ≡ true =
        unfold has_case in (ground arith) in
      let not_time : (counter == 1) ≡ false = ground arith in
      (now, end, ground (arith, pair, cases, not_time, allowed), later, last)
