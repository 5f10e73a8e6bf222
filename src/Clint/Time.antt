-- ===== src/Clint/Time.antt =====
-- The timer of src/drivers/riscv_clint0.c, and its software interrupts.
use freedom_metal.Prelude.{
  ℕ, ◌+◌, ◌*◌, ◌/◌, ◌%◌, ◌^◌, ◌≤◌, ◌<◌, ◌≡◌, ◌≢◌, Option, some, arith, refl, ap, ◌==◌, ==_iff,
  if◌then◌else◌, sym, Bool-cases, inl, inr,
}
use freedom_metal.Prelude.Split.{IsSplit, read_split-moment}
use freedom_metal.Interrupt.{
  timer_mtime_get, software_ipi_clear, software_ipi_set, software_msip_get,
}
use freedom_metal.Clint.{
  Platform, mtime_low, mtime_high, mtime_get, cmp_low, cmp_high, msip, lift_high, set_low, set_high,
  mtimecmp_set, command_request,
}

module _ (platform : Platform) where
  open platform use {regs, tick, control_base}

  -- With a timer of 64 bits that never runs backwards and advances by less than 2 ^ 28 in one
  -- access, the command METAL_TIMER_MTIME_GET with a place for the result returns 0 within two
  -- rounds of its loop, and the time stored there is that of one moment between the start and
  -- the end of the call.
  pub mtime_get-moment :
      (fuel old : ℕ) (s : regs.State) (count : regs.State → ℕ)
      → IsSplit
          (λ (s' : regs.State). regs.read s' (mtime_high platform))
          (λ (s' : regs.State). regs.read s' (mtime_low platform))
          tick
          count
      → 2 ≤ fuel
      → (now : regs.State) × (end : regs.State) × (command_request platform fuel timer_mtime_get
            (some old)
            s
          ≡ some (0, some (count now), end))
        × (count s ≤ count now)
        × (count now ≤ count end)
  unfolding command_request mtime_get
  mtime_get-moment fuel old s count laws enough =
      let (now, end, reads, later, last) =
        read_split-moment (λ (s' : regs.State). regs.read s' (mtime_high platform))
          (λ (s' : regs.State). regs.read s' (mtime_low platform)) tick count laws fuel s enough in
      (now, end, rw (reads, command_request, mtime_get) refl, later, last)

  -- Words of memory: what is written reads back and other words stay.
  pub record IsMemory : Type 0 where
    pub read_back : (s : regs.State) (a v : ℕ) → v < 2 ^ 32 → regs.read (regs.write s a v) a ≡ v
    pub write_other :
        (s : regs.State) (a b v : ℕ) → a ≢ b → regs.read (regs.write s a v) b ≡ regs.read s b
    pub fits : (s : regs.State) (a : ℕ) → regs.read s a < 2 ^ 32

  -- The comparator of a hart.
  abbrev pub comparator : ℕ → regs.State → ℕ
  comparator hartid s =
      regs.read s (cmp_high platform hartid) * 2 ^ 32 + regs.read s (cmp_low platform hartid)

  module _ (laws : IsMemory) where
    words_apart : (hartid : ℕ) → cmp_high platform hartid ≢ cmp_low platform hartid
    unfolding cmp_high cmp_low
    words_apart hartid e = absurd (omega (arith, e))

    -- On registers that hold 32-bit words, __metal_driver_riscv_clint0_mtimecmp_set takes the
    -- comparator of a hart from its old value to the time asked for, below 2 ^ 64, through three
    -- writes: after the first the comparator is not below its old value, after the second not
    -- below the new time, and after the third equal to it.
    pub mtimecmp_set-quiet :
        (hartid time : ℕ) (s : regs.State)
        → time < 2 ^ 64
        → let lifted : regs.State = lift_high platform hartid s in
          let lowered : regs.State = set_low platform hartid time lifted in
          let final : regs.State = (mtimecmp_set platform hartid time s).1 in
          (comparator hartid s ≤ comparator hartid lifted)
          × (time ≤ comparator hartid lowered)
          × (final ≡ set_high platform hartid time lowered)
          × (comparator hartid final ≡ time)
    unfolding mtimecmp_set lift_high set_low set_high
    mtimecmp_set-quiet hartid time s small =
        let h : ℕ = cmp_high platform hartid in
        let l : ℕ = cmp_low platform hartid in
        let lifted : regs.State = lift_high platform hartid s in
        let lowered : regs.State = set_low platform hartid time lifted in
        let h1 : regs.read lifted h ≡ 0xFFFFFFFF = laws.read_back s h 0xFFFFFFFF (omega arith) in
        let l1 : regs.read lifted l ≡ regs.read s l =
          laws.write_other s h l 0xFFFFFFFF (words_apart hartid) in
        let h2 : regs.read lowered h ≡ regs.read lifted h =
          laws.write_other lifted l h (time % 2 ^ 32) (λ e. words_apart hartid (sym e)) in
        let l2 : regs.read lowered l ≡ time % 2 ^ 32 =
          laws.read_back lifted l (time % 2 ^ 32) (omega arith) in
        let final : regs.State = set_high platform hartid time lowered in
        let h3 : regs.read final h ≡ time / 2 ^ 32 % 2 ^ 32 =
          laws.read_back lowered h (time / 2 ^ 32 % 2 ^ 32) (omega arith) in
        let l3 : regs.read final l ≡ regs.read lowered l =
          laws.write_other lowered h l (time / 2 ^ 32 % 2 ^ 32) (words_apart hartid) in
        (
          omega (arith, h1, l1, laws.fits s h),
          omega (arith, h1, h2, l2, small),
          refl,
          omega (arith, h3, l3, l2, small),
        )

  -- The pending bit of each hart holds a 0 or a 1 that is written, and no other hart's changes.
  pub record HasMsip : Type 0 where
    pub pending_back :
        (s : regs.State) (hartid v : ℕ)
        → v < 2
        → regs.read (regs.write s (msip platform hartid) v) (msip platform hartid) ≡ v
    pub pending_other :
        (s : regs.State) (hartid other v : ℕ)
        → other ≢ hartid
        → regs.read (regs.write s (msip platform hartid) v) (msip platform other)
          ≡ regs.read s (msip platform other)

  module _ (laws : HasMsip) where
    msip-write :
        (hartid other v : ℕ) (s : regs.State)
        → v < 2
        → regs.read (regs.write s (msip platform hartid) v) (msip platform other)
          ≡ (if other == hartid then v else regs.read s (msip platform other))
    msip-write hartid other v s small = elim (Bool-cases (other == hartid)) [
      | inl same ↦
          let e : other ≡ hartid = (==_iff _ _).0 same in
          rw (same) (rw e (laws.pending_back s hartid v small))
      | inr differ ↦
          rw (differ)
            (laws.pending_other s hartid other v (λ e. absurd (ground (arith, differ, e))))
    ]

    -- On pending bits that hold what is written, the command METAL_SOFTWARE_IPI_SET on a hart and then
    -- METAL_SOFTWARE_IPI_CLEAR on it return 0; METAL_SOFTWARE_MSIP_GET reads 1 after the first
    -- and 0 after the second on that hart, and on any other hart what it would have read before.
    pub ipi_set-get :
        (fuel hartid other : ℕ) (s : regs.State)
        → (after : regs.State) × (cleared : regs.State) × (command_request platform fuel
              software_ipi_set
              (some hartid)
              s
            ≡ some (0, some hartid, after))
          × (command_request platform fuel software_msip_get (some other) after
              ≡ some (
                (if other == hartid then 1 else regs.read s (msip platform other)),
                some other,
                after,
              ))
          × (command_request platform fuel software_ipi_clear (some hartid) after
              ≡ some (0, some hartid, cleared))
          × (command_request platform fuel software_msip_get (some other) cleared
              ≡ some (
                (if other == hartid then 0 else regs.read s (msip platform other)),
                some other,
                cleared,
              ))
    unfolding command_request
    ipi_set-get fuel hartid other s =
        let after : regs.State = regs.write s (msip platform hartid) 1 in
        let cleared : regs.State = regs.write after (msip platform hartid) 0 in
        let set_read : ℕ → Option (ℕ × Option ℕ × regs.State) = λ v. some (v, some other, after) in
        let clear_read : ℕ → Option (ℕ × Option ℕ × regs.State) =
          λ v. some (v, some other, cleared) in
        let restored : regs.read cleared (msip platform other)
            ≡ (if other == hartid then 0 else regs.read s (msip platform other)) =
          ground (
            arith,
            msip-write hartid other 1 s (omega arith),
            msip-write hartid other 0 after (omega arith),
          ) in
        (
          after,
          cleared,
          refl,
          ap set_read (msip-write hartid other 1 s (omega arith)),
          refl,
          ap clear_read restored,
        )
