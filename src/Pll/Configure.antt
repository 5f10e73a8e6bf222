-- ===== src/Pll/Configure.antt =====
-- configure_pll programs the dividers of a row, and ends once the timer has run and the PLL has
-- locked.
use freedom_metal.Prelude.{
  ℕ, ◌+◌, ◌*◌, ◌^◌, ◌≤◌, ◌<◌, ◌≡◌, inl, inr, arith, ◌∙◌, sym, ap, Option, none, some, Option-cases,
}
use freedom_metal.Prelude.Fields.{mask}
use freedom_metal.Prelude.Low.{shifted_and_mask}
use freedom_metal.Prelude.Machine.{set_bits, clear_bits}
use freedom_metal.Pll.Table.{PllConfig}
use freedom_metal.Pll.Rows.{IsRow}
use freedom_metal.Pll.{Prci, pllcfg, plloutdiv, replace, write_dividers}
use freedom_metal.Pll.Fields.{
  IsPrci, field, field-set_bit, field-clear_bits_self, field-clear_bits_other, field-write_kept,
  field-replace_self, field-replace_other, field-replace_kept,
}

module _ (prci : Prci) where
  open prci use {regs, mtime, tick}

  -- The fields that stand for the row: its dividers, no bypass, and the muxes of before.
  pub record Programmed (config : PllConfig) (s s' : regs.State) : Type 0 where
    pub r_set : field prci pllcfg 3 0 s' ≡ config.r
    pub f_set : field prci pllcfg 6 4 s' ≡ config.f
    pub q_set : field prci pllcfg 2 10 s' ≡ config.q
    pub bypass_off : field prci pllcfg 1 18 s' ≡ 0
    pub sel_kept : field prci pllcfg 1 16 s' ≡ field prci pllcfg 1 16 s
    pub refsel_kept : field prci pllcfg 1 17 s' ≡ field prci pllcfg 1 17 s
    pub divider_off : config.d ≡ none → field prci plloutdiv 1 8 s' ≡ 1
    pub divider_on : (d : ℕ) → config.d ≡ some d → field prci plloutdiv 1 8 s' ≡ 0
    pub divider_set : (d : ℕ) → config.d ≡ some d → field prci plloutdiv 6 0 s' ≡ d

  -- The states in write_dividers, with the masked values as they are.
  module _ (config : PllConfig) (s : regs.State) where
    abbrev s_r : regs.State
    s_r = replace prci pllcfg (mask 3 0) (config.r * 2 ^ 0) s

    abbrev s_f : regs.State
    s_f = replace prci pllcfg (mask 6 4) (config.f * 2 ^ 4) s_r

    abbrev s_q : regs.State
    s_q = replace prci pllcfg (mask 2 10) (config.q * 2 ^ 10) s_f

    abbrev s_1 : Option ℕ → regs.State
    s_1 none = set_bits regs s_q plloutdiv (1 * 2 ^ 8)
    s_1 (some d) = clear_bits regs 32 s_q plloutdiv (mask 1 8)

    abbrev final_value : Option ℕ → ℕ
    final_value none = 1
    final_value (some d) = d

    abbrev s_d : Option ℕ → regs.State
    s_d d = replace prci plloutdiv (mask 6 0) (final_value d * 2 ^ 0) (s_1 d)

  module _ (laws : IsPrci prci) (config : PllConfig) (row : IsRow config) (s : regs.State) where
    written :
        (d : Option ℕ)
        → config.d ≡ d
        → final_value config s d < 64
        → write_dividers prci config s ≡ clear_bits regs 32 (s_d config s d) pllcfg (mask 1 18)
    unfolding write_dividers
    written none e small = rw (
      e,
      shifted_and_mask 3 0 config.r row.r_fits,
      shifted_and_mask 6 4 config.f row.f_fits,
      shifted_and_mask 2 10 config.q row.q_fits,
    )
    written (some d) e small = rw (
      e,
      shifted_and_mask 3 0 config.r row.r_fits,
      shifted_and_mask 6 4 config.f row.f_fits,
      shifted_and_mask 2 10 config.q row.q_fits,
      shifted_and_mask 6 0 d small,
    )

    module _ (d : Option ℕ) (small : final_value config s d < 64) where
      abbrev last : regs.State
      last = clear_bits regs 32 (s_d config s d) pllcfg (mask 1 18)

      -- A field of pllcfg from s_q on.
      from_s_q :
          (w i : ℕ) → i + w ≤ 18 → field prci pllcfg w i last ≡ field prci pllcfg w i (s_q config s)
      from_s_q w i inside =
          field-clear_bits_other prci laws pllcfg 1 18 (s_d config s d) (omega arith) w i
            (omega arith) (inl inside)
          ∙ field-replace_kept prci laws plloutdiv pllcfg (mask 6 0)
              (final_value config s d * 2 ^ 0) w i (s_1 config s d) (λ e. cc) (omega arith)
          ∙ divider_kept d
        where
          divider_kept :
              (d : Option ℕ)
              → field prci pllcfg w i (s_1 config s d) ≡ field prci pllcfg w i (s_q config s)
          divider_kept none =
              field-write_kept prci laws plloutdiv pllcfg _ w i (s_q config s) (λ e. cc)
                (omega arith)
          divider_kept (some d) =
              field-write_kept prci laws plloutdiv pllcfg _ w i (s_q config s) (λ e. cc)
                (omega arith)

      -- A field above those of the dividers.
      muxes : (i : ℕ) → 12 ≤ i → i < 18 → field prci pllcfg 1 i last ≡ field prci pllcfg 1 i s
      muxes i above below =
          from_s_q 1 i (omega arith)
          ∙ field-replace_other prci laws pllcfg 2 10 config.q (s_f config s) row.q_fits
              (omega arith) 1 i (omega arith) (inr above)
          ∙ field-replace_other prci laws pllcfg 6 4 config.f (s_r config s) row.f_fits
              (omega arith) 1 i (omega arith) (inr (omega arith))
          ∙ field-replace_other prci laws pllcfg 3 0 config.r s row.r_fits (omega arith) 1 i
              (omega arith) (inr (omega arith))

      -- A field of plloutdiv after its divider is set.
      divider_enabled : field prci plloutdiv 1 8 last ≡ field prci plloutdiv 1 8 (s_1 config s d)
      divider_enabled =
          field-write_kept prci laws pllcfg plloutdiv _ 1 8 (s_d config s d) (λ e. cc) (omega arith)
          ∙ field-replace_other prci laws plloutdiv 6 0 (final_value config s d) (s_1 config s d)
              small (omega arith) 1 8 (omega arith) (inr (omega arith))

      last-Programmed : config.d ≡ d → Programmed config s last
      last-Programmed e = record {
        r_set =
            from_s_q 3 0 (omega arith)
            ∙ field-replace_other prci laws pllcfg 2 10 config.q (s_f config s) row.q_fits
                (omega arith) 3 0 (omega arith) (inl (omega arith))
            ∙ field-replace_other prci laws pllcfg 6 4 config.f (s_r config s) row.f_fits
                (omega arith) 3 0 (omega arith) (inl (omega arith))
            ∙ field-replace_self prci laws pllcfg 3 0 config.r s row.r_fits (omega arith);
        f_set =
            from_s_q 6 4 (omega arith)
            ∙ field-replace_other prci laws pllcfg 2 10 config.q (s_f config s) row.q_fits
                (omega arith) 6 4 (omega arith) (inl (omega arith))
            ∙ field-replace_self prci laws pllcfg 6 4 config.f (s_r config s) row.f_fits
                (omega arith);
        q_set =
            from_s_q 2 10 (omega arith)
            ∙ field-replace_self prci laws pllcfg 2 10 config.q (s_f config s) row.q_fits
                (omega arith);
        bypass_off = field-clear_bits_self prci laws pllcfg 1 18 (s_d config s d) (omega arith);
        sel_kept = muxes 16 (omega arith) (omega arith);
        refsel_kept = muxes 17 (omega arith) (omega arith);
        divider_off = λ off.
            divider_enabled
            ∙ rw (sym e ∙ off) (field-set_bit prci laws plloutdiv 8 (s_q config s) (omega arith));
        divider_on = λ k on.
            divider_enabled
            ∙ rw (sym e ∙ on)
                (field-clear_bits_self prci laws plloutdiv 1 8 (s_q config s) (omega arith));
        divider_set = λ k on.
            field-write_kept prci laws pllcfg plloutdiv _ 6 0 (s_d config s d) (λ e. cc)
              (omega arith)
            ∙ field-replace_self prci laws plloutdiv 6 0 (final_value config s d) (s_1 config s d)
                small (omega arith)
            ∙ ap (final_value config s) (sym e ∙ on);
      }

    pub write_dividers-Programmed : Programmed config s (write_dividers prci config s)
    write_dividers-Programmed = elim (Option-cases config.d) [
      | inl off ↦ rw (written none off (omega arith)) (last-Programmed none (omega arith) off)
      | inr on ↦
          let small : on.0 < 64 = ground (arith, row.d_fits, on.1) in
          rw (written (some on.0) on.1 small) (last-Programmed (some on.0) small on.1)
    ]
