-- ===== src/Pll/Search.antt =====
-- find_closest_config: the search through the table finds the configuration that is closest to the
-- desired rate.
use freedom_metal.Prelude.{
  ℕ, zero, suc, ◌^◌, ◌≤◌, ◌<◌, ◌≡◌, ◌⊎◌, inl, inr, refl, none, some, List, get_elem?,
  get_elem?-none, length, arith, Option-cases, ap,
}
use native.Mathlib.Decide.{dec_lt, ℕ_discrete}
use freedom_metal.Pll.Table.{PllConfig, pll_configs}
use freedom_metal.Pll.Rows.{pll_configs-IsRow, freq_exact}
use freedom_metal.Pll.{
  get_pll_config_freq, distance, long_max, Closest, consider, closest_below, find_closest_config,
}

module _ (configs : List PllConfig) (ref_hz rate : ℕ) where
  -- Configuration `i` gives the frequency `freq` from the input rate.
  pub record Gives (i freq : ℕ) : Type 0 where
    pub config : PllConfig
    pub entry : get_elem? configs i ≡ some config
    pub valid : get_pll_config_freq ref_hz config ≡ some freq

  -- `best` is the closest of the configurations from `i` on; among equals it is the last.
  record IsClosest (i : ℕ) (best : Closest) : Type 0 where
    bound : (j freq : ℕ) → i ≤ j → Gives j freq → best.diff ≤ distance freq rate
    found :
        (best ≡ record { index = none; diff = long_max })
        ⊎ ((k : ℕ) × (freq : ℕ) × (best ≡ record { index = some k; diff = distance freq rate })
            × (i ≤ k)
            × Gives k freq
            × ((j other : ℕ) → k < j → Gives j other → distance freq rate < distance other rate))

  Gives-unique : (i f g : ℕ) → Gives i f → Gives i g → f ≡ g
  Gives-unique i f g a b = ground (arith, a.entry, b.entry, a.valid, b.valid)

  -- A round either keeps the best, which is as close as configuration `i`, or takes `i`.
  Keeps : ℕ → Closest → Type 0
  Keeps i best =
      (consider configs ref_hz rate i best ≡ best)
      × ((freq : ℕ) → Gives i freq → best.diff ≤ distance freq rate)

  Takes : ℕ → Closest → Type 0
  Takes i best =
      (freq : ℕ) × Gives i freq
      × (consider configs ref_hz rate i best ≡ record { index = some i; diff = distance freq rate })
      × (distance freq rate < best.diff)

  consider-cases : (i : ℕ) (best : Closest) → Keeps i best ⊎ Takes i best
  unfolding consider Keeps Takes
  consider-cases i best = elim (Option-cases (get_elem? configs i)) [
    | inl past ↦ inl (rw (past, consider), λ freq g. cc (past, g.entry))
    | inr at ↦ elim (Option-cases (get_pll_config_freq ref_hz at.0)) [
      | inl unfit ↦ inl (rw (at.1, unfit, consider), λ freq g. cc (at.1, unfit, g.entry, g.valid))
      | inr fit ↦ split at.0 at.1 fit.0 fit.1
    ]
  ]
    where
      split :
          (config : PllConfig)
          → get_elem? configs i ≡ some config
          → (freq : ℕ) → get_pll_config_freq ref_hz config ≡ some freq
          → Keeps i best ⊎ Takes i best
      split config entry freq valid =
          let gives : Gives i freq = record { config = config; entry = entry; valid = valid } in
          elim (dec_lt (distance freq rate) best.diff) [
            | yes closer ↦ inr (freq, gives, rw (entry, valid, consider) (ground arith), closer)
            | no other ↦ inl (
              rw (entry, valid, consider) (ground arith),
              λ f g. omega (arith, ap (λ (t : ℕ). distance t rate) (Gives-unique i f freq g gives)),
            )
          ]

  consider-IsClosest :
      (i : ℕ) (best : Closest)
      → IsClosest (suc i) best
      → IsClosest i (consider configs ref_hz rate i best)
  unfolding Keeps Takes
  consider-IsClosest i best h = elim (consider-cases i best) [
    | inl keeps ↦ rw keeps.0 (record {
      bound = λ j freq le g. from_here keeps.1 j freq le g;
      found = elim h.found [
        | inl none_yet ↦ inl none_yet
        | inr f ↦ inr (f.0, f.1, f.2, omega (arith, f.3), f.4, f.5)
      ];
    })
    | inr takes ↦ rw takes.2 (record {
      bound = λ j freq le g. from_taken takes j freq le g;
      found = inr (
        i,
        takes.0,
        refl,
        omega arith,
        takes.1,
        λ j other lt g. omega (arith, takes.3, h.bound j other lt g),
      );
    })
  ]
    where
      from_here :
          ((freq : ℕ) → Gives i freq → best.diff ≤ distance freq rate)
          → (j freq : ℕ) → i ≤ j
          → Gives j freq
          → best.diff ≤ distance freq rate
      from_here here j freq le g = elim (ℕ_discrete i j) [
        | yes same ↦ here freq (rw same g)
        | no ne ↦ h.bound j freq (omega arith) g
      ]

      from_taken :
          (takes : Takes i best)
          → (j freq : ℕ) → i ≤ j
          → Gives j freq
          → distance takes.0 rate ≤ distance freq rate
      from_taken takes j freq le g = elim (ℕ_discrete i j) [
        | yes same ↦ omega (
          arith,
          ap (λ (t : ℕ). distance t rate) (Gives-unique i freq takes.0 (rw same g) takes.1),
        )
        | no ne ↦ omega (arith, takes.3, h.bound j freq (omega arith) g)
      ]

  closest_below-IsClosest :
      (i : ℕ) (best : Closest)
      → IsClosest i best
      → IsClosest 0 (closest_below configs ref_hz rate i best)
  unfolding closest_below
  closest_below-IsClosest zero best h = h
  closest_below-IsClosest (suc i) best h =
      closest_below-IsClosest i (consider configs ref_hz rate i best) (consider-IsClosest i best h)

  start-IsClosest : IsClosest (length configs) (record { index = none; diff = long_max })
  start-IsClosest = record {
    bound = λ j freq le g. cc (get_elem?-none configs j le, g.entry);
    found = inl refl;
  }

-- For a desired rate below 2 ^ 31, find_closest_config returns -1 only if no row of the table is
-- valid for the input rate; else it returns a valid row whose frequency is at most as far from
-- the desired rate as that of any other valid row, and nearer than that of every valid row
-- further down the table.
pub find_closest_config-closest :
    (ref_hz rate : ℕ)
    → rate < 2 ^ 31
    → (find_closest_config ref_hz rate ≡ none)
        × ((j freq : ℕ) → ¬ Gives pll_configs ref_hz rate j freq)
      ⊎ ((k : ℕ) × (freq : ℕ) × (find_closest_config ref_hz rate ≡ some k)
          × Gives pll_configs ref_hz rate k freq
          × ((j other : ℕ)
              → Gives pll_configs ref_hz rate j other
              → (distance freq rate ≤ distance other rate)
                × (k < j → distance freq rate < distance other rate)))
unfolding find_closest_config
find_closest_config-closest ref_hz rate fits = elim closest.found [
  | inl start ↦ inl (ap Closest.index start, λ j freq g. nothing start j freq g)
  | inr f ↦ inr (
    f.0,
    f.1,
    ap Closest.index f.2,
    f.4,
    λ j other g. (
      rw (ap Closest.diff f.2) at (closest.bound j other (omega arith) g),
      λ lt. f.5 j other lt g,
    ),
  )
]
  where
    start_best : Closest
    start_best = record { index = none; diff = long_max }

    last_best : Closest
    last_best = closest_below pll_configs ref_hz rate (length pll_configs) start_best

    closest : IsClosest pll_configs ref_hz rate 0 last_best
    closest =
        closest_below-IsClosest pll_configs ref_hz rate (length pll_configs) start_best
          (start-IsClosest pll_configs ref_hz rate)

    nothing : last_best ≡ start_best → (j freq : ℕ) → Gives pll_configs ref_hz rate j freq → ⊥
    nothing start j freq g = omega (
      arith,
      freq_exact g.config ref_hz freq (pll_configs-IsRow j g.config g.entry) g.valid,
      closest.bound j freq (omega arith) g,
      ap Closest.diff start,
    )
