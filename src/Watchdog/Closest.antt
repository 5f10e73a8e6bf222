-- ===== src/Watchdog/Closest.antt =====
-- The scale that src/drivers/sifive_wdog0.c searches for a rate.
use freedom_metal.Prelude.{
  ℕ, zero, suc, ◌+◌, ◌/◌, ◌^◌, ◌≤◌, ◌<◌, ◌≡◌, ◌∙◌, refl, sym, ltb, ◌==◌, ==_iff, ◌⊎◌, inl, inr,
  Bool-cases, arith,
}
use mathlib.Core.Path.{subst}
use freedom_metal.Watchdog.{distance, closest}

abbrev pub far : ℕ → ℕ → ℕ → ℕ
far clock_rate rate i = distance rate (clock_rate / 2 ^ i)

-- The least of the differences of `n` scales from `i` on, and of the one before.
pub record IsLeast (clock_rate rate n i min_diff min_scale : ℕ) (found : ℕ × ℕ) : Type 0 where
  pub no_more : found.0 ≤ min_diff
  pub least : (j : ℕ) → i ≤ j → j < i + n → found.0 ≤ far clock_rate rate j
  pub at :
      ((found.0 ≡ min_diff) × (found.1 ≡ min_scale))
      ⊎ ((found.0 ≡ far clock_rate rate (found.1)) × (i ≤ found.1) × (found.1 < i + n))

pub closest-IsLeast :
    (clock_rate rate n i min_diff min_scale : ℕ)
    → IsLeast clock_rate rate n i min_diff min_scale
        (closest clock_rate rate n i min_diff min_scale)
unfolding closest
closest-IsLeast clock_rate rate zero i min_diff min_scale = record {
  no_more = omega arith;
  least = λ j a b. absurd (omega (arith, a, b));
  at = inl (refl, refl);
}
closest-IsLeast clock_rate rate (suc n) i min_diff min_scale =
    elim (Bool-cases (ltb (far clock_rate rate i) min_diff)) [
      | inl nearer ↦
          let rest = closest-IsLeast clock_rate rate n (i + 1) (far clock_rate rate i) i in
          rw (nearer) (record {
            no_more = ground (arith, rest.no_more, nearer);
            least = λ j a b. elim (Bool-cases (j == i)) [
              | inl own ↦
                  subst
                    (λ (x : ℕ).
                      (closest clock_rate rate n (i + 1) (far clock_rate rate i) i).0
                      ≤ far clock_rate rate x)
                    (sym ((==_iff j i).0 own)) rest.no_more
              | inr later ↦ rest.least j (ground (arith, a, later)) (omega (arith, b))
            ];
            at = elim (rest.at) [
              | inl (d, s) ↦ inr (
                d ∙ subst (λ (x : ℕ). far clock_rate rate i ≡ far clock_rate rate x) (sym s) refl,
                omega (arith, s),
                omega (arith, s),
              )
              | inr (d, from, to) ↦ inr (d, omega (arith, from), omega (arith, to))
            ];
          })
      | inr farther ↦
          let rest = closest-IsLeast clock_rate rate n (i + 1) min_diff min_scale in
          rw (farther) (record {
            no_more = rest.no_more;
            least = λ j a b. elim (Bool-cases (j == i)) [
              | inl own ↦
                  subst
                    (λ (x : ℕ).
                      (closest clock_rate rate n (i + 1) min_diff min_scale).0
                      ≤ far clock_rate rate x)
                    (sym ((==_iff j i).0 own)) (ground (arith, rest.no_more, farther))
              | inr later ↦ rest.least j (ground (arith, a, later)) (omega (arith, b))
            ];
            at = elim (rest.at) [
              | inl same ↦ inl same
              | inr (d, from, to) ↦ inr (d, omega (arith, from), omega (arith, to))
            ];
          })
    ]
