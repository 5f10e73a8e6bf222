-- ===== src/Prelude/Split.antt =====
-- A 64-bit counter that runs while it is read as two 32-bit words: high, low, and high again until
-- the two high words agree.
use Prim.Native.Nat.{ℕ, zero, suc, ◌+◌, ◌*◌, ◌/◌, ◌%◌, ◌^◌, ◌≤◌, ◌<◌}
use mathlib.Core.Path.{◌≡◌, refl}
use mathlib.Core.Logic.{inl, inr}
use mathlib.Core.Bool.{true}
use mathlib.Core.Option.{Option, none, some}
use native.Mathlib.Omega.{arith}
use freedom_metal.Prelude.Tests.{◌==◌, if◌then◌else◌, Bool-cases, ==_iff}

module _ {S : Type 0} (high low : S → ℕ) (tick : S → S) where
  -- One access takes the time of a `tick`. `none` is out of fuel.
  abbrev pub read_split : ℕ → S → Option (ℕ × S)
  read_split zero s = none
  read_split (suc fuel) s =
      let s1 = tick s in
      let s2 = tick s1 in
      let rest = read_split fuel (tick s2) in
      if high s == high s2 then some (high s * 2 ^ 32 + low s1, tick s2) else rest

  -- The counter `count` is below 2 ^ 64 for as long as the loop can run, never runs backwards and
  -- advances by less than 2 ^ 28 in one access.
  pub record IsSplit (count : S → ℕ) : Type 0 where
    pub is_high : (s : S) → high s ≡ count s / 2 ^ 32
    pub is_low : (s : S) → low s ≡ count s % 2 ^ 32
    pub runs : (s : S) → count s ≤ count (tick s)
    pub slowly : (s : S) → count (tick s) < count s + 2 ^ 28

  module _ (count : S → ℕ) (laws : IsSplit count) where
    -- Where the high words agree, what was read is the counter at the read of the low word.
    read_split-agree :
        (fuel : ℕ) (s : S)
        → high s ≡ high (tick (tick s))
        → read_split (suc fuel) s ≡ some (count (tick s), tick (tick (tick s)))
    read_split-agree fuel s agree =
        let same : (high s == high (tick (tick s))) ≡ true = (==_iff _ _).1 agree in
        let value : high s * 2 ^ 32 + low (tick s) ≡ count (tick s) = omega (
          arith,
          agree,
          laws.is_high s,
          laws.is_high (tick (tick s)),
          laws.is_low (tick s),
          laws.runs s,
          laws.runs (tick s),
        ) in
        rw (same, value) refl

    -- Two rounds are enough, and the result is the counter at one moment between start and end.
    pub read_split-moment :
        (fuel : ℕ) (s : S)
        → 2 ≤ fuel
        → (now : S) × (end : S) × (read_split fuel s ≡ some (count now, end))
          × (count s ≤ count now)
          × (count now ≤ count end)
    read_split-moment zero s enough = absurd (omega arith)
    read_split-moment (suc zero) s enough = absurd (omega arith)
    read_split-moment (suc (suc fuel)) s enough =
        let s1 : S = tick s in
        let s2 : S = tick s1 in
        let s3 : S = tick s2 in
        let s4 : S = tick s3 in
        let s5 : S = tick s4 in
        elim (Bool-cases (high s == high s2)) [
          | inl same ↦ (
            s1,
            s3,
            read_split-agree (suc fuel) s ((==_iff _ _).0 same),
            laws.runs s,
            omega (arith, laws.runs s1, laws.runs s2),
          )
          | inr differ ↦
              let jumped : high s < high s2 =
                ground (arith, laws.is_high s, laws.is_high s2, laws.runs s, laws.runs s1) in
              let agree : high s3 ≡ high s5 = omega (
                arith,
                jumped,
                laws.is_high s,
                laws.is_high s2,
                laws.is_high s3,
                laws.is_high s5,
                laws.runs s2,
                laws.runs s3,
                laws.runs s4,
                laws.slowly s,
                laws.slowly s1,
                laws.slowly s2,
                laws.slowly s3,
                laws.slowly s4,
              ) in
              (
                s4,
                tick s5,
                rw (differ) (read_split-agree fuel s3 agree),
                omega (arith, laws.runs s, laws.runs s1, laws.runs s2, laws.runs s3),
                omega (arith, laws.runs s4, laws.runs s5),
              )
        ]
