-- ===== src/Pwm/Search.antt =====
-- The prescaler that src/drivers/sifive_pwm0.c searches for a frequency.
use freedom_metal.Prelude.{
  ℕ, zero, suc, ◌+◌, ◌*◌, ◌/◌, ◌^◌, ◌≤◌, ◌<◌, ◌≡◌, ◌∙◌, refl, sym, ap, ◌⊎◌, inl, inr, ltb,
  Bool-cases, arith, ◌==◌, ==_iff,
}
use mathlib.Core.Path.{subst}
use native.Mathlib.Nat.{div-div-eq-div-mul, pow-suc, le-div_iff_mul-le, mul_right_comm}
use freedom_metal.Pwm.{search}

-- The counts at a prescaler.
abbrev pub count_at : ℕ → ℕ → ℕ → ℕ
count_at clock_rate freq p = clock_rate / 2 ^ p / freq

-- The search ends at the first prescaler whose count fits, or at the last one, where it returns the
-- count of that with the prescaler after it.
pub record Found (clock_rate freq max_count left p : ℕ) : Type 0 where
  pub at : ℕ
  pub from : p ≤ at
  pub upto : at ≤ left + p
  pub earlier : (i : ℕ) → p ≤ i → i < at → max_count < count_at clock_rate freq i
  pub ends :
      ((search clock_rate freq max_count left p ≡ (count_at clock_rate freq at, at))
        × (count_at clock_rate freq at ≤ max_count))
      ⊎ ((search clock_rate freq max_count left p ≡ (count_at clock_rate freq at, at + 1))
          × (at ≡ left + p)
          × (max_count < count_at clock_rate freq at))

pub search-Found : (clock_rate freq max_count left p : ℕ) → Found clock_rate freq max_count left p
unfolding search
search-Found clock_rate freq max_count zero p = record {
  at = p;
  from = omega arith;
  upto = omega arith;
  earlier = λ i a b. absurd (omega (arith, a, b));
  ends = elim (Bool-cases (ltb max_count (count_at clock_rate freq p))) [
    | inl large ↦ inr (rw (large) refl, omega arith, ground (arith, large))
    | inr fits ↦ inl (rw (fits) refl, ground (arith, fits))
  ];
}
search-Found clock_rate freq max_count (suc left) p =
    let later : Found clock_rate freq max_count left (p + 1) =
      search-Found clock_rate freq max_count left (p + 1) in
    elim (Bool-cases (ltb max_count (count_at clock_rate freq p))) [
      | inr fits ↦ record {
        at = p;
        from = omega arith;
        upto = omega arith;
        earlier = λ i a b. absurd (omega (arith, a, b));
        ends = inl (rw (fits) refl, ground (arith, fits));
      }
      | inl large ↦ record {
        at = later.at;
        from = omega (arith, later.from);
        upto = omega (arith, later.upto);
        earlier = λ i a b. before later i a b (ground (arith, large));
        ends = elim (later.ends) [
          | inl e ↦ inl (rw (large) (e.0), e.1)
          | inr e ↦ inr (rw (large) (e.0), omega (arith, e.1), e.2)
        ];
      }
    ]
  where
    before :
        (later : Found clock_rate freq max_count left (p + 1)) (i : ℕ)
        → p ≤ i
        → i < later.at
        → max_count < count_at clock_rate freq p
        → max_count < count_at clock_rate freq i
    before later i a b now = elim (Bool-cases (i == p)) [
      | inl here ↦
          subst (λ (x : ℕ). max_count < count_at clock_rate freq x) (sym ((==_iff i p).0 here)) now
      | inr there ↦ later.earlier i (ground (arith, a, there)) b
    ]

-- A frequency that the clock reaches has a count at the prescaler that is found.
pub Found-positive :
    (clock_rate freq max_count left : ℕ) (found : Found clock_rate freq max_count left 0)
    → 1 ≤ freq
    → freq ≤ clock_rate
    → 1 ≤ max_count
    → 1 ≤ count_at clock_rate freq (found.at)
Found-positive clock_rate freq max_count left found some_freq reached some_max =
    at_step (found.at) (λ i. found.earlier i (omega arith))
  where
    product : (i : ℕ) → 2 ^ suc i * freq ≡ 2 ^ i * freq * 2
    product i = ap (λ (x : ℕ). x * freq) (pow-suc 2 i) ∙ mul_right_comm (2 ^ i) 2 freq

    halves : (i : ℕ) → count_at clock_rate freq (suc i) ≡ count_at clock_rate freq i / 2
    halves i =
        div-div-eq-div-mul clock_rate (2 ^ suc i) freq
        ∙ ap (λ (x : ℕ). clock_rate / x) (product i)
        ∙ sym (div-div-eq-div-mul clock_rate (2 ^ i * freq) 2)
        ∙ ap (λ (x : ℕ). x / 2) (sym (div-div-eq-div-mul clock_rate (2 ^ i) freq))

    at_step :
        (i : ℕ)
        → ((j : ℕ) → j < i → max_count < count_at clock_rate freq j)
        → 1 ≤ count_at clock_rate freq i
    at_step zero earlier =
        let whole : clock_rate / 2 ^ 0 ≡ clock_rate = omega arith in
        subst (λ (x : ℕ). 1 ≤ x / freq) (sym whole)
          ((le-div_iff_mul-le {k = freq} {x = 1} {y = clock_rate} some_freq).1
            (omega (arith, reached)))
    at_step (suc i) earlier = rw (halves i) (omega (arith, earlier i (omega arith), some_max))
