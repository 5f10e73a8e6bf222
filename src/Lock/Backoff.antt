-- ===== src/Lock/Backoff.antt =====
-- The back-off of metal_lock_take of metal/lock.h.
use freedom_metal.Prelude.{
  ℕ, suc, ◌*◌, ◌^◌, ◌≤◌, ◌≡◌, ◌≢◌, ◌∙◌, sym, ap, true, false, arith, ltb, ◌==◌, if◌then◌else◌, inl,
  inr, Bool-cases, ◌⊎◌,
}
use mathlib.Core.Path.{subst}
use native.Mathlib.Nat.{pow-suc}
use freedom_metal.Lock.{
  Place, outside, taking, holding, System, Step, enters, tries, gives, Reach, here, step, try_take,
  give, lock_init, next_backoff, max_cores, backoff_cycles,
}

-- A number of empty turns: a power of 2 that is at most 256.
abbrev pub IsTurns : ℕ → Type 0
IsTurns b = (k : ℕ) × (k ≤ 8) × (b ≡ 2 ^ k)

-- Every hart in the loop has a back-off of that kind.
pub record IsBounded (s : System) : Type 0 where
  pub turns : (hart b : ℕ) → s.place hart ≡ taking b → IsTurns b

next_backoff-IsTurns : (b : ℕ) → IsTurns b → IsTurns (next_backoff b)
unfolding next_backoff
next_backoff-IsTurns b (k, small, e) = elim (Bool-cases (ltb b (backoff_cycles * max_cores))) [
  | inr full ↦ (k, small, rw (full) e)
  | inl low ↦
      let below : k ≢ 8 = λ at. absurd (ground (arith, low, e, ap (λ (x : ℕ). 2 ^ x) at)) in
      (suc k, ground (arith, small, below), rw (low) (ap (λ (x : ℕ). x * 2) e ∙ sym (pow-suc 2 k)))
]

taking-injective : (a b : ℕ) → taking a ≡ taking b → a ≡ b
taking-injective a b e = ap turns_of e
  where
    turns_of : Place → ℕ
    turns_of (taking n) = n
    turns_of _ = 0

Step-IsBounded : (s t : System) → Step s t → IsBounded s → IsBounded t
unfolding try_take give
Step-IsBounded s t (enters hart was) inv = record { turns = λ h b e. entered h b e }
  where
    entered : (h b : ℕ) → (if h == hart then taking 1 else s.place h) ≡ taking b → IsTurns b
    entered h b e = elim (Bool-cases (h == hart)) [
      | inl own ↦ (
        0,
        omega arith,
        sym (
            taking-injective 1 b
              (subst (λ c. (if c then taking 1 else s.place h) ≡ taking b) own e)),
      )
      | inr other ↦
          inv.turns h b (subst (λ c. (if c then taking 1 else s.place h) ≡ taking b) other e)
    ]
Step-IsBounded s t (tries hart backoff was) inv = record {
  turns = λ h b e. tried h b e (Bool-cases (h == hart)) (Bool-cases (s.state == 0));
}
  where
    tried :
        (h b : ℕ)
        → (if h == hart
            then (if s.state == 0 then holding else taking (next_backoff backoff))
            else s.place h)
          ≡ taking b
        → ((h == hart) ≡ true) ⊎ ((h == hart) ≡ false)
        → ((s.state == 0) ≡ true) ⊎ ((s.state == 0) ≡ false)
        → IsTurns b
    tried h b e (inr other) free = inv.turns h b (
        subst
          (λ c.
            (if c
              then (if s.state == 0 then holding else taking (next_backoff backoff))
              else s.place h)
            ≡ taking b)
          other e)
    tried h b e (inl own) (inl free) =
        let clash : holding ≡ taking b =
          subst
            (λ c.
              (if c then (if true then holding else taking (next_backoff backoff)) else s.place h)
              ≡ taking b)
            own
            (subst
              (λ d.
                (if h == hart
                  then (if d then holding else taking (next_backoff backoff))
                  else s.place h)
                ≡ taking b)
              free e) in
        cc
    tried h b e (inl own) (inr held) =
        let again : taking (next_backoff backoff) ≡ taking b =
          subst
            (λ c.
              (if c then (if false then holding else taking (next_backoff backoff)) else s.place h)
              ≡ taking b)
            own
            (subst
              (λ d.
                (if h == hart
                  then (if d then holding else taking (next_backoff backoff))
                  else s.place h)
                ≡ taking b)
              held e) in
        subst IsTurns (taking-injective (next_backoff backoff) b again)
          (next_backoff-IsTurns backoff (inv.turns hart backoff was))
Step-IsBounded s t (gives hart was) inv = record { turns = λ h b e. given h b e }
  where
    given : (h b : ℕ) → (if h == hart then outside else s.place h) ≡ taking b → IsTurns b
    given h b e = elim (Bool-cases (h == hart)) [
      | inl own ↦
          let clash : outside ≡ taking b =
            subst (λ c. (if c then outside else s.place h) ≡ taking b) own e in
          cc
      | inr other ↦
          inv.turns h b (subst (λ c. (if c then outside else s.place h) ≡ taking b) other e)
    ]

bounded : (s t : System) → IsBounded s → Reach s t → IsBounded t
bounded s t inv here = inv
bounded s t inv (step {t = u} r moved) = Step-IsBounded u t moved (bounded s u inv r)

-- After any sequence of steps of harts that take and give the lock, from a lock just initialised
-- with no hart at it, every hart that tries to take the lock waits a power of two of empty turns
-- between its swaps, at most 256, which is 32 for each of 8 cores.
pub Reach-IsBounded :
    (s t : System) → ((hart : ℕ) → s.place hart ≡ outside) → Reach (lock_init s) t → IsBounded t
unfolding lock_init
Reach-IsBounded s t start r =
    bounded (lock_init s) t (record { turns = λ h b e. absurd (nobody s start h b e) }) r
  where
    nobody :
        (s : System)
        → ((hart : ℕ) → s.place hart ≡ outside)
        → (h b : ℕ) → (lock_init s).place h ≢ taking b
    nobody s start h b e = let clash : outside ≡ taking b = sym (start h) ∙ e in cc
