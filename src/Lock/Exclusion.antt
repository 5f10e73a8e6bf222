-- ===== src/Lock/Exclusion.antt =====
-- Mutual exclusion of the lock of metal/lock.h.
use freedom_metal.Prelude.{ℕ, ◌≡◌, ◌≢◌, arith, sym, ◌∙◌}
use freedom_metal.Lock.{
  outside, holding, System, lock_init, try_take, give, Step, enters, tries, gives, Reach, here,
  step,
}

-- Every hart that holds the lock keeps its word set, and no two harts hold it.
pub record IsExclusive (s : System) : Type 0 where
  pub is_set : (hart : ℕ) → s.place hart ≡ holding → s.state ≢ 0
  pub is_alone : (a b : ℕ) → s.place a ≡ holding → s.place b ≡ holding → a ≡ b

Step-IsExclusive : (s t : System) → Step s t → IsExclusive s → IsExclusive t
unfolding try_take give
Step-IsExclusive s t (enters hart was) inv = record {
  is_set = λ h e. ground (arith, inv.is_set h, was, e);
  is_alone = λ a b ea eb. ground (arith, inv.is_alone a b, was, ea, eb);
}
Step-IsExclusive s t (tries hart backoff was) inv = record {
  is_set = λ h e z. absurd (omega (arith, z));
  is_alone = λ a b ea eb. ground (arith, inv.is_set a, inv.is_set b, inv.is_alone a b, was, ea, eb);
}
Step-IsExclusive s t (gives hart was) inv = record {
  is_set = λ h e. absurd (ground (arith, inv.is_alone h hart, was, e));
  is_alone = λ a b ea eb. ground (arith, inv.is_alone a b, was, ea, eb);
}

invariant : (s t : System) → IsExclusive s → Reach s t → IsExclusive t
invariant s t inv here = inv
invariant s t inv (step {t = u} r moved) = Step-IsExclusive u t moved (invariant s u inv r)

nobody :
    (s : System) → ((hart : ℕ) → s.place hart ≡ outside) → (h : ℕ) → (lock_init s).place h ≢ holding
unfolding lock_init
nobody s start h e = let clash : outside ≡ holding = sym (start h) ∙ e in cc

-- After any sequence of steps of harts that take and give the lock, from a lock just initialised
-- with no hart at it, at most one hart holds the lock, and its word is not 0 while one does; a
-- hart gives only a lock that it holds.
pub Reach-IsExclusive :
    (s t : System) → ((hart : ℕ) → s.place hart ≡ outside) → Reach (lock_init s) t → IsExclusive t
Reach-IsExclusive s t start r =
    let fresh : IsExclusive (lock_init s) = record {
      is_set = λ h e. absurd (nobody s start h e);
      is_alone = λ a b ea eb. absurd (nobody s start a ea);
    } in
    invariant (lock_init s) t fresh r
