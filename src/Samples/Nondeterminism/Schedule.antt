-- ===== src/Samples/Nondeterminism/Schedule.antt =====
-- Goroutines under a scheduler: `act t s` is the next step of the goroutine `t` in the state `s`, and a
-- scheduler chooses, in each state, whose step comes next.
use cleat_ports.Base.{ℕ, zero, suc, ◌+◌, ◌≤◌, ◌<◌, ◌≡◌, refl, ◌⊎◌, inl, inr, arith}
use cleat_ports.Samples.Nondeterminism.Sync.{Move, moved, blocked, crashed}

module _ {T S : Type 0} (act : T → S → Move S) where
  -- An execution of `n` steps, whoever takes them.
  pub data Steps (s : S) : ℕ → S → Type 0 where
    here : Steps s 0 s
    next : {n : ℕ} {s' s'' : S} (t : T) → Steps s n s' → act t s' ≡ moved s'' → Steps s (suc n) s''

  -- Some goroutine can take a step.
  abbrev pub CanMove : S → Type 0
  CanMove s = (t : T) × (s' : S) × (act t s ≡ moved s')

  -- The scheduler chooses a goroutine that can take a step, whenever there is one.
  abbrev pub Working : (S → T) → Type 0
  Working pick = (s : S) → CanMove s → (s' : S) × (act (pick s) s ≡ moved s')

  abbrev pub stepped : S → Move S → (S → S) → S
  stepped s (moved s') go = go s'
  stepped s blocked go = s
  stepped s (crashed text) go = s

  -- So many steps, or fewer when none can be taken.
  unfoldable pub schedule : (S → T) → ℕ → S → S
  schedule pick zero s = s
  schedule pick (suc n) s = stepped s (act (pick s) s) (schedule pick n)

-- What every execution and every scheduler keeps, from an invariant that each step preserves, a rank
-- that it lowers, and the fact that a state which is not final has a step.
module _ {T S : Type 0} (act : T → S → Move S) (Inv Final : S → Type 0) (rank : S → ℕ)
    (kept : (t : T) (s s' : S) → Inv s → act t s ≡ moved s' → Inv s')
    (lowered : (t : T) (s s' : S) → Inv s → act t s ≡ moved s' → rank s' < rank s) where
  pub Steps-kept :
      (s : S) (n : ℕ) (s' : S) → Inv s → Steps act s n s' → Inv s' × (n + rank s' ≤ rank s)
  Steps-kept s n s' i here = (i, omega arith)
  Steps-kept s n s' i (next {n = m} {s' = s₁} t before e) =
      let (i₁, far) = Steps-kept s m s₁ i before in
      (kept t s₁ s' i₁ e, omega (arith, lowered t s₁ s' i₁ e))

  module _ (progress : (s : S) → Inv s → Final s ⊎ CanMove act s) (pick : S → T)
      (working : Working act pick) where
    stuck-Final : (s : S) → Inv s → ((s' : S) → act (pick s) s ≡ moved s' → ⊥) → Final s
    stuck-Final s i stuck = elim (progress s i) [
      | inl f ↦ f
      | inr can ↦ let (s', e) = working s can in absurd (stuck s' e)
    ]

    stepped-Final :
        (n : ℕ) (s : S) (m : Move S)
        → act (pick s) s ≡ m
        → Inv s
        → rank s ≤ suc n
        → ((s' : S) → Inv s' → rank s' ≤ n → Final (schedule act pick n s'))
        → Final (stepped act s m (schedule act pick n))
    stepped-Final n s (moved s') e i fits later =
        later s' (kept (pick s) s s' i e) (omega (arith, lowered (pick s) s s' i e))
    stepped-Final n s blocked e i fits later = stuck-Final s i λ s' e'. cc
    stepped-Final n s (crashed text) e i fits later = stuck-Final s i λ s' e'. cc

    -- With as many steps as the rank, every working scheduler ends in a final state.
    pub schedule-Final : (n : ℕ) (s : S) → Inv s → rank s ≤ n → Final (schedule act pick n s)
    unfolding schedule
    schedule-Final zero s i fits = stuck-Final s i λ s' e. omega (arith, lowered (pick s) s s' i e)
    schedule-Final (suc n) s i fits =
        stepped-Final n s (act (pick s) s) refl i fits (schedule-Final n)
