-- ===== src/Samples/Nondeterminism/HelperEscape/Counts.antt =====
-- Sums over the goroutines of the helper.
use cleat_ports.Base.{ℕ, zero, suc, ◌+◌, ◌≤◌, ◌<◌, List, [], ◌∷◌, append, length, ◌≡◌, refl, arith}
use cleat_ports.Samples.Nondeterminism.HelperEscape.{
  Worker, locking, sending, unlocking, finishing, ended, place, set_at,
}

abbrev pub total : (Worker → ℕ) → List Worker → ℕ
total f [] = 0
total f (w ∷ ws) = f w + total f ws

-- whether it holds the mutex, has sent its text, or is running, and how many steps it has left
abbrev pub holds : Worker → ℕ
holds sending = 1
holds unlocking = 1
holds _ = 0

abbrev pub sent : Worker → ℕ
sent locking = 0
sent sending = 0
sent _ = 1

abbrev pub running : Worker → ℕ
running ended = 0
running _ = 1

abbrev pub left : Worker → ℕ
left locking = 4
left sending = 3
left unlocking = 2
left finishing = 1
left ended = 0

pub length-set_at : (i : ℕ) (w : Worker) (ws : List Worker) → length (set_at i w ws) ≡ length ws
length-set_at i w [] = refl
length-set_at zero w (v ∷ vs) = refl
length-set_at (suc i) w (v ∷ vs) = omega (arith, length-set_at i w vs)

module _ (f : Worker → ℕ) where
  pub total-set_at :
      (i : ℕ) (w : Worker) (ws : List Worker)
      → running (place i ws) ≡ 1
      → total f (set_at i w ws) + f (place i ws) ≡ total f ws + f w
  total-set_at i w [] h = absurd (omega arith)
  total-set_at zero w (v ∷ vs) h = omega arith
  total-set_at (suc i) w (v ∷ vs) h = omega (arith, total-set_at i w vs h)

  pub total-place :
      (i : ℕ) (ws : List Worker) → running (place i ws) ≡ 1 → f (place i ws) ≤ total f ws
  total-place i [] h = absurd (omega arith)
  total-place zero (v ∷ vs) h = omega arith
  total-place (suc i) (v ∷ vs) h = omega (arith, total-place i vs h)

  pub total-append : (ws : List Worker) (w : Worker) → total f (append ws w) ≡ total f ws + f w
  unfolding append
  total-append [] w = omega arith
  total-append (v ∷ vs) w = omega (arith, total-append vs w)

  pub total_positive : (ws : List Worker) → 0 < total f ws → (i : ℕ) × (0 < f (place i ws))
  total_positive [] h = absurd (omega arith)
  total_positive (v ∷ vs) h =
      elim (f v) as (λ n. f v ≡ n → (i : ℕ) × (0 < f (place i (v ∷ vs)))) [
        | zero ↦ λ e. let (i, p) = total_positive vs (omega arith) in (suc i, p)
        | suc n ↦ λ e. (0, omega arith)
      ]
        refl

sent-le : (w : Worker) → sent w ≤ 1
sent-le w = ground arith

sent-running : (w : Worker) → 1 ≤ sent w + running w
sent-running w = ground arith

pub total_sent-le : (ws : List Worker) → total sent ws ≤ length ws
total_sent-le [] = omega arith
total_sent-le (v ∷ vs) = omega (arith, sent-le v, total_sent-le vs)

pub all_sent : (ws : List Worker) → length ws ≤ total sent ws + total running ws
all_sent [] = omega arith
all_sent (v ∷ vs) = omega (arith, sent-running v, all_sent vs)
