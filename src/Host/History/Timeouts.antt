-- ===== src/Host/History/Timeouts.antt =====
-- The timeouts of the awaits, when the clock does not go back.
use cleat_ports.Base.{
  ℕ, ◌-◌, ◌+◌, ◌≤◌, leb, true, false, Bool-cases, inl, inr, List, [], ◌∷◌, Option, none, some, ◌≡◌,
  arith,
}
use cleat_ports.Base.Int.{
  ℤ, pos, negsuc, pos_part, neg_part, sub_ℕ, leb_ℤ, ltb_ℤ, ◌+ℤ◌, ◌-ℤ◌, millis, sub_time, max_int,
}
use cleat_ports.Host.Calls.{Call, Answer, now, await_signals}
use cleat_ports.Host.Run.{Event}
use cleat_ports.Host.History.{
  reading, SinceReading, TimeoutKeeps, KeepsBudget, BudgetFrom, BudgetFromStart,
}

abbrev NotBefore : Option ℤ → (c : Call) → Answer c → Type 0
NotBefore (some u) now t = leb_ℤ u t ≡ true
NotBefore _ _ _ = Unit

-- No reading of the clock is before the one that precedes it.
abbrev ForwardFrom : Option ℤ → List Event → Type 0
ForwardFrom last [] = Unit
ForwardFrom last (e ∷ es) =
    NotBefore last e.request e.answer × ForwardFrom (reading e.request e.answer last) es

abbrev pub ClockForward : List Event → Type 0
ClockForward = ForwardFrom none

abbrev TimeoutWithin : ℤ → Call → Type 0
TimeoutWithin budget (await_signals _ d) = (ltb_ℤ (pos 0) d ≡ true) × (leb_ℤ d budget ≡ true)
TimeoutWithin budget _ = Unit

-- Every await's timeout is positive and no longer than the budget.
abbrev pub TimeoutsWithin : ℤ → List Event → Type 0
TimeoutsWithin budget [] = Unit
TimeoutsWithin budget (e ∷ es) = TimeoutWithin budget e.request × TimeoutsWithin budget es

pub pos_part-sub_ℕ : (a b : ℕ) → pos_part (sub_ℕ a b) ≡ a - b
pos_part-sub_ℕ a b = ground arith

pub neg_part-sub_ℕ : (a b : ℕ) → neg_part (sub_ℕ a b) ≡ b - a
neg_part-sub_ℕ a b = ground arith

pub leb-true : (m n : ℕ) → m ≤ n → leb m n ≡ true
leb-true m n h = ground arith

pub le-leb : (m n : ℕ) → leb m n ≡ true → m ≤ n
le-leb m n h = ground arith

-- What is left of a budget that started at `t`.
left_of_budget : (t u budget : ℤ) → leb_ℤ t u ≡ true → leb_ℤ (t +ℤ budget -ℤ u) budget ≡ true
unfolding ◌+ℤ◌ ◌-ℤ◌
left_of_budget t u budget forward =
    let x = pos_part t + pos_part budget in
    let y = neg_part t + neg_part budget in
    let deadline = sub_ℕ x y in
    let x' = pos_part deadline + neg_part u in
    let y' = neg_part deadline + pos_part u in
    leb-true _ _ (
      omega (
        arith,
        le-leb _ _ forward,
        pos_part-sub_ℕ x y,
        neg_part-sub_ℕ x y,
        pos_part-sub_ℕ x' y',
        neg_part-sub_ℕ x' y',
      ))

clipped :
    (a u budget : ℤ)
    → leb_ℤ (a -ℤ u) budget ≡ true
    → leb_ℤ (sub_time a u) (pos 0) ≡ false
    → leb_ℤ (sub_time a u) budget ≡ true
unfolding sub_time
clipped a u budget below positive = elim (Bool-cases (ltb_ℤ (pos max_int) (a -ℤ u))) [
  | inl e ↦ rw (e) (ground arith)
  | inr e ↦ elim (Bool-cases (ltb_ℤ (a -ℤ u) (negsuc max_int))) [
    | inl f ↦ absurd (let p = (rw (e, f) at positive) in cc)
    | inr f ↦ rw (e, f) below
  ]
]

timeout_within :
    (t u budget d : ℤ)
    → leb_ℤ t u ≡ true
    → SinceReading (t +ℤ budget) d (some u)
    → (ltb_ℤ (pos 0) d ≡ true) × (leb_ℤ d budget ≡ true)
timeout_within t u budget d forward (e, positive) = (
  ground arith,
  rw (e) (clipped (t +ℤ budget) u budget (left_of_budget t u budget forward) (rw (e) at positive)),
)

leb_trans : (t u v : ℤ) → leb_ℤ t u ≡ true → leb_ℤ u v ≡ true → leb_ℤ t v ≡ true
leb_trans t u v h k = ground arith

module _ (t budget : ℤ) where
  event_within :
      (u : ℤ) (c : Call) (a : Answer c) (es : List Event)
      → leb_ℤ t u ≡ true
      → TimeoutKeeps (t +ℤ budget) c (some u)
      → NotBefore (some u) c a
      → KeepsBudget (t +ℤ budget) (reading c a (some u)) es
      → ForwardFrom (reading c a (some u)) es
      → ((v : ℤ)
          → leb_ℤ t v ≡ true
          → KeepsBudget (t +ℤ budget) (some v) es
          → ForwardFrom (some v) es
          → TimeoutsWithin budget es)
      → TimeoutWithin budget c × TimeoutsWithin budget es
  event_within u now a es from_t k f keeps forward later =
      (tt, later a (leb_trans t u a from_t f) keeps forward)
  event_within u (await_signals names d) a es from_t k f keeps forward later =
      (timeout_within t u budget d from_t k, later u from_t keeps forward)
  event_within u _ a es from_t k f keeps forward later = (tt, later u from_t keeps forward)

  kept_within :
      (u : ℤ) (es : List Event)
      → leb_ℤ t u ≡ true
      → KeepsBudget (t +ℤ budget) (some u) es
      → ForwardFrom (some u) es
      → TimeoutsWithin budget es
  kept_within u [] from_t keeps forward = tt
  kept_within u (e ∷ es) from_t (k, keeps) (f, forward) =
      event_within u e.request e.answer es from_t k f keeps forward
        (λ v from_t' keeps' forward'. kept_within v es from_t' keeps' forward')

leb_refl : (t : ℤ) → leb_ℤ t t ≡ true
leb_refl t = ground arith

first_within :
    (budget_ms : ℤ) (c : Call) (a : Answer c) (es : List Event)
    → BudgetFrom budget_ms c a es (BudgetFromStart budget_ms es)
    → ForwardFrom (reading c a none) es
    → (BudgetFromStart budget_ms es → ForwardFrom none es → TimeoutsWithin (millis budget_ms) es)
    → TimeoutWithin (millis budget_ms) c × TimeoutsWithin (millis budget_ms) es
first_within budget_ms now t es keeps forward later =
    (tt, kept_within t (millis budget_ms) t es (leb_refl t) keeps forward)
first_within budget_ms (await_signals names d) a es keeps forward later = absurd keeps
first_within budget_ms _ a es keeps forward later = (tt, later keeps forward)

-- A budget that runs from the first reading of a clock bounds every await.
pub BudgetFromStart-within :
    (budget_ms : ℤ) (es : List Event)
    → BudgetFromStart budget_ms es
    → ClockForward es
    → TimeoutsWithin (millis budget_ms) es
BudgetFromStart-within budget_ms [] keeps forward = tt
BudgetFromStart-within budget_ms (e ∷ es) keeps (f, forward) =
    first_within budget_ms e.request e.answer es keeps forward (BudgetFromStart-within budget_ms es)
