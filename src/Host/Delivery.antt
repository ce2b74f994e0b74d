-- ===== src/Host/Delivery.antt =====
-- Hosts that have a queue of signals, hand over its first one at an await that asks for its name, and
-- read the clock within a window.
use cleat_ports.Base.{
  ◌+◌, ◌<◌, ltb, ℕ, arith, String, false, true, List, ◌∷◌, none, ◌≡◌, refl, Bool-cases, inl, inr,
}
use cleat_ports.Base.Int.{
  ℤ, pos, negsuc, max_int, sub_time, pos_part, neg_part, sub_ℕ, leb_ℤ, ltb_ℤ, ◌+ℤ◌, ◌-ℤ◌,
}
use cleat_ports.Base.Text.{contains}
use cleat_ports.Host.Calls.{Call, Answer, SignalResult, now, set_query_state, await_signals}
use cleat_ports.Host.Program.{Prog, call}
use cleat_ports.Host.Run.{Host, resume, Outcome, run}
use cleat_ports.Host.History.Timeouts.{pos_part-sub_ℕ, neg_part-sub_ℕ, le-leb}
use cleat_ports.Host.Progress.{Reaches}

module _ {h : Host} {A : Type 0} {P : Outcome A → Type 0} where
  -- A call that the host answers.
  pub Reaches-answered :
      {c : Call} {k : Answer c → Prog A} {s : h.State} (a : Answer c) (s' : h.State)
      → h.react s c ≡ resume a s'
      → Reaches h P (k a) s'
      → Reaches h P (call c k) s
  unfolding run
  Reaches-answered a s' e r = record { at = rw (e) r.at }

abbrev pub delivery : String → SignalResult
delivery name = record { name = name; timed_out = false; failure = none }

pub record Delivering (h : Host) (opens closes : ℤ) : Type 0 where
  pub queue : h.State → List String
  pub reads :
      (s : h.State)
      → (t : ℤ) × (s' : h.State) × (h.react s now ≡ resume t s')
        × (queue s' ≡ queue s)
        × (leb_ℤ opens t ≡ true)
        × (ltb_ℤ t closes ≡ true)
  pub publishes :
      (s : h.State) (key value : String)
      → (s' : h.State) × (h.react s (set_query_state key value) ≡ resume tt s')
        × (queue s' ≡ queue s)
  pub hands_over :
      (s : h.State) (names : List String) (d : ℤ) (n : String) (rest : List String)
      → queue s ≡ n ∷ rest
      → contains names n ≡ true
      → (s' : h.State) × (h.react s (await_signals names d) ≡ resume (delivery n) s')
        × (queue s' ≡ rest)

ltb-true : (m n : ℕ) → m < n → ltb m n ≡ true
ltb-true m n h = ground arith

lt-ltb : (m n : ℕ) → ltb m n ≡ true → m < n
lt-ltb m n h = ground arith

-- What a window no longer than the budget leaves of it.
window_left :
    (opens closes t u budget : ℤ)
    → leb_ℤ opens t ≡ true
    → ltb_ℤ u closes ≡ true
    → leb_ℤ (closes -ℤ opens) budget ≡ true
    → ltb_ℤ (pos 0) (t +ℤ budget -ℤ u) ≡ true
unfolding ◌+ℤ◌ ◌-ℤ◌
window_left opens closes t u budget opened early window =
    let x = pos_part t + pos_part budget in
    let y = neg_part t + neg_part budget in
    let deadline = sub_ℕ x y in
    let x' = pos_part deadline + neg_part u in
    let y' = neg_part deadline + pos_part u in
    let v = pos_part closes + neg_part opens in
    let w = neg_part closes + pos_part opens in
    let after = le-leb _ _ opened in
    let within = le-leb _ _ window in
    ltb-true _ _ (
      omega (
        arith,
        after,
        within,
        lt-ltb _ _ early,
        pos_part-sub_ℕ v w,
        neg_part-sub_ℕ v w,
        pos_part-sub_ℕ x y,
        neg_part-sub_ℕ x y,
        pos_part-sub_ℕ x' y',
        neg_part-sub_ℕ x' y',
      ))

-- A reading of the clock in such a window leaves a positive timeout.
pub remaining_positive :
    (opens closes t u budget : ℤ)
    → leb_ℤ opens t ≡ true
    → ltb_ℤ u closes ≡ true
    → leb_ℤ (closes -ℤ opens) budget ≡ true
    → leb_ℤ (sub_time (t +ℤ budget) u) (pos 0) ≡ false
unfolding sub_time
remaining_positive opens closes t u budget opened early window =
    let more = window_left opens closes t u budget opened early window in
    elim (Bool-cases (ltb_ℤ (pos max_int) (t +ℤ budget -ℤ u))) [
      | inl e ↦ rw (e) refl
      | inr e ↦ elim (Bool-cases (ltb_ℤ (t +ℤ budget -ℤ u) (negsuc max_int))) [
        | inl f ↦ absurd (ground arith)
        | inr f ↦ rw (e, f) (ground arith)
      ]
    ]
