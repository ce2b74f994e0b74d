-- ===== src/Samples/SignalCounter/Budget.antt =====
-- The signal counter's budget and its end.
use cleat_ports.Base.{ℕ, zero, suc, ◌<◌, String, List, [], Option, some, append, ◌≢◌, refl, arith}
use cleat_ports.Base.Int.{ℤ, ◌+ℤ◌, millis}
use cleat_ports.Base.Format.{Unicode}
use cleat_ports.Host.Calls.{now, set_query_state}
use cleat_ports.Host.Run.{Host, run, out_of_fuel}
use cleat_ports.Host.Logic.{
  Ensures, Ensures-mono, Ensures-ret, Ensures-exhausted, Ensures-call, Ensures-if,
  Ensures-check_field, run-Ensures,
}
use cleat_ports.Host.History.{KeepsBudget, BudgetFromStart}
use cleat_ports.Host.History.Timeouts.{ClockForward, TimeoutsWithin, BudgetFromStart-within}
use cleat_ports.Host.Progress.{
  Reaches, Reaches-ret, Reaches-call, Reaches-if, Reaches-check_field, Draining,
}
use cleat_ports.Samples.SignalCounter.{count_loop, handle_signal_counter}

module _ ⦃u : Unicode⦄ where
  module _ (key : String) (give_up_at : ℤ) where
    count_loop-KeepsBudget :
        (fuel count : ℕ) (seen : List String) (last : Option ℤ)
        → Ensures
            (λ tr o. KeepsBudget give_up_at last tr)
            (count_loop key give_up_at fuel count seen)
    unfolding count_loop
    count_loop-KeepsBudget zero count seen last = Ensures-exhausted tt
    count_loop-KeepsBudget (suc fuel) count seen last = Ensures-call _ _ tt λ t.
        Ensures-if _ _ _ (λ late. Ensures-ret _ (tt, tt))
          λ early.
            Ensures-call _ _ (tt, tt)
              λ r.
                Ensures-check_field _ _ _ (λ e f. Ensures-ret _ (tt, ((refl, early), tt)))
                  λ fine.
                    Ensures-if _ _ _ (λ out. Ensures-ret _ (tt, ((refl, early), tt)))
                      λ took.
                        Ensures-if _ _ _
                          (λ fin.
                            Ensures-call _ _ (tt, ((refl, early), tt))
                              λ a. Ensures-ret _ (tt, ((refl, early), (tt, tt))))
                          λ more.
                            Ensures-call _ _ (tt, ((refl, early), tt))
                              λ a.
                                Ensures-mono
                                  (count_loop-KeepsBudget fuel (suc count) (append seen r.name)
                                    (some t))
                                  λ tr o ih. (tt, ((refl, early), (tt, ih)))

    module _ (h : Host) (d : Draining h) where
      count_loop_ends :
          (fuel count : ℕ) (seen : List String) (s : h.State)
          → d.pending s < fuel
          → Reaches h (λ o. o ≢ out_of_fuel) (count_loop key give_up_at fuel count seen) s
      unfolding count_loop
      count_loop_ends zero count seen s fits = absurd (omega arith)
      count_loop_ends (suc fuel) count seen s fits =
          Reaches-call _ _ (λ e. cc)
            λ t s₁ now₁.
              Reaches-if _ _ _ (λ late. Reaches-ret _ λ e. cc)
                λ early.
                  Reaches-call _ _ (λ e. cc)
                    λ r s₂ got.
                      Reaches-check_field _ _ _ (λ e f. Reaches-ret _ λ x. cc)
                        λ fine.
                          Reaches-if _ _ _ (λ out. Reaches-ret _ λ x. cc)
                            λ took.
                              Reaches-if _ _ _
                                (λ fin. Reaches-call _ _ (λ e. cc) λ a s₃ q. Reaches-ret _ λ x. cc)
                                λ more.
                                  Reaches-call _ _ (λ e. cc)
                                    λ a s₃ told.
                                      count_loop_ends fuel (suc count) (append seen r.name) s₃ (
                                        omega (
                                          arith,
                                          d.kept s now t s₁ now₁,
                                          d.taken s₁ _ _ r s₂ got (ground arith),
                                          d.kept s₂ (set_query_state _ _) a s₃ told,
                                        ))

  -- In every run of HandleSignalCounter, the timeout of every await is positive, and is what the
  -- clock's reading just before it leaves of one deadline, the first reading plus the budget: no
  -- delivery moves the deadline.
  pub total_budget :
      (h : Host) (s : h.State) (fuel : ℕ) (key : String) (budget_ms : ℤ)
      → BudgetFromStart budget_ms (run h (handle_signal_counter fuel key budget_ms) s).trace
  unfolding handle_signal_counter
  total_budget h s fuel key budget_ms = run-Ensures h {P = λ tr o. BudgetFromStart budget_ms tr} s (
      Ensures-call _ _ tt λ t. Ensures-call _ _ tt λ a.
        Ensures-call _ _ (tt, tt)
          λ b.
            Ensures-mono (count_loop-KeepsBudget key (t +ℤ millis budget_ms) fuel 0 [] (some t))
              λ tr o k. (tt, (tt, k)))

  -- In every run of HandleSignalCounter in which no reading of the clock is before an earlier one, the
  -- timeout of every await is above zero, and at most the budget that the first reading started:
  -- the given milliseconds as a Duration.
  pub counter_timeouts-Within :
      (h : Host) (s : h.State) (fuel : ℕ) (key : String) (budget_ms : ℤ)
      → ClockForward (run h (handle_signal_counter fuel key budget_ms) s).trace
      → TimeoutsWithin (millis budget_ms) (run h (handle_signal_counter fuel key budget_ms) s).trace
  counter_timeouts-Within h s fuel key budget_ms =
      BudgetFromStart-within budget_ms _ (total_budget h s fuel key budget_ms)

  -- Against a host that has fewer signals to deliver than there are rounds of fuel, the loop of
  -- HandleSignalCounter ends before its fuel does.
  pub ends_when_drained :
      (h : Host) (d : Draining h) (s : h.State) (fuel : ℕ) (key : String) (budget_ms : ℤ)
      → d.pending s < fuel
      → (run h (handle_signal_counter fuel key budget_ms) s).outcome ≢ out_of_fuel
  unfolding handle_signal_counter
  ends_when_drained h d s fuel key budget_ms fits = Reaches.at (
      Reaches-call _ _ (λ e. cc)
        λ t s₁ q₁.
          Reaches-call _ _ (λ e. cc)
            λ a s₂ q₂.
              Reaches-call _ _ (λ e. cc)
                λ b s₃ q₃. count_loop_ends key _ h d fuel 0 [] s₃ (
                  omega (
                    arith,
                    d.kept s now t s₁ q₁,
                    d.kept s₁ (set_query_state _ _) a s₂ q₂,
                    d.kept s₂ (set_query_state _ _) b s₃ q₃,
                  )))
