-- ===== src/Samples/AwaitSignals/Budget.antt =====
-- The await-signals workflow's budget and its end.
use cleat_ports.Base.{ℕ, zero, suc, String, List, [], Option, some, append, refl}
use cleat_ports.Base.Int.{ℤ, ◌+ℤ◌, millis}
use cleat_ports.Base.Format.{Unicode}
use cleat_ports.Host.Run.{Host, run}
use cleat_ports.Host.Logic.{
  Ensures, Ensures-mono, Ensures-ret, Ensures-exhausted, Ensures-call, Ensures-if,
  Ensures-check_field, run-Ensures,
}
use cleat_ports.Host.History.{KeepsBudget, BudgetFromStart}
use cleat_ports.Host.History.Timeouts.{ClockForward, TimeoutsWithin, BudgetFromStart-within}
use cleat_ports.Samples.AwaitSignals.{await_loop, handle_await_signals}

module _ ⦃u : Unicode⦄ where
  module _ (key : String) (wanted : List String) (give_up_at : ℤ) where
    await_loop-KeepsBudget :
        (fuel : ℕ) (seen order : List String) (last : Option ℤ)
        → Ensures
            (λ tr o. KeepsBudget give_up_at last tr)
            (await_loop key wanted give_up_at fuel seen order)
    unfolding await_loop
    await_loop-KeepsBudget zero seen order last = Ensures-exhausted tt
    await_loop-KeepsBudget (suc fuel) seen order last =
        Ensures-if _ _ _
          (λ short. Ensures-call _ _ tt λ t.
            Ensures-if _ _ _ (λ late. Ensures-ret _ (tt, tt))
              λ early.
                Ensures-call _ _ (tt, tt)
                  λ r.
                    Ensures-check_field _ _ _ (λ e f. Ensures-ret _ (tt, ((refl, early), tt)))
                      λ fine.
                        Ensures-if _ _ _ (λ out. Ensures-ret _ (tt, ((refl, early), tt)))
                          λ took.
                            Ensures-if _ _ _
                              (λ old.
                                Ensures-mono (await_loop-KeepsBudget fuel seen order (some t))
                                  λ tr o ih. (tt, ((refl, early), ih)))
                              λ new.
                                Ensures-call _ _ (tt, ((refl, early), tt))
                                  λ a.
                                    Ensures-mono
                                      (await_loop-KeepsBudget fuel (append seen r.name)
                                        (append order r.name) (some t))
                                      λ tr o ih. (tt, ((refl, early), (tt, ih))))
          λ full. Ensures-call _ _ tt λ a. Ensures-ret _ (tt, tt)

  -- In every run of HandleAwaitSignals, the timeout of every await is positive, and is what the
  -- clock's reading just before it leaves of one deadline, the first reading plus the timeout: no
  -- delivery, new or repeated, moves the deadline.
  pub total_timeout :
      (h : Host) (s : h.State) (fuel : ℕ) (key names : String) (timeout_ms : ℤ)
      → BudgetFromStart timeout_ms (run h (handle_await_signals fuel key names timeout_ms) s).trace
  unfolding handle_await_signals
  total_timeout h s fuel key names timeout_ms =
      run-Ensures h {P = λ tr o. BudgetFromStart timeout_ms tr} s (
        Ensures-if _ _ _ (λ none_given. Ensures-ret _ tt)
          λ given. Ensures-call _ _ tt λ a. Ensures-call _ _ tt λ t.
            Ensures-mono (await_loop-KeepsBudget key _ (t +ℤ millis timeout_ms) fuel [] [] (some t))
              λ tr o k. k)

  -- In every run of HandleAwaitSignals in which no reading of the clock is before an earlier one, the
  -- timeout of every await is above zero, and at most the budget that the first reading started:
  -- the given milliseconds as a Duration.
  pub await_timeouts-Within :
      (h : Host) (s : h.State) (fuel : ℕ) (key names : String) (timeout_ms : ℤ)
      → ClockForward (run h (handle_await_signals fuel key names timeout_ms) s).trace
      → TimeoutsWithin
          (millis timeout_ms)
          (run h (handle_await_signals fuel key names timeout_ms) s).trace
  await_timeouts-Within h s fuel key names timeout_ms =
      BudgetFromStart-within timeout_ms _ (total_timeout h s fuel key names timeout_ms)
