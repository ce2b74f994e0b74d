-- ===== src/Tests/Samples.antt =====
-- Runs of the samples against the example hosts.
use cleat_ports.Base.{append, [], ◌∷◌, false, ◌≡◌, ◌≢◌, refl, arith}
use cleat_ports.Base.Int.{pos, millis, ◌+ℤ◌, sub_time}
use cleat_ports.Base.Text.{contains, join, split_commas}
use cleat_ports.Base.Format.{show_bool, quote, decimal, latin_1}
use cleat_ports.Host.Program.{branching}
use cleat_ports.Host.Run.{run, out_of_fuel}
use cleat_ports.Host.History.{BudgetFromStart}
use cleat_ports.Host.History.Timeouts.{TimeoutsWithin}
use cleat_ports.Samples.SignalCounter.{handle_signal_counter, report}
use cleat_ports.Samples.SignalCounter.Counts.{report_exact}
use cleat_ports.Samples.SignalCounter.Budget.{total_budget}
use cleat_ports.Samples.AwaitSignals.{handle_await_signals, timed_out_report, complete_report}
use cleat_ports.Samples.AwaitSignals.Order.{arrival_order}
use cleat_ports.Samples.AwaitSignals.Budget.{await_timeouts-Within}
use cleat_ports.Samples.AwaitSignals.Repeats.{repeated_name_times_out}
use cleat_ports.Samples.SignalCounter.Budget.{ends_when_drained}
use cleat_ports.Tests.{Machine, machine, fresh_machine, ticker, ticker_drains}

abbrev two_ticks : Machine
two_ticks = record fresh_machine { signals = "tick" ∷ "tick" ∷ "done" ∷ [] }

report_exact_example :
    "{\"key\":\"k\",\"count\":2,\"timedOut\":false,\"seen\":\"tick,tick,done\"}"
    ≡ report "k" 2 false ("tick" ∷ "tick" ∷ "done" ∷ [])
unfolding handle_signal_counter run branching contains append report show_bool quote decimal join
    millis sub_time ◌+ℤ◌
report_exact_example =
    report_exact machine two_ticks 5 "k" (pos 1000)
      "{\"key\":\"k\",\"count\":2,\"timedOut\":false,\"seen\":\"tick,tick,done\"}" refl

total_budget_example :
    BudgetFromStart
      (pos 1000)
      (run machine (handle_signal_counter 5 "k" (pos 1000)) two_ticks).trace
total_budget_example = total_budget machine two_ticks 5 "k" (pos 1000)

ends_when_drained_example :
    (run ticker (handle_signal_counter 3 "k" (pos 1000)) 2).outcome ≢ out_of_fuel
unfolding ticker_drains
ends_when_drained_example = ends_when_drained ticker ticker_drains 2 3 "k" (pos 1000) (omega arith)

abbrev b_then_a : Machine
b_then_a = record fresh_machine { signals = "b" ∷ "b" ∷ "a" ∷ [] }

arrival_order_example : "{\"key\":\"k\",\"order\":\"b,a\"}" ≡ complete_report "k" ("b" ∷ "a" ∷ [])
unfolding handle_await_signals run branching contains append complete_report quote join split_commas
    millis sub_time ◌+ℤ◌
arrival_order_example =
    arrival_order machine b_then_a 5 "k" "a,b" (pos 1000) "{\"key\":\"k\",\"order\":\"b,a\"}" refl

abbrev only_a : Machine
only_a = record fresh_machine { signals = "a" ∷ [] }

repeated_name_times_out_example :
    "{\"key\":\"k\",\"timedOut\":true,\"seen\":\"a\"}" ≡ timed_out_report "k" ("a" ∷ [])
unfolding handle_await_signals run branching contains append timed_out_report quote join
    split_commas millis sub_time ◌+ℤ◌
repeated_name_times_out_example =
    repeated_name_times_out machine only_a 5 "k" "a,a" (pos 1000)
      "{\"key\":\"k\",\"timedOut\":true,\"seen\":\"a\"}" refl (refl, tt) (omega arith)

await_timeouts-Within_example :
    TimeoutsWithin
      (millis (pos 1000))
      (run machine (handle_await_signals 5 "k" "a,b" (pos 1000)) b_then_a).trace
unfolding handle_await_signals run branching contains append quote join split_commas millis sub_time
    ◌+ℤ◌
await_timeouts-Within_example =
    await_timeouts-Within machine b_then_a 5 "k" "a,b" (pos 1000)
      (tt, (tt, (refl, (tt, (tt, (refl, (tt, (refl, (tt, (tt, (tt, tt)))))))))))
