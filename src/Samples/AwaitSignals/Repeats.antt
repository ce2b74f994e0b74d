-- ===== src/Samples/AwaitSignals/Repeats.antt =====
-- What happens when the list of names repeats one.
use cleat_ports.Base.{[], ℕ, ◌<◌, String, length, ◌≡◌, arith}
use cleat_ports.Base.Int.{ℤ}
use cleat_ports.Base.Text.{split_commas}
use cleat_ports.Base.Format.{Unicode}
use cleat_ports.Host.Calls.{ok}
use cleat_ports.Host.Run.{Host, run, returned}
use cleat_ports.Host.History.{deliveries, distinct}
use cleat_ports.Host.History.Fresh.{AllIn, length-fresh-le}
use cleat_ports.Samples.AwaitSignals.{handle_await_signals, timed_out_report}
use cleat_ports.Samples.AwaitSignals.Order.{arrival_order}

module _ ⦃u : Unicode⦄ where
  -- If the names asked for repeat one, and the host delivers none but these, then a result of
  -- HandleAwaitSignals is always the timed-out one, also when each of the names has arrived.
  pub repeated_name_times_out :
      (h : Host) (s : h.State) (fuel : ℕ) (key names : String) (timeout_ms : ℤ) (text : String)
      → (run h (handle_await_signals fuel key names timeout_ms) s).outcome ≡ returned (ok text)
      → AllIn
          (split_commas names)
          (deliveries (run h (handle_await_signals fuel key names timeout_ms) s).trace)
      → length (distinct (split_commas names)) < length (split_commas names)
      → text
        ≡ timed_out_report key
            (distinct (deliveries (run h (handle_await_signals fuel key names timeout_ms) s).trace))
  repeated_name_times_out h s fuel key names timeout_ms text e only repeats = ground (
    arith,
    arrival_order h s fuel key names timeout_ms text e,
    length-fresh-le (split_commas names) []
        (deliveries (run h (handle_await_signals fuel key names timeout_ms) s).trace) only,
  )
