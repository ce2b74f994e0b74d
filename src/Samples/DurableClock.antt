-- ===== src/Samples/DurableClock.antt =====
-- ports/samples-go/workflows/durableclock/main.go
pub mod Burn
use cleat_ports.Base.{ℕ, zero, suc, ◌+◌, ◌%◌, ◌^◌, String, ◌++◌}
use cleat_ports.Base.Int.{ℤ}
use cleat_ports.Base.Format.{Unicode, quote, decimal, show_int}
use cleat_ports.Host.Calls.{wrap, now_ms, durable_call, durable_sleep_ms}
use cleat_ports.Host.Program.{Handler, ask, done, fail, check, ◌>>=◌, ◌>>◌}

-- `for i := 0; i < iterations; i++ { sum += i % 7 }`, by the iterations left
pub burn_from : ℕ → ℕ → ℕ → ℕ
burn_from zero i sum = sum
burn_from (suc left) i sum = burn_from left (i + 1) ((sum + i % 7) % 2 ^ 64)

-- `burn` for counts that are not negative, the only one in the source being 2000000.
unfoldable pub burn : ℕ → ℕ
unfolding burn_from
burn iterations = burn_from iterations 0 0

module _ ⦃u : Unicode⦄ where
  unfoldable pub clock_report : String → ℤ → ℤ → ℤ → ℤ → ℕ → String
  clock_report key t0 t1 t2 t3 burned =
      "{\"key\":"
      ++ quote key
      ++ ",\"t0\":"
      ++ show_int t0
      ++ ",\"t1\":"
      ++ show_int t1
      ++ ",\"t2\":"
      ++ show_int t2
      ++ ",\"t3\":"
      ++ show_int t3
      ++ ",\"burned\":"
      ++ decimal burned
      ++ "}"

  unfoldable pub handle_durable_clock : String → ℤ → Handler
  unfolding clock_report
  handle_durable_clock key sleep_ms = do
    t0 ← ask now_ms
    let burned = burn 2000000
    t1 ← ask now_ms
    marked ← ask (durable_call "clock" "Mark" ("{\"key\":" ++ quote key ++ "}"))
    check marked (λ e. fail (wrap "mark: " e))
        (λ _. do
          t2 ← ask now_ms
          ask (durable_sleep_ms sleep_ms)
          t3 ← ask now_ms
          done (clock_report key t0 t1 t2 t3 burned))
