-- ===== src/Dbos/Cancellation.antt =====
-- ports/dbos-transact-py/workflows/cancellation/main.go and
-- ports/dbos-transact-py/workflows/bulkcancel/main.go
pub mod Polling
pub mod Ignoring
pub mod Bulk
use cleat_ports.Base.{ℕ, zero, suc, ◌+◌, ◌/◌, String, ◌++◌}
use cleat_ports.Base.Int.{ℤ, pos, pos_part, ltb_ℤ, is_zero, ◌+ℤ◌, wrap64}
use cleat_ports.Base.Format.{Unicode, quote, show_int}
use cleat_ports.Host.Calls.{
  Error, message, durable_call, durable_sleep_ms, durable_log, poll_cancellation,
}
use cleat_ports.Host.Program.{Handler, exhausted, ask, done, if◌then◌else◌, check, ◌>>=◌, ◌>>◌}

-- `const step = 250`
abbrev pub step : ℕ
step = 250

-- Enough fuel for `for elapsed < ms { ... elapsed += step }`.
abbrev pub rounds : ℤ → ℕ
rounds ms = pos_part ms / step + 2

module _ ⦃u : Unicode⦄ where
  unfoldable pub cancelled_report : String → ℤ → String
  cancelled_report reason elapsed =
      "{\"outcome\":\"cancelled\",\"reason\":"
      ++ quote reason
      ++ ",\"elapsed_ms\":"
      ++ show_int elapsed
      ++ "}"

  unfoldable pub completed_report : ℤ → String
  completed_report elapsed = "{\"outcome\":\"completed\",\"elapsed_ms\":" ++ show_int elapsed ++ "}"

  module _ (ms poll : ℤ) where
    pub wait_loop : ℕ → ℤ → Handler
    wait_loop zero elapsed = exhausted
    wait_loop (suc fuel) elapsed =
        let sleep_on = (do
          ask (durable_sleep_ms (pos step))
          wait_loop fuel (wrap64 (elapsed +ℤ pos step))) in
        if ltb_ℤ elapsed ms
        then if is_zero poll then sleep_on else (do
          polled ← ask poll_cancellation
          if polled.0
              then (do
                ask (durable_log ("cancellable: observed cancellation: " ++ polled.1))
                done (cancelled_report polled.1 elapsed))
              else sleep_on)
        else done (completed_report elapsed)

  unfoldable pub handle_cancellable : ℤ → ℤ → Handler
  unfolding wait_loop cancelled_report completed_report
  handle_cancellable ms poll = wait_loop ms poll (rounds ms) (pos 0)

  unfoldable pub step_failed_report : String → Error → String
  step_failed_report outcome e =
      "{\"outcome\":\"" ++ outcome ++ "\",\"error\":" ++ quote (message e) ++ "}"

  module _ (key : String) (ms : ℤ) where
    abbrev step_two : ℤ → Handler
    step_two elapsed = do
      two ← ask (durable_call "steps" "two" ("{\"key\":" ++ quote (key ++ "-two") ++ "}"))
      check two (λ e. done (step_failed_report "step_two_failed" e))
          (λ _. done (completed_report elapsed))

    pub poll_loop : ℕ → ℤ → Handler
    poll_loop zero elapsed = exhausted
    poll_loop (suc fuel) elapsed =
        if ltb_ℤ elapsed ms
        then (do
          polled ← ask poll_cancellation
          if polled.0
              then (do
                ask (durable_log ("bulk-cancel: observed cancellation: " ++ polled.1))
                done (cancelled_report polled.1 elapsed))
              else (do
                ask (durable_sleep_ms (pos step))
                poll_loop fuel (wrap64 (elapsed +ℤ pos step))))
        else step_two elapsed

  unfoldable pub handle_bulk_cancel_steps : String → ℤ → Handler
  unfolding poll_loop cancelled_report completed_report step_failed_report
  handle_bulk_cancel_steps key ms = do
    one ← ask (durable_call "steps" "one" ("{\"key\":" ++ quote (key ++ "-one") ++ "}"))
    check one (λ e. done (step_failed_report "step_one_failed" e))
        (λ _. poll_loop key ms (rounds ms) (pos 0))
