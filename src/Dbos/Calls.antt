-- ===== src/Dbos/Calls.antt =====
-- ports/dbos-transact-py/workflows: retry, deadletter, deadletteropaque, parallelunit, prioritymark,
-- recovery and minversion
pub mod Recovery
use cleat_ports.Base.{ltb, String, ◌++◌}
use mathlib.Core.Bool.{cond}
use cleat_ports.Base.Int.{ℤ, pos, negsuc, millis}
use cleat_ports.Base.Format.{Unicode, quote, decimal, show_int}
use cleat_ports.Host.Calls.{
  Error, new, wrap, message, RetryPolicy, durable_call, durable_call_with_options, durable_sleep_ms,
  durable_sleep, version, min_version,
}
use cleat_ports.Dbos.Fixture.{flaky_request}
use cleat_ports.Host.Program.{Handler, ask, done, fail, check, ◌>>=◌, ◌>>◌}

-- The retry policy of each workflow: constant intervals, MaxInterval set to the same value.
unfoldable pub constant_policy : ℤ → ℤ → RetryPolicy
constant_policy attempts interval_ms = record {
  max_attempts = attempts;
  initial_interval = millis interval_ms;
  max_interval = millis interval_ms;
}

-- `%02d`
unfoldable pub two_digits : ℤ → String
two_digits (pos n) = cond (ltb n 10) ("0" ++ decimal n) (decimal n)
two_digits (negsuc n) = show_int (negsuc n)

module _ ⦃u : Unicode⦄ where
  unfoldable pub retry_request : String → ℤ → ℤ → String
  retry_request key fail_times fail_status =
      "{\"key\":"
      ++ quote key
      ++ ",\"fail_times\":"
      ++ show_int fail_times
      ++ ",\"fail_status\":"
      ++ show_int fail_status
      ++ "}"

  -- `{"key":%q,"fail_times":999}`
  unfoldable pub hopeless_request : String → String
  hopeless_request key = "{\"key\":" ++ quote key ++ ",\"fail_times\":999}"

  pub failed_report : Error → String
  failed_report e = "{\"outcome\":\"failed\",\"error\":" ++ quote (message e) ++ "}"

  pub succeeded_report : String → String
  succeeded_report resp = "{\"outcome\":\"succeeded\",\"response\":" ++ resp ++ "}"

  unfoldable pub handle_retry : String → String → ℤ → ℤ → ℤ → ℤ → Handler
  unfolding failed_report succeeded_report
  handle_retry service key attempts interval_ms fail_times fail_status = do
    called ← ask (
        durable_call_with_options (constant_policy attempts interval_ms) service "op"
          (retry_request key fail_times fail_status))
    check called (λ e. done (failed_report e)) (λ resp. done (succeeded_report resp))

  unfoldable pub handle_dead_letter : String → String → ℤ → ℤ → Handler
  handle_dead_letter service key attempts interval_ms = do
    called ← ask (
        durable_call_with_options (constant_policy attempts interval_ms) service "op"
          (hopeless_request key))
    check called (λ e. fail (wrap "the call never succeeded: " e))
        (λ _. done "{\"outcome\":\"unexpectedly succeeded\"}")

  unfoldable pub handle_dead_letter_opaque : String → String → ℤ → ℤ → Handler
  handle_dead_letter_opaque service key attempts interval_ms = do
    called ← ask (
        durable_call_with_options (constant_policy attempts interval_ms) service "op"
          (hopeless_request key))
    check called (λ _. fail (new "could not reach the billing provider"))
        (λ _. done "{\"outcome\":\"unexpectedly succeeded\"}")

  unfoldable pub handle_parallel_unit : String → ℤ → Handler
  unfolding failed_report succeeded_report
  handle_parallel_unit key delay_ms = do
    called ← ask (
        durable_call "par" "unit"
          ("{\"key\":" ++ quote key ++ ",\"delay_ms\":" ++ show_int delay_ms ++ "}"))
    check called (λ e. done (failed_report e)) (λ resp. done (succeeded_report resp))

  unfoldable pub handle_priority_mark : String → ℤ → ℤ → Handler
  handle_priority_mark key priority hold_ms = do
    marked ← ask (
        durable_call "queue" ("p" ++ two_digits priority)
          ("{\"key\":" ++ quote key ++ ",\"delay_ms\":" ++ show_int hold_ms ++ "}"))
    check marked (λ e. fail (wrap "marking: " e))
        (λ _. done ("{\"key\":" ++ quote key ++ ",\"priority\":" ++ show_int priority ++ "}"))

  unfoldable pub handle_recovery : String → ℤ → Handler
  handle_recovery key sleep_ms = do
    first ← ask (durable_call "flaky" "op" (flaky_request (key ++ "-before")))
    check first (λ e. fail e)
        (λ before. do
          ask (durable_sleep_ms sleep_ms)
          second ← ask (durable_call "flaky" "op" (flaky_request (key ++ "-after")))
          check second (λ e. fail e)
              (λ after. done ("{\"before\":" ++ before ++ ",\"after\":" ++ after ++ "}")))

  unfoldable pub handle_min_version : String → ℤ → Handler
  handle_min_version key sleep_ms = do
    before_version ← ask version
    before_min ← ask min_version
    announced ← ask (durable_call "flaky" "op" (flaky_request (key ++ "-first")))
    check announced (λ e. fail (wrap "announce: " e))
        (λ _. do
          ask (durable_sleep (millis sleep_ms))
          after_version ← ask version
          after_min ← ask min_version
          done (
              "{\"beforeVersion\":"
              ++ show_int before_version
              ++ ",\"beforeMin\":"
              ++ show_int before_min
              ++ ",\"afterVersion\":"
              ++ show_int after_version
              ++ ",\"afterMin\":"
              ++ show_int after_min
              ++ "}"))
