-- ===== src/Dbos/Sends.antt =====
-- ports/dbos-transact-py/workflows: send, sendaftersleep, scheduleinvoke, detached, defercleanup and
-- deferdeadletter
use cleat_ports.Base.{String, ◌++◌}
use cleat_ports.Base.Int.{ℤ}
use cleat_ports.Base.Format.{Unicode, quote}
use cleat_ports.Host.Calls.{
  wrap, Deferred, deferred_send, durable_call_with_options, durable_send, durable_sleep_ms,
  durable_defer_func, run_detached, schedule_invoke,
}
use cleat_ports.Dbos.Calls.{constant_policy, hopeless_request}
use cleat_ports.Dbos.Fixture.{flaky_request}
use cleat_ports.Host.Program.{Handler, ask, done, fail, check, ◌>>=◌, ◌>>◌}

module _ ⦃u : Unicode⦄ where
  unfoldable pub handle_send : String → ℤ → Handler
  handle_send key sleep_ms = do
    sent ← ask (durable_send "flaky" "op" (flaky_request key))
    check sent (λ e. fail e) (λ _. do ask (durable_sleep_ms sleep_ms); done "{\"sent\":true}")

  unfoldable pub handle_send_after_sleep : String → String → ℤ → Handler
  handle_send_after_sleep early_key late_key sleep_ms = do
    early ← ask (durable_send "flaky" "op" (flaky_request early_key))
    check early (λ e. fail e)
        (λ _. do
          ask (durable_sleep_ms sleep_ms)
          late ← ask (durable_send "flaky" "op" (flaky_request late_key))
          check late (λ e. fail e) (λ _. done "{\"sent\":2}"))

  unfoldable pub handle_schedule_invoke : String → ℤ → ℤ → Handler
  handle_schedule_invoke invoke_key delay_ms sleep_ms = do
    scheduled ← ask (schedule_invoke "flaky" "op" (flaky_request invoke_key) delay_ms)
    check scheduled (λ e. fail (wrap "ScheduleInvoke: " e))
        (λ _. do ask (durable_sleep_ms sleep_ms); done "{\"scheduled\":true}")

  unfoldable pub handle_detached : String → ℤ → Handler
  handle_detached key seq = do
    started ← ask (
        run_detached "retrycall" (
          "{\"service\":\"flaky\",\"key\":"
          ++ quote key
          ++ ",\"attempts\":1,\"intervalMs\":100,\"failTimes\":0,\"failStatus\":0}"))
    check started (λ e. fail (wrap "run detached: " e)) (λ _. done "{\"outcome\":\"requested\"}")

  -- The closure that each of the two workflows registers.
  abbrev pub cleanup : String → Deferred
  cleanup defer_key = deferred_send "flaky" "op" (flaky_request defer_key)

  unfoldable pub handle_defer_cleanup : String → String → ℤ → Handler
  handle_defer_cleanup body_key defer_key sleep_ms = do
    sent ← ask (durable_send "flaky" "op" (flaky_request body_key))
    check sent (λ e. fail e)
        (λ _. do
          registered ← ask (durable_defer_func (cleanup defer_key))
          check registered (λ e. fail e)
              (λ _. do ask (durable_sleep_ms sleep_ms); done "{\"finished\":true}"))

  unfoldable pub handle_defer_dead_letter : String → String → String → ℤ → ℤ → Handler
  handle_defer_dead_letter service body_key defer_key attempts interval_ms = do
    sent ← ask (durable_send "flaky" "op" (flaky_request body_key))
    check sent (λ e. fail e)
        (λ _. do
          registered ← ask (durable_defer_func (cleanup defer_key))
          check registered (λ e. fail e)
              (λ _. do
                called ← ask (
                    durable_call_with_options (constant_policy attempts interval_ms) service "op"
                      (hopeless_request (defer_key ++ "-call")))
                check called (λ e. fail (wrap "the call never succeeded: " e))
                    (λ _. done "{\"outcome\":\"unexpectedly succeeded\"}")))
