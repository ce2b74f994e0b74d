-- ===== src/Dbos/Chain.antt =====
-- ports/dbos-transact-py/workflows/continueasnew/main.go and
-- ports/dbos-transact-py/workflows/cansignal/main.go
pub mod Announced
pub mod Input
pub mod Bound
use cleat_ports.Base.{String, ◌++◌, [], ◌∷◌}
use cleat_ports.Base.Int.{ℤ, pos, ltb_ℤ, is_zero, ◌-ℤ◌, wrap64}
use cleat_ports.Base.Format.{Unicode, quote, show_int}
use cleat_ports.Host.Calls.{
  wrap, Delivery, durable_await_signals, durable_call, continue_as_new, workflow_id,
}
use cleat_ports.Dbos.Fixture.{flaky_request, error_report}
use cleat_ports.Host.Program.{Handler, ask, done, fail, if◌then◌else◌, check, ◌>>=◌}

module _ ⦃u : Unicode⦄ where
  unfoldable pub chain_input : String → ℤ → String
  chain_input key remaining =
      "{\"key\":" ++ quote key ++ ",\"remaining\":" ++ show_int remaining ++ "}"

  pub finished_report : String → String
  finished_report id = "{\"outcome\":\"finished\",\"workflowId\":" ++ quote id ++ "}"

  unfoldable pub handle_continue_as_new : String → ℤ → Handler
  unfolding finished_report
  handle_continue_as_new key remaining = do
    announced ← ask (durable_call "flaky" "op" (flaky_request key))
    check announced (λ e. fail (wrap "announce: " e))
        (λ _.
          if ltb_ℤ (pos 1) remaining
          then (do
            continued ← ask (continue_as_new (chain_input key (wrap64 (remaining -ℤ pos 1))))
            check continued (λ e. done (error_report e))
                (λ _. done "{\"outcome\":\"continue-did-not-take-effect\"}"))
          else (do id ← ask workflow_id; done (finished_report id)))

  unfoldable pub can_signal_input : String → ℤ → String
  can_signal_input key timeout_ms =
      "{\"key\":" ++ quote key ++ ",\"timeoutMs\":" ++ show_int timeout_ms ++ ",\"second\":1}"

  pub carried_report : Delivery → String
  carried_report d =
      "{\"outcome\":\"carried\",\"name\":"
      ++ quote d.name
      ++ ",\"payload\":"
      ++ quote d.payload
      ++ ",\"iteration\":2}"

  pub second_iteration : String → ℤ → Handler
  second_iteration key timeout_ms = do
    announced ← ask (durable_call "flaky" "op" (flaky_request (key ++ "-second")))
    check announced (λ e. fail (wrap "announce second: " e))
        (λ _. do
          got ← ask (durable_await_signals ("carried" ∷ []) timeout_ms)
          check got (λ e. done (error_report e))
              (λ d.
                if d.timed_out
                then done "{\"outcome\":\"timedout\",\"iteration\":2}"
                else done (carried_report d)))

  pub first_iteration : String → ℤ → Handler
  first_iteration key timeout_ms = do
    announced ← ask (durable_call "flaky" "op" (flaky_request (key ++ "-first")))
    check announced (λ e. fail (wrap "announce first: " e))
        (λ _. do
          got ← ask (durable_await_signals ("go" ∷ []) timeout_ms)
          check got (λ e. done (error_report e))
              (λ d.
                if d.timed_out then done "{\"outcome\":\"never-released\",\"iteration\":1}" else (do
                  continued ← ask (continue_as_new (can_signal_input key timeout_ms))
                  check continued (λ e. done (error_report e))
                      (λ _.
                        done "{\"outcome\":\"continue-did-not-take-effect\",\"iteration\":1}"))))

  unfoldable pub handle_can_signal : String → ℤ → ℤ → Handler
  unfolding first_iteration second_iteration carried_report
  handle_can_signal key timeout_ms second =
      if is_zero second then first_iteration key timeout_ms else second_iteration key timeout_ms
