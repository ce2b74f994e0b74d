-- ===== src/Dbos/Signals.antt =====
-- ports/dbos-transact-py/workflows: signalorder, signalreceiver, signalsender, signaltimeout and
-- pollsignal
pub mod Order
use cleat_ports.Base.{String, ◌++◌, Bool, [], ◌∷◌}
use cleat_ports.Base.Int.{ℤ, millis}
use cleat_ports.Base.Format.{Unicode, quote, show_bool}
use cleat_ports.Host.Calls.{
  Error, wrap, message, Delivery, durable_await_signals, poll_signal, signal_workflow, durable_call,
  durable_sleep,
}
use cleat_ports.Dbos.Fixture.{flaky_request, error_report}
use cleat_ports.Host.Program.{Handler, ask, done, fail, if◌then◌else◌, check, ◌>>=◌, ◌>>◌}

module _ ⦃u : Unicode⦄ where
  unfoldable pub order_report : Delivery → Delivery → Delivery → String
  order_report d1 d2 d3 =
      "{\"outcome\":\"read\",\"names\":["
      ++ quote d1.name
      ++ ","
      ++ quote d2.name
      ++ ","
      ++ quote d3.name
      ++ "],\"payloads\":["
      ++ quote d1.payload
      ++ ","
      ++ quote d2.payload
      ++ ","
      ++ quote d3.payload
      ++ "]}"

  -- `fmt.Sprintf("await topic: %v", err)` in the error report
  abbrev at_report : String → Error → String
  at_report text e = "{\"outcome\":\"error\",\"error\":" ++ quote (text ++ message e) ++ "}"

  unfoldable pub handle_signal_order : String → ℤ → Handler
  unfolding order_report
  handle_signal_order key timeout_ms = do
    announced ← ask (durable_call "flaky" "op" (flaky_request (key ++ "-waiting")))
    check announced (λ e. fail (wrap "announce: " e))
        (λ _. do
          topic ← ask (durable_await_signals ("topic" ∷ []) timeout_ms)
          check topic (λ e. done (at_report "await topic: " e))
              (λ d1.
                if d1.timed_out then done "{\"outcome\":\"timedout\",\"at\":\"topic\"}" else (do
                  queued_1 ← ask (durable_await_signals ("queued" ∷ []) timeout_ms)
                  check queued_1 (λ e. done (at_report "await queued 1: " e))
                      (λ d2.
                        if d2.timed_out
                        then done "{\"outcome\":\"timedout\",\"at\":\"queued-1\"}"
                        else (do
                          queued_2 ← ask (durable_await_signals ("queued" ∷ []) timeout_ms)
                          check queued_2 (λ e. done (at_report "await queued 2: " e))
                              (λ d3.
                                if d3.timed_out
                                then done "{\"outcome\":\"timedout\",\"at\":\"queued-2\"}"
                                else done (order_report d1 d2 d3)))))))

  unfoldable pub signalled_report : Delivery → String
  signalled_report d =
      "{\"outcome\":\"signalled\",\"name\":"
      ++ quote d.name
      ++ ",\"payload\":"
      ++ quote d.payload
      ++ "}"

  unfoldable pub handle_signal_receiver : String → ℤ → Handler
  handle_signal_receiver key timeout_ms = do
    announced ← ask (durable_call "flaky" "op" (flaky_request (key ++ "-waiting")))
    check announced (λ e. fail (wrap "announce: " e))
        (λ _. do
          got ← ask (durable_await_signals ("go" ∷ []) timeout_ms)
          check got (λ e. done (error_report e))
              (λ d.
                if d.timed_out
                then done "{\"outcome\":\"timedout\"}"
                else done (signalled_report d)))

  unfoldable pub handle_signal_sender : String → String → Handler
  handle_signal_sender target_run_id payload = do
    sent ← ask (signal_workflow target_run_id "go" payload)
    check sent (λ e. done (error_report e)) (λ _. done "{\"outcome\":\"sent\"}")

  unfoldable pub handle_signal_timeout : ℤ → Handler
  handle_signal_timeout timeout_ms = do
    got ← ask (durable_await_signals ("never-sent" ∷ []) timeout_ms)
    check got (λ e. done (error_report e))
        (λ d. if d.timed_out then done "{\"outcome\":\"timedout\"}" else done (signalled_report d))

  unfoldable pub poll_report : Bool → Bool → String → String
  poll_report before after payload =
      "{\"before\":"
      ++ show_bool before
      ++ ",\"after\":"
      ++ show_bool after
      ++ ",\"payload\":"
      ++ quote payload
      ++ "}"

  unfoldable pub handle_poll_signal : String → ℤ → Handler
  handle_poll_signal key sleep_ms = do
    first ← ask (poll_signal "go")
    check first (λ e. fail (wrap "first poll: " e))
        (λ before. do
          announced ← ask (durable_call "flaky" "op" (flaky_request (key ++ "-polled")))
          check announced (λ e. fail (wrap "announce: " e))
              (λ _. do
                ask (durable_sleep (millis sleep_ms))
                second ← ask (poll_signal "go")
                check second (λ e. fail (wrap "second poll: " e))
                    (λ after. done (poll_report before.1 after.1 after.0))))
