-- ===== src/Sdk.antt =====
-- The workflows of ports/temporalio-sdk-go/workflows: idreuse, panicwf and cancelchild.
pub mod Cancelled
pub mod Updates
use cleat_ports.Base.{ℕ, zero, suc, String, ◌++◌, [], ◌∷◌}
use cleat_ports.Base.Int.{ℤ, pos, pos_part, ltb_ℤ, is_zero}
use cleat_ports.Base.Format.{Unicode, quote}
use cleat_ports.Host.Calls.{
  new, message, await_signals, durable_sleep_ms, poll_cancellation, child_workflow,
}
use cleat_ports.Host.Program.{Handler, panic, ask, done, fail, if◌then◌else◌, check, ◌>>=◌, ◌>>◌}

module _ ⦃u : Unicode⦄ where
  unfoldable pub handle_reuse : String → ℤ → ℤ → Handler
  handle_reuse marker sleep_ms failing =
      let finish =
        if is_zero failing
        then done ("{\"outcome\":\"finished\",\"marker\":" ++ quote marker ++ "}")
        else fail (new ("idreuse failed on purpose: " ++ marker)) in
      if ltb_ℤ (pos 0) sleep_ms then (do ask (durable_sleep_ms sleep_ms); finish) else finish

  unfoldable pub handle_panic_wf : String → ℤ → Handler
  handle_panic_wf marker should_panic =
      if is_zero should_panic
      then done ("{\"outcome\":\"returned-normally\",\"marker\":" ++ quote marker ++ "}")
      else panic ("simulated panic: " ++ marker)

  -- What follows the loop when cancellation has been observed.
  pub start_child : String → String → Handler
  start_child child_def reason = do
    started ← ask (child_workflow child_def "{\"marker\":\"post-cancel\",\"n\":0}")
    check started
        (λ e. done (
          "{\"outcome\":\"child-refused\",\"reason\":"
          ++ quote reason
          ++ ",\"err\":\""
          ++ message e
          ++ "\"}"))
        (λ child_id. done (
          "{\"outcome\":\"child-started\",\"reason\":"
          ++ quote reason
          ++ ",\"childId\":"
          ++ quote child_id
          ++ "}"))

  abbrev pub never_observed : String
  never_observed = "{\"outcome\":\"never-observed-cancellation\"}"

  -- `for i := 0; i < slices; i++ { ... }` and what follows it, by the slices left
  pub slice_loop : String → ℕ → Handler
  slice_loop child_def zero = done never_observed
  slice_loop child_def (suc left) = do
    polled ← ask poll_cancellation
    if polled.0
        then start_child child_def polled.1
        else (do ask (await_signals ("never" ∷ []) (pos 400000000)); slice_loop child_def left)

  unfoldable pub handle_cancel_child : String → ℤ → Handler
  unfolding slice_loop start_child
  handle_cancel_child child_def slices = slice_loop child_def (pos_part slices)
