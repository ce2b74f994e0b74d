-- ===== src/Durabletask.antt =====
-- The workflows of ports/durabletask-go/workflows: emptyorch, failingchild, failparent, singletimer,
-- terminateleaf and terminateroot.
pub mod Root
use cleat_ports.Base.{String, ◌++◌}
use cleat_ports.Base.Int.{ℤ, pos}
use cleat_ports.Base.Format.{Unicode, quote, show_int}
use cleat_ports.Host.Calls.{
  new, wrap, ParentClosePolicy, ChildWorkflowOptions, durable_sleep_ms, child_workflow,
  child_workflow_with_options, await_child,
}
use cleat_ports.Host.Program.{Handler, ask, done, fail, check, ◌>>=◌, ◌>>◌}

abbrev terminating : ChildWorkflowOptions
terminating = record { parent_close_policy = ParentClosePolicy.terminate; priority = pos 0 }

module _ ⦃u : Unicode⦄ where
  unfoldable pub handle_empty_orch : String → ℤ → Handler
  handle_empty_orch marker n =
      done ("{\"outcome\":\"empty\",\"marker\":" ++ quote marker ++ ",\"n\":" ++ show_int n ++ "}")

  unfoldable pub handle_failing_child : String → ℤ → Handler
  handle_failing_child marker unused = fail (new ("child failed: " ++ marker))

  unfoldable pub handle_fail_parent : String → ℤ → Handler
  handle_fail_parent marker unused = do
    spawned ←
        ask
          (child_workflow "dtg_failing_child" ("{\"marker\":" ++ quote marker ++ ",\"unused\":0}"))
    check spawned (λ e. fail (wrap "spawning the child: " e))
        (λ child_id. do
          awaited ← ask (await_child child_id)
          check awaited (λ e. fail (wrap "parent observed child failure: " e))
              (λ result.
                done ("{\"outcome\":\"child_succeeded\",\"result\":" ++ quote result ++ "}")))

  unfoldable pub handle_single_timer : String → ℤ → Handler
  handle_single_timer marker sleep_ms = do
    ask (durable_sleep_ms sleep_ms)
    done ("{\"outcome\":\"resumed\",\"marker\":" ++ quote marker ++ "}")

  unfoldable pub handle_terminate_leaf : String → ℤ → Handler
  handle_terminate_leaf tag sleep_ms = do
    ask (durable_sleep_ms sleep_ms)
    done ("{\"tag\":" ++ quote tag ++ "}")

  pub leaf_input : String → ℤ → String
  leaf_input tag sleep_ms = "{\"tag\":" ++ quote tag ++ ",\"sleepMs\":" ++ show_int sleep_ms ++ "}"

  unfoldable pub handle_terminate_root : String → ℤ → ℤ → Handler
  unfolding leaf_input
  handle_terminate_root marker short_ms long_ms = do
    long_lived ← ask (
        child_workflow_with_options "dtg_terminate_leaf" (leaf_input (marker ++ "-running") long_ms)
          terminating)
    check long_lived (λ e. fail (wrap "spawning the long-lived child: " e))
        (λ running. do
          short_lived ← ask (
              child_workflow_with_options "dtg_terminate_leaf"
                (leaf_input (marker ++ "-completed") short_ms) terminating)
          check short_lived (λ e. fail (wrap "spawning the short-lived child: " e))
              (λ completed. do
                awaited ← ask (await_child completed)
                check awaited (λ e. fail (wrap "awaiting the short-lived child: " e))
                    (λ _. done (
                      "{\"completedChild\":"
                      ++ quote completed
                      ++ ",\"runningChild\":"
                      ++ quote running
                      ++ "}"))))
