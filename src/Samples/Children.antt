-- ===== src/Samples/Children.antt =====
-- ports/samples-go/workflows/childparent/main.go, ports/samples-go/workflows/childsleeper/main.go
-- and ports/samples-go/workflows/querytarget/main.go
use cleat_ports.Base.{ℕ, zero, suc, ◌+◌, String, ◌++◌}
use cleat_ports.Base.Int.{ℤ, pos, pos_part, ltb_ℤ}
use cleat_ports.Base.Format.{Unicode, quote, decimal, show_int}
use cleat_ports.Host.Calls.{
  wrap, ParentClosePolicy, ChildWorkflowOptions, set_query_state, durable_call, durable_sleep_ms,
  child_workflow_with_options,
}
use cleat_ports.Host.Program.{Handler, ask, done, fail, if◌then◌else◌, check, ◌>>=◌, ◌>>◌}

module _ ⦃u : Unicode⦄ where
  abbrev spelled_policy : String → ChildWorkflowOptions
  spelled_policy policy = record {
    parent_close_policy = ParentClosePolicy.spelled policy;
    priority = pos 0;
  }

  unfoldable pub handle_child_parent : String → String → ℤ → ℤ → Handler
  handle_child_parent key policy child_ms parent_ms = do
    started ← ask (
        child_workflow_with_options "sg_child_sleeper"
          ("{\"key\":" ++ quote key ++ ",\"ms\":" ++ show_int child_ms ++ "}")
          (spelled_policy policy))
    check started (λ e. fail (wrap "starting the child: " e))
        (λ run_id. do
          ask (set_query_state "child" run_id)
          ask (set_query_state "phase" "child_started")
          let finish = (do
            ask (set_query_state "phase" "parent_finished")
            done ("{\"child\":" ++ quote run_id ++ "}"))
          if ltb_ℤ (pos 0) parent_ms then (do ask (durable_sleep_ms parent_ms); finish) else finish)

  unfoldable pub handle_child_sleeper : String → ℤ → Handler
  handle_child_sleeper key ms = do
    started ← ask (durable_call "child" "Started" ("{\"key\":" ++ quote key ++ "}"))
    check started (λ e. fail (wrap "announcing start: " e))
        (λ _. do
          ask (durable_sleep_ms ms)
          finished ← ask (durable_call "child" "Finished" ("{\"key\":" ++ quote key ++ "}"))
          check finished (λ e. fail (wrap "announcing finish: " e))
              (λ _. done ("{\"key\":" ++ quote key ++ ",\"finished\":true}")))

  -- `for i := 0; i < steps; i++ { ... }` and what follows it, by the steps left
  pub step_loop : String → ℤ → ℤ → ℕ → ℕ → Handler
  step_loop key steps step_ms zero i = do
    ask (set_query_state "counter" (show_int steps))
    ask (set_query_state "phase" "finished")
    done ("{\"key\":" ++ quote key ++ ",\"counter\":" ++ show_int steps ++ "}")
  step_loop key steps step_ms (suc left) i = do
    ask (set_query_state "counter" (decimal i))
    ask (durable_sleep_ms step_ms)
    step_loop key steps step_ms left (i + 1)

  unfoldable pub handle_query_target : String → ℤ → ℤ → Handler
  unfolding step_loop
  handle_query_target key steps step_ms = do
    ask (set_query_state "firstSeen" "0")
    ask (set_query_state "phase" "running")
    step_loop key steps step_ms (pos_part steps) 0
