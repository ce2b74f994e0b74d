-- ===== src/Samples/ContinueAsNew.antt =====
-- ports/samples-go/workflows/casnchild/main.go and ports/samples-go/workflows/casnparent/main.go
pub mod Announced
pub mod Bound
use cleat_ports.Base.{String, ◌++◌}
use cleat_ports.Base.Int.{ℤ, pos, ltb_ℤ, ◌-ℤ◌, wrap64}
use cleat_ports.Base.Format.{Unicode, quote, show_int}
use cleat_ports.Host.Calls.{
  wrap, set_query_state, durable_call, continue_as_new, child_workflow, await_child,
}
use cleat_ports.Host.Program.{Handler, ask, done, fail, if◌then◌else◌, check, ◌>>=◌, ◌>>◌}

module _ ⦃u : Unicode⦄ where
  unfoldable pub casn_input : String → ℤ → String
  casn_input key iterations =
      "{\"key\":" ++ quote key ++ ",\"iterations\":" ++ show_int iterations ++ "}"

  unfoldable pub handle_casn_child : String → ℤ → Handler
  unfolding casn_input
  handle_casn_child key iterations = do
    announced ← ask (durable_call "casn" "Iteration" ("{\"key\":" ++ quote key ++ "}"))
    check announced (λ e. fail (wrap "announcing iteration: " e))
        (λ _.
          if ltb_ℤ (pos 1) iterations
          then (do
            continued ← ask (continue_as_new (casn_input key (wrap64 (iterations -ℤ pos 1))))
            check continued (λ e. fail (wrap "continue as new: " e)) (λ _. done ""))
          else done ("{\"key\":" ++ quote key ++ ",\"final\":true}"))

  unfoldable pub handle_casn_parent : String → ℤ → Handler
  unfolding casn_input
  handle_casn_parent key iterations = do
    spawned ← ask (child_workflow "sg_casn_child" (casn_input key iterations))
    check spawned (λ e. fail (wrap "spawn: " e))
        (λ run_id. do
          ask (set_query_state "child" run_id)
          ask (set_query_state "phase" "awaiting")
          awaited ← ask (await_child run_id)
          check awaited (λ e. fail (wrap "await: " e))
              (λ result. do
                ask (set_query_state "phase" "done")
                done (
                    "{\"key\":"
                    ++ quote key
                    ++ ",\"firstChild\":"
                    ++ quote run_id
                    ++ ",\"childResult\":"
                    ++ result
                    ++ "}")))
