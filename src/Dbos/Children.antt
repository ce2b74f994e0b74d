-- ===== src/Dbos/Children.antt =====
-- ports/dbos-transact-py/workflows: childleaf, awaitonechild, parentfanout, childpriority,
-- cancelawaitingparent, abandonvariant, recoveryparent and observerun
pub mod Fanout
pub mod Leaf
pub mod Policies
use cleat_ports.Base.{ℕ, zero, suc, ◌+◌, String, ◌++◌, List, [], append, length, ◌==◌}
use mathlib.Core.Bool.{cond}
use cleat_ports.Base.Int.{ℤ, pos, pos_part, ltb_ℤ, is_zero, ◌*ℤ◌, wrap64}
use cleat_ports.Base.Format.{Unicode, quote, decimal, show_int}
use cleat_ports.Host.Calls.{
  wrap, message, Result, ParentClosePolicy, ChildWorkflowOptions, durable_sleep_ms, durable_log,
  child_workflow, child_workflow_with_options, await_child, await_any_child, await_all_children,
  poll_child,
}
use cleat_ports.Host.Program.{Handler, panic, ask, done, fail, if◌then◌else◌, check, ◌>>=◌, ◌>>◌}

-- What a slice made with a negative capacity panics with.
abbrev pub makeslice_panic : String
makeslice_panic = "runtime error: makeslice: cap out of range"

abbrev pub with_policy : ParentClosePolicy → ChildWorkflowOptions
with_policy policy = record { parent_close_policy = policy; priority = pos 0 }

-- The i-th child's input: `ms*(i+1)` is an int.
unfoldable pub fanout_input : ℤ → ℕ → String
fanout_input ms i =
    "{\"ms\":" ++ show_int (wrap64 (ms *ℤ pos (i + 1))) ++ ",\"tag\":\"child-" ++ decimal i ++ "\"}"

module _ ⦃u : Unicode⦄ where
  unfoldable pub leaf_input : ℤ → String → String
  leaf_input ms tag = "{\"ms\":" ++ show_int ms ++ ",\"tag\":" ++ quote tag ++ "}"

  unfoldable pub handle_leaf : ℤ → String → Handler
  handle_leaf ms tag = do
    ask (durable_log ("leaf " ++ tag ++ ": start"))
    ask (durable_sleep_ms ms)
    done ("{\"tag\":" ++ quote tag ++ "}")

  unfoldable pub child_report : String → String → String
  child_report run_id result = "{\"runID\":" ++ quote run_id ++ ",\"child\":" ++ result ++ "}"

  unfoldable pub handle_await_one_child : ℤ → String → Handler
  unfolding child_report
  handle_await_one_child ms tag = do
    spawned ← ask (child_workflow "child_leaf" (leaf_input ms tag))
    check spawned (λ e. fail (wrap "spawn: " e))
        (λ run_id. do
          awaited ← ask (await_child run_id)
          check awaited (λ e. fail (wrap "await: " e))
              (λ result. done (child_report run_id result)))

  unfoldable pub handle_recovery_parent : String → ℤ → Handler
  unfolding child_report
  handle_recovery_parent key sleep_ms = do
    spawned ← ask (
        child_workflow "retrycall" (
          "{\"service\":\"flaky\",\"key\":"
          ++ quote key
          ++ ",\"attempts\":1,\"intervalMs\":50,\"failTimes\":0,\"failStatus\":0}"))
    check spawned (λ e. fail (wrap "spawn: " e))
        (λ run_id. do
          ask (durable_sleep_ms sleep_ms)
          awaited ← ask (await_child run_id)
          check awaited (λ e. fail (wrap "await: " e))
              (λ result. done (child_report run_id result)))

  unfoldable pub any_report : String × String → ℕ → String
  any_report answer spawned =
      "{\"mode\":\"any\",\"run_id\":"
      ++ quote answer.0
      ++ ",\"result\":"
      ++ answer.1
      ++ ",\"spawned\":"
      ++ decimal spawned
      ++ "}"

  unfoldable pub all_report : String → ℕ → String
  all_report encoded spawned =
      "{\"mode\":\"all\",\"results\":" ++ encoded ++ ",\"spawned\":" ++ decimal spawned ++ "}"

  -- `encode` is json.Marshal of what AwaitAllChildren returns.
  module _ (encode : List String → Result String) (ms mode : ℤ) where
    abbrev pub await_spawned : List String → Handler
    await_spawned run_ids =
        if is_zero mode
        then (do
          awaited ← ask (await_all_children run_ids)
          check awaited (λ e. fail (wrap "await all: " e))
              (λ results.
                check (encode results) (λ e. fail (wrap "encode results: " e))
                  (λ encoded. done (all_report encoded (length run_ids)))))
        else (do
          awaited ← ask (await_any_child run_ids)
          check awaited (λ e. fail (wrap "await any: " e))
              (λ answer. done (any_report answer (length run_ids))))

    -- `for i := 0; i < n; i++ { ... }` and what follows it, by the children left
    pub spawn_loop : ℕ → ℕ → List String → Handler
    spawn_loop zero i run_ids = await_spawned run_ids
    spawn_loop (suc left) i run_ids = do
      spawned ← ask (child_workflow "child_leaf" (fanout_input ms i))
      check spawned (λ e. fail (wrap ("spawn child " ++ decimal i ++ ": ") e))
          (λ run_id. spawn_loop left (i + 1) (append run_ids run_id))

  unfoldable pub handle_fanout : (List String → Result String) → ℤ → ℤ → ℤ → Handler
  unfolding spawn_loop
  handle_fanout encode n ms mode =
      if ltb_ℤ n (pos 0) then panic makeslice_panic else spawn_loop encode ms mode (pos_part n) 0 []

  unfoldable pub handle_child_priority : String → ℤ → ℤ → Handler
  handle_child_priority tag child_ms explicit_priority = do
    plain_spawned ← ask (child_workflow "child_leaf" (leaf_input child_ms (tag ++ "-plain")))
    check plain_spawned (λ e. fail (wrap "spawn plain child: " e))
        (λ plain. do
          explicit_spawned ← ask (
              child_workflow_with_options "child_leaf" (leaf_input child_ms (tag ++ "-explicit"))
                (record {
                  parent_close_policy = ParentClosePolicy.unset;
                  priority = explicit_priority;
                }))
          check explicit_spawned (λ e. fail (wrap "spawn explicit child: " e))
              (λ explicit.
                done ("{\"plain\":" ++ quote plain ++ ",\"explicit\":" ++ quote explicit ++ "}")))

  -- The two parents differ in the policy of the long child alone.
  pub long_and_short : ParentClosePolicy → ℤ → ℤ → String → Handler
  long_and_short long_policy short_ms long_ms tag = do
    long_spawned ← ask (
        child_workflow_with_options "cancellable" ("{\"ms\":" ++ show_int long_ms ++ ",\"poll\":1}")
          (with_policy long_policy))
    check long_spawned (λ e. fail (wrap "spawn long: " e))
        (λ long. do
          short_spawned ← ask (
              child_workflow_with_options "child_leaf" (leaf_input short_ms (tag ++ "-short"))
                (with_policy ParentClosePolicy.request_cancel))
          check short_spawned (λ e. fail (wrap "spawn short: " e))
              (λ short. do
                awaited ← ask (await_child short)
                check awaited
                    (λ e. done (
                      "{\"outcome\":\"await-error\",\"long\":"
                      ++ quote long
                      ++ ",\"short\":"
                      ++ quote short
                      ++ ",\"error\":"
                      ++ quote (message e)
                      ++ "}"))
                    (λ result. done (
                      "{\"outcome\":\"completed\",\"long\":"
                      ++ quote long
                      ++ ",\"short\":"
                      ++ quote short
                      ++ ",\"result\":"
                      ++ result
                      ++ "}"))))

  unfoldable pub handle_cancel_awaiting_parent : ℤ → ℤ → String → Handler
  unfolding long_and_short
  handle_cancel_awaiting_parent = long_and_short ParentClosePolicy.request_cancel

  unfoldable pub handle_abandon_variant : ℤ → ℤ → String → Handler
  unfolding long_and_short
  handle_abandon_variant = long_and_short ParentClosePolicy.abandon

-- `jsonOrString`
unfoldable pub json_or_string : String → String
json_or_string s = cond (s == "") "\"\"" s

module _ ⦃u : Unicode⦄ where
  unfoldable pub handle_observe_run : String → String → Handler
  handle_observe_run run_id tag = do
    ask (durable_log ("observe " ++ tag ++ ": polling " ++ run_id))
    polled ← ask (poll_child run_id)
    check polled
        (λ e. done (
          "{\"tag\":"
          ++ quote tag
          ++ ",\"outcome\":\"error\",\"error\":"
          ++ quote (message e)
          ++ "}"))
        (λ answer. done (
          "{\"tag\":"
          ++ quote tag
          ++ ",\"outcome\":\"observed\",\"status\":"
          ++ quote answer.0
          ++ ",\"result\":"
          ++ json_or_string answer.1
          ++ "}"))
