-- ===== src/Dbos/Promises.antt =====
-- ports/dbos-transact-py/workflows: promisechain, promiseparent and promisesettler
pub mod Resolved
pub mod Budget
pub mod Settler
pub mod Settled
use cleat_ports.Base.{
  ℕ, zero, suc, ◌+◌, String, ◌++◌, Bool, true, false, List, [], ◌∷◌, append, ◌==◌,
}
use cleat_ports.Base.Int.{ℤ, pos, pos_part, leb_ℤ, ltb_ℤ, ◌+ℤ◌, millis, sub_time, div_int}
use cleat_ports.Base.Text.{join}
use cleat_ports.Base.Format.{Unicode, quote, decimal, show_bool}
use cleat_ports.Host.Calls.{
  wrap, now, set_query_state, child_workflow, create_promise, await_promise_ms, resolve_promise,
  reject_promise,
}
use cleat_ports.Dbos.Fixture.{error_report}
use cleat_ports.Host.Program.{Handler, panic, ask, done, fail, if◌then◌else◌, check, ◌>>=◌, ◌>>◌}

-- What a slice made with a negative capacity panics with.
abbrev pub makeslice_panic : String
makeslice_panic = "runtime error: makeslice: cap out of range"

module _ ⦃u : Unicode⦄ where
  unfoldable pub chain_report : String → ℕ → Bool → String
  chain_report key resolved timed_out =
      "{\"key\":"
      ++ quote key
      ++ ",\"resolved\":"
      ++ decimal resolved
      ++ ",\"timedOut\":"
      ++ show_bool timed_out
      ++ "}"

  -- `for i, id := range ids { ... }` and what follows it
  pub resolve_loop : String → ℤ → List String → ℕ → ℕ → Handler
  resolve_loop key give_up_at [] i resolved = done (chain_report key resolved false)
  resolve_loop key give_up_at (id ∷ ids) i resolved = do
    t ← ask now
    let remaining = sub_time give_up_at t
    if leb_ℤ remaining (pos 0) then done (chain_report key resolved true) else (do
      awaited ← ask (await_promise_ms id (div_int remaining 1000000))
      check awaited (λ e. fail (wrap ("await promise " ++ decimal i ++ ": ") e))
          (λ answer. if answer.1 then done (chain_report key resolved true) else (do
            ask (set_query_state "resolved" (decimal (suc resolved)))
            resolve_loop key give_up_at ids (i + 1) (suc resolved))))

  -- What follows the creation of the promises.
  pub await_all : String → ℤ → List String → Handler
  await_all key budget_ms ids = do
    ask (set_query_state "promises" (join ids ","))
    ask (set_query_state "phase" "awaiting")
    t ← ask now
    resolve_loop key (t +ℤ millis budget_ms) ids 0 0

  -- `for i := 0; i < count; i++ { ... }`, by the promises left
  pub create_loop : String → ℤ → ℕ → ℕ → List String → Handler
  create_loop key budget_ms zero i ids = await_all key budget_ms ids
  create_loop key budget_ms (suc left) i ids = do
    created ← ask (create_promise (key ++ "-" ++ decimal i))
    check created (λ e. fail (wrap ("create promise " ++ decimal i ++ ": ") e))
        (λ id. create_loop key budget_ms left (i + 1) (append ids id))

  unfoldable pub handle_promise_chain : String → ℤ → ℤ → Handler
  unfolding resolve_loop await_all create_loop
  handle_promise_chain key count budget_ms =
      if ltb_ℤ count (pos 0)
      then panic makeslice_panic
      else create_loop key budget_ms (pos_part count) 0 []

  abbrev settled : String → ℤ → Handler
  settled id timeout_ms = do
    awaited ← ask (await_promise_ms id timeout_ms)
    check awaited (λ e. done (error_report e))
        (λ answer.
          if answer.1
          then done "{\"outcome\":\"timedout\"}"
          else done ("{\"outcome\":\"resolved\",\"result\":" ++ quote answer.0 ++ "}"))

  unfoldable pub handle_promise : String → ℤ → Handler
  handle_promise mode timeout_ms = do
    created ← ask (create_promise "port-promise")
    check created (λ e. fail (wrap "create promise: " e))
        (λ id. if mode == "timeout" then settled id timeout_ms else (do
          spawned ← ask (
              child_workflow "promise_settler"
                ("{\"promiseId\":" ++ quote id ++ ",\"mode\":" ++ quote mode ++ "}"))
          check spawned (λ e. fail (wrap "spawn settler: " e)) (λ _. settled id timeout_ms)))

  unfoldable pub handle_settle : String → String → Handler
  handle_settle promise_id mode =
      if mode == "reject"
      then (do
        rejected ← ask (reject_promise promise_id "rejected by the settler")
        check rejected (λ e. fail e) (λ _. done "{\"settled\":\"rejected\"}"))
      else (do
        resolved ← ask (resolve_promise promise_id "{\"value\":\"settled\"}")
        check resolved (λ e. fail e) (λ _. done "{\"settled\":\"resolved\"}"))
