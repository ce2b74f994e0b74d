-- ===== src/Samples/AwaitSignals.antt =====
-- ports/samples-go/workflows/awaitsignals/main.go
-- `seen` holds the keys that the source's map sends to true.
pub mod Order
pub mod Delivered
pub mod Repeats
pub mod Budget
use cleat_ports.Base.{ℕ, zero, suc, ltb, leb, String, ◌++◌, ◌||◌, List, [], append, length, ◌==◌}
use cleat_ports.Base.Int.{ℤ, pos, leb_ℤ, ◌+ℤ◌, millis, sub_time}
use cleat_ports.Base.Text.{join, split_commas, contains}
use cleat_ports.Base.Format.{Unicode, quote}
use cleat_ports.Host.Calls.{new, wrap, SignalResult, now, set_query_state, await_signals}
use cleat_ports.Host.Program.{
  Handler, exhausted, ask, done, fail, if◌then◌else◌, check_field, branching, ◌>>=◌, ◌>>◌,
}

module _ ⦃u : Unicode⦄ where
  unfoldable pub timed_out_report : String → List String → String
  timed_out_report key order =
      "{\"key\":" ++ quote key ++ ",\"timedOut\":true,\"seen\":" ++ quote (join order ",") ++ "}"

  unfoldable pub complete_report : String → List String → String
  complete_report key order =
      "{\"key\":" ++ quote key ++ ",\"order\":" ++ quote (join order ",") ++ "}"

  module _ (key : String) (wanted : List String) (give_up_at : ℤ) where
    -- What follows an await that has neither failed nor timed out.
    abbrev noted :
        String → List String → List String → (List String → List String → Handler) → Handler
    noted name seen order continue = if contains seen name then continue seen order else (do
      ask (set_query_state "seen" (join (append order name) ","))
      continue (append seen name) (append order name))

    abbrev awaited :
        SignalResult → List String → List String → (List String → List String → Handler) → Handler
    awaited res seen order continue =
        check_field res.failure (λ e. fail (wrap "await: " e))
          (if res.timed_out
            then done (timed_out_report key order)
            else noted res.name seen order continue)

    -- `for len(seen) < len(wanted) { ... }` and what follows it, one round for each unit of fuel
    pub await_loop : ℕ → List String → List String → Handler
    await_loop zero seen order = exhausted
    await_loop (suc fuel) seen order =
        if ltb (length seen) (length wanted)
        then (do
          t ← ask now
          let remaining = sub_time give_up_at t
          if leb_ℤ remaining (pos 0) then done (timed_out_report key order) else (do
            res ← ask (await_signals wanted remaining)
            awaited res seen order (await_loop fuel)))
        else (do ask (set_query_state "phase" "complete"); done (complete_report key order))

  unfoldable pub handle_await_signals : ℕ → String → String → ℤ → Handler
  unfolding await_loop timed_out_report complete_report
  handle_await_signals fuel key names timeout_ms =
      let wanted = split_commas names in
      if leb (length wanted) 0 || names == "" then fail (new "no signal names given") else (do
        ask (set_query_state "phase" "waiting")
        let budget = millis timeout_ms
        t ← ask now
        await_loop key wanted (t +ℤ budget) fuel [] [])
