-- ===== src/Samples/SignalCounter.antt =====
-- ports/samples-go/workflows/signalcounter/main.go
pub mod Counts
pub mod Budget
use cleat_ports.Base.{ℕ, zero, suc, String, ◌++◌, Bool, true, false, List, [], ◌∷◌, append, ◌==◌}
use cleat_ports.Base.Int.{ℤ, pos, leb_ℤ, ◌+ℤ◌, millis, sub_time}
use cleat_ports.Base.Text.{join}
use cleat_ports.Base.Format.{Unicode, quote, decimal, show_bool}
use cleat_ports.Host.Calls.{wrap, SignalResult, now, set_query_state, await_signals}
use cleat_ports.Host.Program.{
  if◌then◌else◌, branching, Handler, exhausted, ask, done, fail, check_field, ◌>>=◌, ◌>>◌,
}

module _ ⦃u : Unicode⦄ where
  unfoldable pub report : String → ℕ → Bool → List String → String
  report key count timed_out seen =
      "{\"key\":"
      ++ quote key
      ++ ",\"count\":"
      ++ decimal count
      ++ ",\"timedOut\":"
      ++ show_bool timed_out
      ++ ",\"seen\":"
      ++ quote (join seen ",")
      ++ "}"

  module _ (key : String) (give_up_at : ℤ) where
    -- What follows an await that has neither failed nor timed out.
    abbrev counted : String → ℕ → List String → (ℕ → List String → Handler) → Handler
    counted name count seen continue =
        if name == "done"
        then (do
          ask (set_query_state "phase" "finished")
          done (report key count false (append seen name)))
        else (do
          ask (set_query_state "count" (decimal (suc count)))
          continue (suc count) (append seen name))

    abbrev awaited : SignalResult → ℕ → List String → (ℕ → List String → Handler) → Handler
    awaited res count seen continue =
        check_field res.failure (λ e. fail (wrap "await: " e))
          (if res.timed_out
            then done (report key count true seen)
            else counted res.name count seen continue)

    -- `for { ... }`, one round for each unit of fuel
    pub count_loop : ℕ → ℕ → List String → Handler
    count_loop zero count seen = exhausted
    count_loop (suc fuel) count seen = do
      t ← ask now
      let remaining = sub_time give_up_at t
      if leb_ℤ remaining (pos 0) then done (report key count true seen) else (do
        res ← ask (await_signals ("tick" ∷ "done" ∷ []) remaining)
        awaited res count seen (count_loop fuel))

  unfoldable pub handle_signal_counter : ℕ → String → ℤ → Handler
  unfolding count_loop report
  handle_signal_counter fuel key budget_ms = do
    t ← ask now
    let give_up_at = t +ℤ millis budget_ms
    ask (set_query_state "count" "0")
    ask (set_query_state "phase" "counting")
    count_loop key give_up_at fuel 0 []
