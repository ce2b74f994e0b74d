-- ===== src/Samples/Quorum.antt =====
-- ports/samples-go/workflows/quorum/main.go and ports/samples-go/workflows/twoawaits/main.go
pub mod Listed
use cleat_ports.Base.{String, ◌++◌, List, [], ◌∷◌, Option, none, some, append, length}
use cleat_ports.Base.Int.{ℤ, pos, negsuc, millis}
use cleat_ports.Base.Text.{join, split_commas}
use cleat_ports.Base.Format.{Unicode, quote, decimal, show_bool}
use cleat_ports.Host.Calls.{Error, wrap, SignalResult, await_signals, await_quorum, durable_call}
use cleat_ports.Host.Program.{Handler, ask, done, fail, check_field, ◌>>=◌, ◌>>◌}

-- `for _, r := range res { got = append(got, r.Name) }`
pub names_from : List String → List SignalResult → List String
names_from got [] = got
names_from got (r ∷ res) = names_from (append got r.name) res

module _ ⦃u : Unicode⦄ where
  pub outcome_report : String → List String → String
  outcome_report outcome got =
      "{\"outcome\":\""
      ++ outcome
      ++ "\",\"got\":"
      ++ decimal (length got)
      ++ ",\"names\":"
      ++ quote (join got ",")
      ++ "}"

  abbrev pub collected : List SignalResult × Option Error → Handler
  collected (res, none) = done (outcome_report "quorum" (names_from [] res))
  collected (res, some e) = done (outcome_report "timedOut" (names_from [] res))

  unfoldable pub handle_quorum : String → String → ℤ → ℤ → Handler
  unfolding names_from outcome_report
  handle_quorum key names need timeout_ms = do
    ask (durable_call "quorum" "waiting" ("{\"key\":" ++ quote (key ++ "-waiting") ++ "}"))
    answer ← ask (await_quorum (split_commas names) need (negsuc 0) (millis timeout_ms))
    collected answer

  -- 20 seconds
  abbrev pub twenty_seconds : ℤ
  twenty_seconds = pos 20000000000

  pub two_report : String → SignalResult → SignalResult → String
  two_report tag first second =
      "{\"tag\":"
      ++ quote tag
      ++ ",\"first\":"
      ++ quote first.name
      ++ ",\"firstTimedOut\":"
      ++ show_bool first.timed_out
      ++ ",\"second\":"
      ++ quote second.name
      ++ ",\"secondTimedOut\":"
      ++ show_bool second.timed_out
      ++ "}"

  unfoldable pub handle_two_awaits : String → ℤ → Handler
  unfolding two_report
  handle_two_awaits tag unused = do
    let names = "a" ∷ "b" ∷ []
    first ← ask (await_signals names twenty_seconds)
    check_field first.failure (λ e. fail (wrap "first: " e))
        (do
          second ← ask (await_signals names twenty_seconds)
          check_field second.failure (λ e. fail (wrap "second: " e))
              (done (two_report tag first second)))
