-- ===== src/Dbos/Small.antt =====
-- ports/dbos-transact-py/workflows: concurrency, badresult, cronscheduler, crontarget, ownidentity,
-- querystate, versionone, versiontwo and pluginstream
use cleat_ports.Base.{ℕ, suc, String, ◌++◌, List, [], ◌∷◌, Option, none, some, ◌==◌}
use mathlib.Core.Bool.{cond}
use cleat_ports.Base.Int.{ℤ}
use cleat_ports.Base.Format.{Unicode, quote, decimal}
use cleat_ports.Host.Calls.{
  new, wrap, Result, ok, err, set_query_state, durable_call, durable_sleep_ms, durable_log, log,
  schedule_cron, list_crons, plugin_call_streaming, run_id,
}
use cleat_ports.Dbos.Fixture.{flaky_request}
use cleat_ports.Host.Program.{Handler, ret, ask, done, fail, if◌then◌else◌, check, ◌>>=◌, ◌>>◌}

module _ ⦃u : Unicode⦄ where
  unfoldable pub handle_holds_key : ℤ → Handler
  handle_holds_key ms = do
    ask (durable_log "holds-key: sleeping")
    ask (durable_sleep_ms ms)
    ask (durable_log "holds-key: done")
    done "{\"status\":\"done\"}"

  -- The `switch` of HandleBadResult.
  unfoldable pub bad_result : String → Result String
  bad_result kind = cond (kind == "valid") (ok "{\"ok\":true}") (
      cond (kind == "bare-string") (ok "not json") (
        cond (kind == "nan") (ok "{\"x\":NaN}") (
          cond (kind == "inf") (ok "{\"x\":Infinity}") (
            cond (kind == "big-int") (ok "{\"x\":123456789012345678901234567890}") (
              cond (kind == "unicode")
                (ok
                  "{\"cjk\":\"\\u4e16\\u754c\",\"accent\":\"caf\\u00e9\",\"astral\":\"\\ud83d\\ude80\",\"quoted\":\"say \\\"hi\\\"\"}")
                (cond (kind == "empty") (ok "") (err (new ("unknown kind " ++ quote kind)))))))))

  unfoldable pub handle_bad_result : String → Handler
  handle_bad_result kind = do ask (log ("badresult: kind=" ++ kind)); ret (bad_result kind)

  unfoldable pub handle_cron_scheduler : String → String → String → Handler
  handle_cron_scheduler target_name cron_expr mark_key = do
    scheduled ←
        ask (schedule_cron target_name cron_expr "UTC" ("{\"key\":" ++ quote mark_key ++ "}"))
    check scheduled (λ e. fail (wrap "ScheduleCron: " e))
        (λ id. do
          listing ← ask list_crons
          check listing (λ e. fail (wrap "ListCrons: " e))
              (λ listed. done ("{\"scheduleID\":" ++ quote id ++ ",\"listed\":" ++ listed ++ "}")))

  abbrev reported : Option String → String
  reported none = ""
  reported (some tag) = tag

  unfoldable pub handle_cron_target : String → Option String → Handler
  handle_cron_target key tag = do
    ask (durable_call "flaky" "op" (flaky_request key))
    done ("{\"ran\":true,\"key\":" ++ quote key ++ ",\"tag\":" ++ quote (reported tag) ++ "}")

  unfoldable pub handle_own_identity : ℤ → Handler
  handle_own_identity hold_ms = do
    ask (durable_sleep_ms hold_ms)
    id ← ask run_id
    if id == ""
        then fail (new "the engine reported an empty run id")
        else done ("{\"runID\":" ++ quote id ++ "}")

  unfoldable pub handle_query_state : String → ℤ → Handler
  handle_query_state tag sleep_ms = do
    ask (set_query_state "phase" "started")
    ask (set_query_state "tag" tag)
    ask (durable_sleep_ms sleep_ms)
    ask (set_query_state "phase" "finished")
    done ("{\"tag\":" ++ quote tag ++ "}")

  pub version_mark : String → String → ℤ → Handler
  version_mark mark key sleep_ms = do
    ask (durable_sleep_ms sleep_ms)
    done (
        "{\"before\":"
        ++ quote mark
        ++ ",\"after\":"
        ++ quote mark
        ++ ",\"key\":"
        ++ quote key
        ++ "}")

  unfoldable pub handle_version_one : String → ℤ → Handler
  unfolding version_mark
  handle_version_one = version_mark "one"

  unfoldable pub handle_version_two : String → ℤ → Handler
  unfolding version_mark
  handle_version_two = version_mark "two"

  -- `for ev := range events { content.WriteString(ev.Content); count++ }`
  pub concatenated : List String → String → ℕ → String × ℕ
  concatenated [] content count = (content, count)
  concatenated (ev ∷ events) content count = concatenated events (content ++ ev) (suc count)

  unfoldable pub stream_report : String × ℕ → String
  stream_report read = "{\"content\":" ++ quote read.0 ++ ",\"events\":" ++ decimal read.1 ++ "}"

  unfoldable pub handle_plugin_stream : String → ℤ → Handler
  unfolding concatenated
  handle_plugin_stream prompt seq = do
    opened ← ask (
        plugin_call_streaming "llm" "chat_stream" (
          "{\"provider\":\"ollama\",\"model\":\"llama3.2\",\"messages\":[{\"role\":\"user\",\"content\":"
          ++ quote prompt
          ++ "}]}"))
    check opened (λ e. fail (wrap "plugin call llm.chat_stream: " e))
        (λ events. done (stream_report (concatenated events "" 0)))
