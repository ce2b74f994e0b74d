-- ===== src/Dbos/Replay.antt =====
-- ports/dbos-transact-py/workflows: replay, determinism, complexarg and plugincall
use cleat_ports.Base.{◌/◌, String, ◌++◌, List, [], ◌∷◌, ◌==◌}
use cleat_ports.Base.Int.{ℤ, pos, negsuc}
use cleat_ports.Base.Format.{Unicode, quote, show_int}
use cleat_ports.Host.Calls.{
  new, wrap, Result, constant, clock_text, random_text, workflow_id_text, run_id_text, side_effect,
  now, durable_log, durable_sleep_ms, workflow_id, run_id, version, plugin_call,
}
use cleat_ports.Host.Program.{Handler, ask, done, fail, if◌then◌else◌, check, ◌>>=◌, ◌>>◌}

-- `t.UnixMilli()`, which rounds down.
unfoldable pub unix_milli : ℤ → ℤ
unix_milli (pos n) = pos (n / 1000000)
unix_milli (negsuc n) = negsuc (n / 1000000)

-- The structs Inner and Outer.
pub record Inner : Type 0 where
  pub one : String
  pub two : ℤ

pub record Outer : Type 0 where
  pub inner : Inner

-- The fields that HandlePluginCall decodes: each choice's content, and the error.
pub record ChatReply : Type 0 where
  pub choices : List String
  pub failure : String

module _ ⦃u : Unicode⦄ where
  unfoldable pub handle_replay_identity : ℤ → Handler
  unfolding unix_milli
  handle_replay_identity ms = do
    anchored ← ask (side_effect (constant "anchor"))
    check anchored (λ e. fail (wrap "anchor: " e))
        (λ _. do
          effect ← ask (side_effect clock_text)
          check effect (λ e. fail (wrap "side effect: " e))
              (λ cached. do
                ask (durable_log ("replay-identity: cached " ++ cached))
                ask (durable_sleep_ms ms)
                t ← ask now
                let fresh = show_int (unix_milli t)
                ask (durable_log ("replay-identity: fresh " ++ fresh))
                done ("{\"cached\":" ++ quote cached ++ ",\"fresh\":" ++ quote fresh ++ "}")))

  unfoldable pub identity_report : String → String → String → String → String → String → ℤ → String
  identity_report r1 r2 wf_before run_before wf_after run_after v =
      "{\"r1\":"
      ++ quote r1
      ++ ",\"r2\":"
      ++ quote r2
      ++ ",\"wfBefore\":"
      ++ quote wf_before
      ++ ",\"runBefore\":"
      ++ quote run_before
      ++ ",\"wfAfter\":"
      ++ quote wf_after
      ++ ",\"runAfter\":"
      ++ quote run_after
      ++ ",\"version\":"
      ++ show_int v
      ++ "}"

  unfoldable pub handle_determinism : ℤ → Handler
  handle_determinism ms = do
    anchored ← ask (side_effect (constant "anchor"))
    check anchored (λ e. fail (wrap "anchor: " e))
        (λ _. do
          first ← ask (side_effect random_text)
          check first (λ e. fail (wrap "random 1: " e))
              (λ r1. do
                second ← ask (side_effect random_text)
                check second (λ e. fail (wrap "random 2: " e))
                    (λ r2. do
                      wf ← ask (side_effect workflow_id_text)
                      check wf (λ e. fail (wrap "workflow id: " e))
                          (λ wf_before. do
                            run ← ask (side_effect run_id_text)
                            check run (λ e. fail (wrap "run id: " e))
                                (λ run_before. do
                                  ask (durable_sleep_ms ms)
                                  wf_after ← ask workflow_id
                                  run_after ← ask run_id
                                  v ← ask version
                                  done (
                                      identity_report r1 r2 wf_before run_before wf_after run_after
                                        v))))))

  -- `marshal` is json.Marshal.
  unfoldable pub handle_complex_arg : (Outer → Result String) → Outer → ℤ → ℤ → Handler
  handle_complex_arg marshal outer n sleep_ms =
      check (marshal outer) (λ e. fail e)
        (λ before. do
          ask (durable_sleep_ms sleep_ms)
          check (marshal outer) (λ e. fail e)
              (λ after. done (
                "{\"before\":"
                ++ before
                ++ ",\"after\":"
                ++ after
                ++ ",\"n\":"
                ++ show_int n
                ++ "}")))

  unfoldable pub chat_request : String → String
  chat_request prompt =
      "{\"provider\":\"ollama\",\"model\":\"llama3.2\",\"messages\":[{\"role\":\"user\",\"content\":"
      ++ quote prompt
      ++ "}]}"

  abbrev first_content : String → List String → Handler
  first_content resp [] = fail (new ("llm.chat returned no choices: " ++ resp))
  first_content resp (content ∷ rest) = done ("{\"content\":" ++ quote content ++ "}")

  -- `decode` is json.Unmarshal into the struct.
  unfoldable pub handle_plugin_call : (String → Result ChatReply) → String → ℤ → Handler
  handle_plugin_call decode prompt seq = do
    called ← ask (plugin_call "llm" "chat" (chat_request prompt))
    check called (λ e. fail (wrap "plugin call llm.chat: " e))
        (λ resp.
          check (decode resp)
            (λ e. fail (wrap ("decoding llm.chat response " ++ quote resp ++ ": ") e))
            (λ out.
              if out.failure == ""
              then first_content resp out.choices
              else fail (new ("llm.chat reported: " ++ out.failure))))
