-- ===== src/Dbos/Updates.antt =====
-- ports/dbos-transact-py/workflows/updatable/main.go
-- The captured variable `applied` is the state that the handler is given and hands back.
pub mod Total
use cleat_ports.Base.{String, ◌++◌, List, [], ◌∷◌, Option, none, some, ◌==◌, if◌then◌else◌}
use cleat_ports.Base.Int.{ℤ, pos, leb_ℤ, ◌+ℤ◌, wrap64, millis}
use cleat_ports.Base.Format.{Unicode, quote, show_int}
use cleat_ports.Host.Calls.{
  Error, new, wrap, Result, ok, err, Update, durable_call, durable_sleep, await_signals,
  register_update_handler, dispatched,
}
use cleat_ports.Dbos.Fixture.{flaky_request}
use cleat_ports.Host.Program.{Handler, ask, done, fail, check, check_field, ◌>>=◌, ◌>>◌}

-- `const windowMs = 4000`
abbrev pub window_ms : ℤ
window_ms = pos 4000

unfoldable pub applied_report : ℤ → String
applied_report applied = "{\"applied\":" ++ show_int applied ++ "}"

-- `by_of` is json.Unmarshal into the struct of one field, "by".
module _ ⦃u : Unicode⦄ (by_of : String → Result ℤ) where
  abbrev bad_payload : String → Error → Error
  bad_payload payload e = wrap ("bump: bad payload " ++ quote payload ++ ": ") e

  abbrev pub refused_by : String → Result ℤ → Option Error
  refused_by payload (err e) = some (bad_payload payload e)
  refused_by payload (ok by) =
      if leb_ℤ by (pos 0)
      then some (new ("bump: by must be positive, got " ++ show_int by))
      else none

  -- the validator
  abbrev pub validate_bump : String → Option Error
  validate_bump payload = refused_by payload (by_of payload)

  abbrev bumped : String → Result ℤ → ℤ → ℤ × Result String
  bumped payload (err e) applied = (applied, err (bad_payload payload e))
  bumped payload (ok by) applied =
      (wrap64 (applied +ℤ by), ok ("{\"total\":" ++ show_int (wrap64 (applied +ℤ by)) ++ "}"))

  -- the handler
  abbrev pub handle_bump : String → ℤ → ℤ × Result String
  handle_bump payload applied = bumped payload (by_of payload) applied

  abbrev pub bump_unless : Option Error → String → ℤ → ℤ
  bump_unless (some e) payload applied = applied
  bump_unless none payload applied = (handle_bump payload applied).0

  -- What the dispatched updates leave of `applied`: the handler runs where the name is its own and the
  -- validator does not refuse.
  pub serve_bumps : List Update → ℤ → ℤ
  serve_bumps [] applied = applied
  serve_bumps (up ∷ us) applied = serve_bumps us (
      if up.name == "bump"
      then bump_unless (validate_bump up.payload) up.payload applied
      else applied)

  unfoldable pub handle_updatable : String → ℤ → Handler
  unfolding serve_bumps
  handle_updatable key timeout_ms = do
    ask (register_update_handler "bump")
    announced ← ask (durable_call "flaky" "op" (flaky_request (key ++ "-ready")))
    check announced (λ e. fail (wrap "announce: " e))
        (λ _. do
          ask (durable_sleep (millis window_ms))
          res ← ask (await_signals ("stop" ∷ []) (millis timeout_ms))
          ups ← ask dispatched
          check_field res.failure (λ e. fail (wrap "await stop: " e))
              (done (applied_report (serve_bumps ups (pos 0)))))
