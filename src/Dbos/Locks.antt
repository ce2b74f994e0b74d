-- ===== src/Dbos/Locks.antt =====
-- ports/dbos-transact-py/workflows/lockholder/main.go and
-- ports/dbos-transact-py/workflows/locktry/main.go
pub mod Release
use cleat_ports.Base.{String, ◌++◌, Bool, not}
use cleat_ports.Base.Int.{ℤ, pos}
use cleat_ports.Base.Format.{Unicode, quote, show_bool}
use cleat_ports.Host.Calls.{
  wrap, message, durable_call, durable_sleep_ms, acquire_lock_ms, release_lock,
}
use cleat_ports.Dbos.Fixture.{flaky_request, error_report}
use cleat_ports.Host.Program.{Handler, ask, done, fail, if◌then◌else◌, check, ◌>>=◌, ◌>>◌}

abbrev pub lock_key : String → String
lock_key key = "lock-" ++ key

module _ ⦃u : Unicode⦄ where
  unfoldable pub handle_lock_holder : String → ℤ → Handler
  handle_lock_holder key hold_ms = do
    tried ← ask (acquire_lock_ms (lock_key key) (pos 120000))
    check tried (λ e. done (error_report e))
        (λ acquired. if not acquired then done "{\"outcome\":\"not-acquired\"}" else (do
          announced ← ask (durable_call "flaky" "op" (flaky_request (key ++ "-held")))
          check announced (λ e. fail (wrap "announce: " e))
              (λ _. do
                ask (durable_sleep_ms hold_ms)
                released ← ask (release_lock (lock_key key))
                check released
                    (λ e.
                      done
                        ("{\"outcome\":\"release-failed\",\"error\":" ++ quote (message e) ++ "}"))
                    (λ _. done "{\"outcome\":\"held-and-released\"}"))))

  unfoldable pub acquired_report : Bool → String
  acquired_report acquired = "{\"acquired\":" ++ show_bool acquired ++ "}"

  unfoldable pub handle_lock_try : String → ℤ → Handler
  handle_lock_try key ttl_ms = do
    tried ← ask (acquire_lock_ms (lock_key key) ttl_ms)
    check tried (λ e. done (error_report e))
        (λ acquired.
          if acquired
          then (do
            released ← ask (release_lock (lock_key key))
            check released
                (λ e. done ("{\"acquired\":true,\"release_error\":" ++ quote (message e) ++ "}"))
                (λ _. done (acquired_report acquired)))
          else done (acquired_report acquired))
