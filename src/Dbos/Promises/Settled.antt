-- ===== src/Dbos/Promises/Settled.antt =====
-- ports/dbos-transact-py/workflows/promiseparent/main.go with the child of promisesettler/main.go.
use cleat_ports.Base.{String, ◌++◌, true, false, List, ◌≡◌, ◌⊎◌, sym, ap, ◌∙◌, ◌==◌, inl, inr}
use cleat_ports.Base.Int.{ℤ}
use cleat_ports.Base.Format.{Unicode, quote}
use cleat_ports.Base.Format.Escapes.{json_safe}
use cleat_ports.Host.Calls.{Error, Result, ok}
use cleat_ports.Host.Run.{Host, Event, Outcome, returned, run}
use cleat_ports.Host.Logic.{
  Ensures, Ensures-ret, Ensures-call, Ensures-check, Ensures-if, run-Ensures,
}
use cleat_ports.Host.Settling.{SettledByChildren}
use cleat_ports.Dbos.Fixture.{error_report}
use cleat_ports.Dbos.Promises.{handle_promise}
use cleat_ports.Dbos.Promises.Settler.{settled_value, SettlerChild, none_settled, child_settled}

module _ ⦃u : Unicode⦄ where
  abbrev pub resolved_report : String → String
  resolved_report value = "{\"outcome\":\"resolved\",\"result\":" ++ quote value ++ "}"

  -- The results that a parent may come to.
  abbrev pub PromiseOutcome : String → String → Type 0
  PromiseOutcome mode result =
      (result ≡ "{\"outcome\":\"timedout\"}")
      ⊎ ((e : Error) × (result ≡ error_report e))
      ⊎ ((result ≡ resolved_report settled_value)
          × ((mode == "reject") ≡ false)
          × ((mode == "timeout") ≡ false)
          × (json_safe mode ≡ true))

  Told : String → List Event → Outcome (Result String) → Type 0
  Told mode tr o =
      SettledByChildren SettlerChild tr → (x : String) → o ≡ returned (ok x) → PromiseOutcome mode x

  handle_promise-Told : (mode : String) (ms : ℤ) → Ensures (Told mode) (handle_promise mode ms)
  unfolding handle_promise Told
  handle_promise-Told mode ms =
      Ensures-call _ _ (λ fair x q. cc)
        λ r.
          Ensures-check _ _ _ (λ e f. Ensures-ret _ λ fair x q. cc)
            λ id f.
              Ensures-if _ _ _
                (λ waits.
                  Ensures-call _ _ (λ fair x q. cc)
                    λ r''.
                      Ensures-check _ _ _ (λ e g. Ensures-ret _ λ fair x q. inr (inl (e, cc)))
                        λ answer g.
                          Ensures-if _ _ _ (λ late. Ensures-ret _ λ fair x q. inl (cc))
                            λ on_time. Ensures-ret _ λ fair x q.
                              absurd
                                (none_settled "port-promise" id ms r r'' answer fair g on_time))
                λ settles.
                  Ensures-call _ _ (λ fair x q. cc)
                    λ r'.
                      Ensures-check _ _ _ (λ e g. Ensures-ret _ λ fair x q. cc)
                        λ run_id g.
                          Ensures-call _ _ (λ fair x q. cc)
                            λ r''.
                              Ensures-check _ _ _
                                (λ e p. Ensures-ret _ λ fair x q. inr (inl (e, cc)))
                                λ answer p.
                                  Ensures-if _ _ _ (λ late. Ensures-ret _ λ fair x q. inl (cc))
                                    λ on_time. Ensures-ret _ λ fair x q.
                                      let (value, resolves, safe) =
                                        child_settled "port-promise" id mode ms r r' r'' answer fair
                                          p on_time in
                                      let spelled : resolved_report answer.0 ≡ x = cc in
                                      inr (
                                        inr (
                                          sym spelled ∙ ap resolved_report value,
                                          resolves,
                                          settles,
                                          safe,
                                        ))

  -- HandlePromise with HandleSettle as its child: against any host whose promises are settled by the
  -- children that the run has started alone, with what HandleSettle may resolve for the arguments
  -- that the child's input has as JSON, a result of the parent says that the await timed out, or
  -- failed, or else that the promise was resolved with the settler's very value; and the last only
  -- in a mode that is neither "reject" nor "timeout", and that %q writes as JSON does.
  pub promise_settled_by_child :
      (h : Host) (s : h.State) (mode : String) (timeout_ms : ℤ) (result : String)
      → SettledByChildren SettlerChild (run h (handle_promise mode timeout_ms) s).trace
      → (run h (handle_promise mode timeout_ms) s).outcome ≡ returned (ok result)
      → PromiseOutcome mode result
  unfolding Told
  promise_settled_by_child h s mode timeout_ms result fair e =
      run-Ensures h s (handle_promise-Told mode timeout_ms) fair result e
