-- ===== src/Service/Retrying/DeadLetter.antt =====
-- ports/dbos-transact-py/workflows/deadletter/main.go and deadletteropaque/main.go against
-- scripts/fixture-service.py.
use cleat_ports.Base.{
  ℕ, suc, ◌+◌, ◌≤◌, String, ◌++◌, true, List, [], ◌∷◌, some, ◌≡◌, ◌≢◌, refl, ap, ◌∙◌,
}
use cleat_ports.Base.Int.{ℤ, pos}
use cleat_ports.Base.Json.{codes, text, number, read_object}
use cleat_ports.Base.Format.{Unicode}
use cleat_ports.Base.Format.Escapes.{json_safe}
use cleat_ports.Base.Format.Json.{quote-read, json}
use cleat_ports.Host.Calls.{Error, new, wrap, Result, err}
use cleat_ports.Host.Program.{Handler, ask, check, ◌>>=◌}
use cleat_ports.Host.Run.{Host, Event, Outcome, returned, run}
use cleat_ports.Host.Logic.{Ensures, Ensures-ret, Ensures-call, Ensures-check, run-Ensures}
use cleat_ports.Host.History.Requests.{call_errors}
use cleat_ports.Host.Calls.{durable_call_with_options}
use cleat_ports.Host.Completion.{Completes, Completes-ret}
use cleat_ports.Dbos.Calls.{
  handle_dead_letter, handle_dead_letter_opaque, hopeless_request, constant_policy,
}
use cleat_ports.Service.{Python}
use cleat_ports.Service.State.{named, Tables}
use cleat_ports.Service.Lookup.{ReadsJson}
use cleat_ports.Service.Forwarding.{Forwarding, Completes-retried}
use cleat_ports.Service.Retrying.{FailsFirst, request-FailsFirst, tries-failure}

module _ ⦃u : Unicode⦄ where
  hopeless_request-read :
      (key : String)
      → json_safe key ≡ true
      → read_object (hopeless_request key)
        ≡ some ((codes "key", text (codes key)) ∷ (codes "fail_times", number (pos 999)) ∷ [])
  unfolding hopeless_request read_object
  hopeless_request-read key e = simp (json, quote-read, e)

  hopeless_request-FailsFirst :
      (py : Python) (reads : ReadsJson py) (path key : String)
      → json_safe key ≡ true
      → key ≢ ""
      → FailsFirst py path (hopeless_request key) key 999 (pos 503)
  hopeless_request-FailsFirst py reads path key safe some_key =
      request-FailsFirst py reads path (hopeless_request key) key _ (pos 999) (pos 503)
        (hopeless_request-read key safe) some_key refl refl refl refl refl

module _ ⦃u : Unicode⦄ (service key : String) (attempts interval_ms : ℤ) where
  -- An error that HandleDeadLetter returns wraps the one that its call was answered with.
  WrapsAnswer : List Event → Outcome (Result String) → Type 0
  WrapsAnswer tr o =
      (x : Error)
      → o ≡ returned (err x)
      → (e : Error) × (x ≡ wrap "the call never succeeded: " e) × (call_errors tr ≡ e ∷ [])

  handle_dead_letter-WrapsAnswer :
      Ensures WrapsAnswer (handle_dead_letter service key attempts interval_ms)
  unfolding handle_dead_letter WrapsAnswer
  handle_dead_letter-WrapsAnswer =
      Ensures-call _ _ (λ x q. cc)
        λ called.
          Ensures-check _ _ _ (λ e f. Ensures-ret _ λ x q. (e, cc, rw (f) refl))
            λ text f. Ensures-ret _ λ x q. cc

module _ ⦃u : Unicode⦄ (py : Python) (reads : ReadsJson py) (h : Host) (to : Forwarding py h)
    (service key : String) (interval_ms : ℤ) (more : ℕ) (s : h.State) where
  abbrev counts : Tables → ℕ
  counts t = t.counts (named (codes key))

  -- A body that makes the hopeless call first goes on with an error.
  hopeless-Completes :
      {P : Result String → h.State → Type 0} (failed : Error → Handler) (rest : String → Handler)
      → json_safe key ≡ true
      → key ≢ ""
      → counts (to.tables s) + suc more ≤ 999
      → ((e : Error) (s' : h.State)
          → counts (to.tables s') ≡ counts (to.tables s) + suc more
          → Completes h P (failed e) s')
      → Completes h P
          (ask (
              durable_call_with_options
                (constant_policy (pos (suc more)) interval_ms)
                service
                "op"
                (hopeless_request key))
            >>= λ called. check called failed rest)
          s
  unfolding constant_policy check
  hopeless-Completes failed rest safe some_key few on =
      let path = service ++ "/" ++ "op" in
      let raw = hopeless_request key in
      let first = hopeless_request-FailsFirst py reads path key safe some_key in
      let (p, reply, count) =
        tries-failure py path raw key 999 (pos 503) first more (to.tables s) refl few in
      Completes-retried py h to (constant_policy (pos (suc more)) interval_ms) more service "op" raw
        (pos 503) p _ s refl reply tt
        λ a s' is kept. rw (is.1) (on is.0 s' (ap counts kept ∙ count))

  -- With a worker that forwards the call to the fixture service and retries as documented, and a key
  -- that is not empty and that %q writes as JSON: while the key's calls before the run and the attempts
  -- come to no more than 999, HandleDeadLetter and HandleDeadLetterOpaque call the service exactly as
  -- often as there are attempts and then return an error: the first that the call never succeeded,
  -- with the one error that its call was answered with behind it, and the second one that says nothing
  -- of the call's.
  pub dead_letters_fail :
      json_safe key ≡ true
      → key ≢ ""
      → counts (to.tables s) + suc more ≤ 999
      → ((e : Error) × ((run h
              (handle_dead_letter service key (pos (suc more)) interval_ms)
              s).outcome
            ≡ returned (err (wrap "the call never succeeded: " e)))
          × (call_errors
                (run h (handle_dead_letter service key (pos (suc more)) interval_ms) s).trace
              ≡ e ∷ []))
        × ((run h (handle_dead_letter_opaque service key (pos (suc more)) interval_ms) s).outcome
            ≡ returned (err (new "could not reach the billing provider")))
        × (counts (
              to.tables
                (run h (handle_dead_letter service key (pos (suc more)) interval_ms) s).final)
            ≡ counts (to.tables s) + suc more)
        × (counts (
              to.tables
                (run h
                  (handle_dead_letter_opaque service key (pos (suc more)) interval_ms)
                  s).final)
            ≡ counts (to.tables s) + suc more)
  unfolding handle_dead_letter handle_dead_letter_opaque WrapsAnswer
  dead_letters_fail safe some_key few =
      let plain : Completes h
          (λ r s'.
            ((e : Error) × (r ≡ err e)) × (counts (to.tables s') ≡ counts (to.tables s) + suc more))
          (handle_dead_letter service key (pos (suc more)) interval_ms) s =
        hopeless-Completes _ _ safe some_key few λ e s' count. Completes-ret _ ((_, refl), count) in
      let opaque : Completes h
          (λ r s'.
            (r ≡ err (new "could not reach the billing provider"))
            × (counts (to.tables s') ≡ counts (to.tables s) + suc more))
          (handle_dead_letter_opaque service key (pos (suc more)) interval_ms) s =
        hopeless-Completes _ _ safe some_key few λ e s' count. Completes-ret _ (refl, count) in
      let ((x, said_so), count) = plain.leaves in
      let failed = plain.returns ∙ ap (λ r. returned r) said_so in
      let (e, wrapped, answered) =
        run-Ensures h s (handle_dead_letter-WrapsAnswer service key (pos (suc more)) interval_ms) x
          failed in
      (
        (e, failed ∙ ap (λ y. returned (err y)) wrapped, answered),
        opaque.returns ∙ ap (λ r. returned r) opaque.leaves.0,
        count,
        opaque.leaves.1,
      )
