-- ===== src/Dbos/Calls/Recovery.antt =====
-- ports/dbos-transact-py/workflows/recovery/main.go through crashes of its workers.
use cleat_ports.Base.{String, ◌++◌, List, [], ◌∷◌, ◌≡◌, ◌⊎◌, inl, inr, refl}
use cleat_ports.Base.Int.{ℤ}
use cleat_ports.Base.Format.{Unicode}
use cleat_ports.Host.Calls.{Result, ok}
use cleat_ports.Host.Run.{Event, Outcome, returned}
use cleat_ports.Host.Logic.{Ensures, Ensures-ret, Ensures-call, Ensures-check}
use cleat_ports.Host.History.Requests.{requests, responses, Unfinished}
use cleat_ports.Host.Recovery.{Execution, execution-Ensures}
use cleat_ports.Dbos.Fixture.{flaky_request}
use cleat_ports.Dbos.Calls.{handle_recovery}

-- The result for the answers of both calls.
abbrev both_report : List String → String
both_report (before ∷ after ∷ []) = "{\"before\":" ++ before ++ ",\"after\":" ++ after ++ "}"
both_report _ = ""

module _ ⦃u : Unicode⦄ where
  abbrev pub call_of : String → String → String × String × String
  call_of key suffix = ("flaky", "op", flaky_request (key ++ suffix))

  -- How far a run has come: no call is repeated.
  abbrev pub CalledOnce : String → List Event → Outcome (Result String) → Type 0
  CalledOnce key tr o =
      (((requests tr ≡ []) ⊎ (requests tr ≡ call_of key "-before" ∷ [])) × Unfinished o)
      ⊎ ((requests tr ≡ call_of key "-before" ∷ call_of key "-after" ∷ [])
          × (Unfinished o ⊎ (o ≡ returned (ok (both_report (responses tr))))))

  handle_recovery-CalledOnce :
      (key : String) (sleep_ms : ℤ) → Ensures (CalledOnce key) (handle_recovery key sleep_ms)
  unfolding handle_recovery
  handle_recovery-CalledOnce key sleep_ms = Ensures-call _ _ (inl (inl refl, tt)) λ r.
      Ensures-check _ _ _ (λ e f. Ensures-ret _ (inl (inr refl, tt)))
        λ before f. Ensures-call _ _ (inl (inr refl, tt)) λ slept.
          Ensures-call _ _ (inl (inr refl, tt)) λ r'.
            Ensures-check _ _ _ (λ e g. Ensures-ret _ (inr (refl, inl tt)))
              λ after g. Ensures-ret _ (inr (refl, inr (rw (f, g) refl)))

  -- Through any number of crashes and takeovers, each on any host, the record of a run of
  -- HandleRecovery has the call for the key with "-before" at most once, and the call for the key
  -- with "-after" at most once and only behind it; a run that returns a result has each exactly
  -- once, and its result is made of the two recorded answers.
  pub recovery_calls_once :
      (key : String) (sleep_ms : ℤ) (tr : List Event) (o : Outcome (Result String))
      → Execution (handle_recovery key sleep_ms) tr o
      → CalledOnce key tr o
  recovery_calls_once key sleep_ms tr o =
      execution-Ensures (CalledOnce key) (handle_recovery key sleep_ms) tr o
        (handle_recovery-CalledOnce key sleep_ms)
