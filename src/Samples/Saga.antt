-- ===== src/Samples/Saga.antt =====
-- ports/samples-go/workflows/saga/main.go
-- The saga helper itself (cleat.NewSaga, AddStep, Run) is the package's, and enters as a parameter.
pub mod Runner
pub mod Order
use cleat_ports.Base.{String, ◌++◌, Bool, List, [], ◌∷◌, Option, none, some, ◌==◌}
use cleat_ports.Base.Format.{Unicode, quote, show_bool}
use cleat_ports.Host.Calls.{Result, ok, err, durable_call}
use cleat_ports.Host.Program.{Prog, Handler, ret, ask, done, fail, check, ◌>>=◌}

-- The arguments of one AddStep; a compensation that is nil is none.
pub record SagaStep : Type 0 where
  pub name : String
  pub forward : Prog (Result String)
  pub compensate : Option (Prog (Result (Unit {0})))

module _ ⦃u : Unicode⦄ where
  -- The fixture request, by whether the operation is to fail.
  unfoldable pub fixture_request : String → Bool → String
  fixture_request key failing =
      "{\"key\":" ++ quote key ++ ",\"fail_permanently\":" ++ show_bool failing ++ "}"

  unfoldable pub bank_req : String → String → String → String
  bank_req key op fail_op = fixture_request key (op == fail_op)

  abbrev pub forward_step : String → String → String → Prog (Result String)
  forward_step key op fail_at = ask (durable_call "banking" op (bank_req key op fail_at))

  -- `_, err := ...; return err`
  abbrev only_error : Result String → Result (Unit {0})
  only_error (ok _) = ok tt
  only_error (err e) = err e

  abbrev pub compensation : String → String → String → Prog (Result (Unit {0}))
  compensation key op fail_at = do
    r ← ask (durable_call "banking" op (bank_req key op fail_at))
    ret (only_error r)

  abbrev pub transfer_steps : String → String → String → List SagaStep
  transfer_steps key fail_at fail_compensation_at =
      record {
        name = "withdraw";
        forward = forward_step key "Withdraw" fail_at;
        compensate = some (compensation key "WithdrawCompensation" fail_compensation_at);
      }
      ∷ record {
        name = "deposit";
        forward = forward_step key "Deposit" fail_at;
        compensate = some (compensation key "DepositCompensation" fail_compensation_at);
      }
      ∷ record { name = "notify"; forward = forward_step key "Notify" fail_at; compensate = none }
      ∷ []

  module _ (run_saga : List SagaStep → Prog (Result (Unit {0}))) where
    unfoldable pub handle_saga_transfer : String → String → String → Handler
    handle_saga_transfer key fail_at fail_compensation_at = do
      ran ← run_saga (transfer_steps key fail_at fail_compensation_at)
      check ran (λ e. fail e) (λ _. done ("{\"key\":" ++ quote key ++ ",\"transferred\":true}"))
