-- ===== src/Samples/Saga/Runner.antt =====
-- What the saga workflow relies on of cleat.NewSaga, AddStep and Run: the steps go forward in order,
-- a failed step stops them, and the completed ones are then compensated, the latest first, each of
-- them whatever the compensation before it answered.
use cleat_ports.Base.{List, [], ◌∷◌, Option, none, some, ◌≡◌, refl}
use cleat_ports.Base.{String}
use cleat_ports.Host.Calls.{Error, Result, ok, err}
use cleat_ports.Host.Program.{Prog, Handler, ret, ◌>>=◌}
use cleat_ports.Host.Run.{Event, Outcome}
use cleat_ports.Host.Logic.{Ensures}
use cleat_ports.Samples.Saga.{SagaStep}

-- `if err != nil { failed } else { rest }`
unfoldable pub attempt : {A B : Type 0} → Result A → (Error → Prog B) → Prog B → Prog B
attempt (ok a) failed rest = rest
attempt (err e) failed rest = failed e

-- A compensation, or nothing where there is none.
abbrev pub compensated : Option (Prog (Result (Unit {0}))) → Prog (Result (Unit {0}))
compensated none = ret (ok tt)
compensated (some c) = c

-- `going steps completed` is a run with the steps still to take and those taken, the latest first;
-- `undoing completed e` what is left to compensate, and the error so far.
pub record SagaRunner : Type 1 where
  pub run_saga : List SagaStep → Prog (Result (Unit {0}))
  pub going : List SagaStep → List SagaStep → Prog (Result (Unit {0}))
  pub undoing : List SagaStep → Error → Prog (Result (Unit {0}))
  pub joined : Error → Result (Unit {0}) → Error
  pub reported : Error → Error
  pub run_saga-start : (steps : List SagaStep) → run_saga steps ≡ going steps []
  pub going-end : (completed : List SagaStep) → going [] completed ≡ ret (ok tt)
  pub going-step :
      (step : SagaStep) (steps completed : List SagaStep)
      → going (step ∷ steps) completed ≡ (
          step.forward >>= λ r.
          attempt r (λ e. undoing completed e) (going steps (step ∷ completed)))
  pub undoing-end : (e : Error) → undoing [] e ≡ ret (err (reported e))
  pub undoing-step :
      (step : SagaStep) (completed : List SagaStep) (e : Error)
      → undoing (step ∷ completed) e
        ≡ (compensated step.compensate >>= λ r. undoing completed (joined e r))

module _ {P : List Event → Outcome (Result String) → Type 0} where
  pub Ensures-attempt :
      {A : Type 0} {B : Type 0} (a : Result A) (failed : Error → Prog B) (rest : Prog B)
      (k : B → Handler)
      → ((e : Error) → a ≡ err e → Ensures P (failed e >>= k))
      → ((v : A) → a ≡ ok v → Ensures P (rest >>= k))
      → Ensures P (attempt a failed rest >>= k)
  unfolding attempt
  Ensures-attempt (ok v) failed rest k hf hr = hr v refl
  Ensures-attempt (err e) failed rest k hf hr = hf e refl
