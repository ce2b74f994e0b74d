-- ===== src/Tests/Sagas.antt =====
-- A saga helper, and a state of the example host in which two of the bank's operations fail.
use cleat_ports.Base.{List, [], ◌∷◌, refl}
use cleat_ports.Base.Format.{latin_1}
use cleat_ports.Host.Calls.{Error, Result, ok, err}
use cleat_ports.Host.Program.{Prog, ret, ◌>>=◌}
use cleat_ports.Samples.Saga.{SagaStep}
use cleat_ports.Samples.Saga.Runner.{SagaRunner, attempt, compensated}
use cleat_ports.Tests.{Machine, fresh_machine}

undo_all : List SagaStep → Error → Prog (Result (Unit {0}))
undo_all [] e = ret (err e)
undo_all (step ∷ completed) e = compensated step.compensate >>= λ r. undo_all completed e

go_on : List SagaStep → List SagaStep → Prog (Result (Unit {0}))
go_on [] completed = ret (ok tt)
go_on (step ∷ steps) completed =
    let rest = go_on steps (step ∷ completed) in
    step.forward >>= λ r. attempt r (λ e. undo_all completed e) rest

unfoldable pub runner : SagaRunner
unfolding undo_all go_on
runner = record {
  run_saga = λ steps. go_on steps [];
  going = go_on;
  undoing = undo_all;
  joined = λ e r. e;
  reported = λ e. e;
  run_saga-start = λ steps. refl;
  going-end = λ completed. refl;
  going-step = λ step steps completed. refl;
  undoing-end = λ e. refl;
  undoing-step = λ step completed e. refl;
}

-- The third step fails, and a compensation does.
abbrev pub notify_fails : Machine
notify_fails = record fresh_machine { failing = "Notify" ∷ "DepositCompensation" ∷ [] }
