-- ===== src/Tests/Recovery.antt =====
-- A run whose worker crashes in its sleep, and another worker that takes it over.
use cleat_ports.Base.{Bool, true, false, ◌*◌, ◌≡◌, refl, arith, List, String, ◌++◌, [], ◌∷◌}
use cleat_ports.Base.Int.{pos, wrap64, ◌+ℤ◌}
use cleat_ports.Base.Text.{contains}
use cleat_ports.Base.Format.{quote, show_int, decimal, latin_1}
use cleat_ports.Host.Calls.{
  new, poll_cancellation, durable_log, err, Result, ok, Call, Answer, durable_call,
  durable_sleep_ms,
}
use cleat_ports.Host.Program.{branching}
use cleat_ports.Host.Run.{Host, Reaction, resume, stop, Event, event, Outcome, returned, run}
use cleat_ports.Host.Recovery.{Execution, attempt, recover, served, at_end}
use cleat_ports.Dbos.Fixture.{flaky_request}
use cleat_ports.Dbos.Calls.{handle_recovery}
use cleat_ports.Dbos.Calls.Recovery.{CalledOnce, recovery_calls_once}
use cleat_ports.Host.History.{operations}
use cleat_ports.Dbos.Cancellation.{handle_bulk_cancel_steps, cancelled_report}
use cleat_ports.Dbos.Cancellation.Bulk.{cancel_survives_crashes}
use cleat_ports.Samples.Saga.{bank_req, handle_saga_transfer}
use cleat_ports.Samples.Saga.Runner.{attempt as saga_attempt}
use cleat_ports.Samples.Saga.Order.{transfer_survives_crashes, is_ok}
use cleat_ports.Tests.Sagas.{runner, notify_fails}
use cleat_ports.Tests.{Machine, machine, fresh_machine}

abbrev crash_react : Machine → (c : Call) → Reaction (Answer c) Machine
crash_react m (durable_sleep_ms ms) = stop m
crash_react m c = machine.react m c

abbrev crashing : Host
crashing = record { State = Machine; react = crash_react }

abbrev record_of_both : List Event
record_of_both =
    event (durable_call "flaky" "op" (flaky_request ("k" ++ "-before"))) (ok "{}")
    ∷ event (durable_sleep_ms (pos 1000)) tt
    ∷ event (durable_call "flaky" "op" (flaky_request ("k" ++ "-after"))) (ok "{}")
    ∷ []

abbrev both_answered : Outcome (Result String)
both_answered = returned (ok "{\"before\":{},\"after\":{}}")

taken_over : Execution (handle_recovery "k" (pos 1000)) record_of_both both_answered
unfolding handle_recovery run branching contains
taken_over =
    recover machine fresh_machine (attempt crashing fresh_machine) (served (ok "{}") at_end)

recovery_calls_once_example : CalledOnce "k" record_of_both both_answered
recovery_calls_once_example =
    recovery_calls_once "k" (pos 1000) record_of_both both_answered taken_over

abbrev cancel_at_once : Machine
cancel_at_once = record fresh_machine { polls = 0 }

-- The first worker crashes in the sleep after its first poll; the second one is cancelled.
abbrev record_of_cancel : List Event
record_of_cancel =
    event (durable_call "steps" "one" "{\"key\":\"k-one\"}") (ok "{}")
    ∷ event poll_cancellation (false, "")
    ∷ event (durable_sleep_ms (pos 250)) tt
    ∷ event poll_cancellation (true, "operator")
    ∷ event (durable_log "bulk-cancel: observed cancellation: operator") tt
    ∷ []

cancelled_later :
    Execution
      (handle_bulk_cancel_steps "k" (pos 2000))
      record_of_cancel
      (returned (ok (cancelled_report "operator" (pos 250))))
unfolding handle_bulk_cancel_steps cancelled_report run branching contains quote show_int decimal
    wrap64 ◌+ℤ◌
cancelled_later =
    recover machine cancel_at_once (attempt crashing fresh_machine)
      (served (ok "{}") (served (false, "") at_end))

cancel_survives_crashes_example :
    (operations record_of_cancel ≡ "one" ∷ [])
    × (cancelled_report "operator" (pos 250) ≡ cancelled_report "operator" (pos (250 * 1)))
cancel_survives_crashes_example =
    cancel_survives_crashes "k" (pos 2000) "operator" (cancelled_report "operator" (pos 250))
      record_of_cancel (omega arith) cancelled_later refl

-- A host that crashes at the operations that it is to fail.
abbrev answer_or_stop : Machine → Bool → Reaction (Result String) Machine
answer_or_stop m true = stop m
answer_or_stop m false = resume (ok "{}") m

abbrev stop_react : Machine → (c : Call) → Reaction (Answer c) Machine
stop_react m (durable_call service op request) = answer_or_stop m (contains m.failing op)
stop_react m c = machine.react m c

abbrev stopping : Host
stopping = record { State = Machine; react = stop_react }

abbrev bank_event : String → Result String → Event
bank_event op r = event (durable_call "banking" op (bank_req "k" op "Notify")) r

abbrev undo_event : String → Result String → Event
undo_event op r = event (durable_call "banking" op (bank_req "k" op "DepositCompensation")) r

-- The first worker crashes at the notification; for the second one it fails, and a compensation does.
abbrev record_of_transfer : List Event
record_of_transfer =
    bank_event "Withdraw" (ok "{}")
    ∷ bank_event "Deposit" (ok "{}")
    ∷ bank_event "Notify" (err (new "HTTP 500"))
    ∷ undo_event "DepositCompensation" (err (new "HTTP 500"))
    ∷ undo_event "WithdrawCompensation" (ok "{}")
    ∷ []

transfer_taken_over :
    Execution
      (handle_saga_transfer runner.run_saga "k" "Notify" "DepositCompensation")
      record_of_transfer
      (returned (err (new "HTTP 500")))
unfolding handle_saga_transfer run branching runner saga_attempt contains
transfer_taken_over =
    recover machine notify_fails (attempt stopping notify_fails)
      (served (ok "{}") (served (ok "{}") at_end))

transfer_survives_crashes_example :
    (operations record_of_transfer
      ≡ "Withdraw" ∷ "Deposit" ∷ "Notify" ∷ "DepositCompensation" ∷ "WithdrawCompensation" ∷ [])
    × (is_ok (err (new "HTTP 500")) ≡ false)
unfolding contains
transfer_survives_crashes_example =
    transfer_survives_crashes runner "k" "Notify" "DepositCompensation" record_of_transfer
      (err (new "HTTP 500")) transfer_taken_over
