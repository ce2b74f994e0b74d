-- ===== src/Tests/Others.antt =====
-- Runs of the clock, of a quorum, of HandleCancelChild and of the update workflows.
use cleat_ports.Base.{
  ap, String, false, none, [], ◌∷◌, ◌≡◌, refl, arith, ◌==◌, append, if◌then◌else◌,
}
use cleat_ports.Base.Int.{ℤ, pos, wrap64, ◌+ℤ◌, millis}
use cleat_ports.Base.Text.{contains, contains_text, join}
use cleat_ports.Base.Format.{quote, show_int, decimal, latin_1}
use cleat_ports.Host.Calls.{new, Result, ok, err, Update}
use cleat_ports.Host.Program.{branching}
use cleat_ports.Host.Run.{run, returned}
use cleat_ports.Host.History.Spawns.{child_requests}
use cleat_ports.Samples.DurableClock.{handle_durable_clock, clock_report}
use cleat_ports.Samples.DurableClock.Burn.{clock_report_exact, burn_exact}
use cleat_ports.Sdk.{handle_cancel_child}
use cleat_ports.Sdk.Cancelled.{starts_child_if_cancelled}
use cleat_ports.Sdk.Updates.{handle_updates, updates_report, registered}
use cleat_ports.Sdk.Updates.Order.{updates_in_order}
use cleat_ports.Dbos.Updates.{handle_updatable, applied_report}
use cleat_ports.Dbos.Updates.Total.{applied_total}
use cleat_ports.Host.Calls.{SignalResult, Call, Answer, ok, durable_call, await_quorum}
use cleat_ports.Host.Run.{Host, Reaction, resume, stop}
use cleat_ports.Samples.Quorum.{handle_quorum}
use cleat_ports.Samples.Quorum.Listed.{Lists, quorum_report-Lists}
use cleat_ports.Tests.{Machine, machine, fresh_machine}

starts_child_if_cancelled_example :
    child_requests (run machine (handle_cancel_child "leaf" (pos 5)) fresh_machine).trace
    ≡ ("leaf", "{\"marker\":\"post-cancel\",\"n\":0}") ∷ []
unfolding handle_cancel_child run branching quote decimal
starts_child_if_cancelled_example =
    starts_child_if_cancelled machine fresh_machine "leaf" (pos 5)
      "{\"outcome\":\"child-started\",\"reason\":\"operator\",\"childId\":\"run-0\"}" refl

abbrev update : String → String → Update
update name payload = record { name = name; payload = payload }

abbrev some_updates : Machine
some_updates = record fresh_machine {
  updates =
      update "echo" "hi"
      ∷ update "guarded" "{\"reject\":true}"
      ∷ update "unknown" ""
      ∷ update "boom" ""
      ∷ [];
}

updates_in_order_example :
    "{\"marker\":\"m\",\"applied\":2,\"order\":\"echo,boom\"}"
    ≡ updates_report "m" ("echo" ∷ "boom" ∷ [])
unfolding handle_updates registered updates_report run branching quote decimal join append
    contains_text
updates_in_order_example =
    updates_in_order machine some_updates [] "m" (pos 2)
      "{\"marker\":\"m\",\"applied\":2,\"order\":\"echo,boom\"}" refl

-- Decodes two payloads.
abbrev by_of : String → Result ℤ
by_of s = if s == "3" then ok (pos 3) else if s == "0" then ok (pos 0) else err (new "no number")

abbrev three_bumps : Machine
three_bumps = record fresh_machine {
  updates = update "bump" "3" ∷ update "bump" "0" ∷ update "bump" "x" ∷ update "bump" "3" ∷ [];
}

applied_total_example : "{\"applied\":6}" ≡ applied_report (pos 6)
unfolding handle_updatable run branching applied_report show_int decimal wrap64 ◌+ℤ◌ contains
applied_total_example =
    applied_total by_of machine three_bumps "k" (pos 100) "{\"applied\":6}" (omega arith) refl

clock_report_exact_example :
    clock_report "k" (pos 0) (pos 0) (pos 0) (pos 50000000) 5999995
    ≡ "{\"key\":\"k\",\"t0\":0,\"t1\":0,\"t2\":0,\"t3\":50000000,\"burned\":5999995}"
unfolding handle_durable_clock run branching contains millis ◌+ℤ◌ clock_report quote show_int
    decimal
clock_report_exact_example =
    clock_report_exact machine fresh_machine "k" (pos 50)
      "{\"key\":\"k\",\"t0\":0,\"t1\":0,\"t2\":0,\"t3\":50000000,\"burned\":5999995}"
      (ap (λ b. returned (ok (clock_report "k" (pos 0) (pos 0) (pos 0) (pos 50000000) b)))
        (burn_exact 2000000 (omega arith)))

-- A host that brings two signals to a quorum.
abbrev vote : String → SignalResult
vote name = record { name = name; timed_out = false; failure = none }

abbrev voted : Unit {0} → (c : Call) → Reaction (Answer c) (Unit {0})
voted u (durable_call service op request) = resume (ok "{}") u
voted u (await_quorum names need shared timeout) = resume (vote "b" ∷ vote "a" ∷ [], none) u
voted u _ = stop u

abbrev voters : Host
voters = record { State = Unit {0}; react = voted }

quorum_report-Lists_example :
    Lists
      (run voters (handle_quorum "k" "a,b,c" (pos 2) (pos 1000)) tt).trace
      (run voters (handle_quorum "k" "a,b,c" (pos 2) (pos 1000)) tt).outcome
quorum_report-Lists_example = quorum_report-Lists voters tt "k" "a,b,c" (pos 2) (pos 1000)
