-- ===== src/Tests/Family.antt =====
-- A host that answers the await of a child as a leaf with the tag "t" would, and the await of a promise
-- as if the settler had resolved it.
use cleat_ports.Base.{[], ◌∷◌, true, false, inl, ◌≡◌, String, ◌++◌, refl}
use cleat_ports.Base.Int.{pos}
use cleat_ports.Base.Json.{codes, text, number, read_object}
use cleat_ports.Base.Text.{contains}
use cleat_ports.Base.Format.{quote, show_int, decimal, latin_1}
use cleat_ports.Base.Format.Escapes.{json_safe}
use cleat_ports.Host.Calls.{ok, Call, Answer, await_child, await_promise_ms}
use cleat_ports.Host.Program.{branching}
use cleat_ports.Host.Run.{Host, Reaction, resume, run}
use cleat_ports.Host.History.Spawns.{spawned}
use cleat_ports.Host.Returns.{AreHonest, here, answered}
use cleat_ports.Dbos.Children.{leaf_input, handle_leaf, child_report, handle_await_one_child}
use cleat_ports.Dbos.Children.Leaf.{LeafChild, child_result_carried}
use cleat_ports.Dbos.Promises.{handle_promise, handle_settle}
use cleat_ports.Dbos.Promises.Settler.{SettlerChild, settled_value}
use cleat_ports.Dbos.Promises.Settled.{PromiseOutcome, resolved_report, promise_settled_by_child}
use cleat_ports.Host.Settling.{SettledByChildren, made}
use cleat_ports.Tests.{Machine, machine, fresh_machine}

abbrev family_react : Machine → (c : Call) → Reaction (Answer c) Machine
family_react m (await_child id) = resume (ok "{\"tag\":\"t\"}") m
family_react m (await_promise_ms id ms) = resume (ok (settled_value, false)) m
family_react m c = machine.react m c

abbrev family : Host
family = record { State = Machine; react = family_react }

family_honest :
    AreHonest LeafChild (run family (handle_await_one_child (pos 5) "t") fresh_machine).trace
unfolding handle_await_one_child handle_leaf leaf_input run branching quote show_int decimal
    read_object contains
family_honest = (
  tt,
  (
    (
      pos 5,
      "t",
      (codes "ms", number (pos 5)) ∷ (codes "tag", text (codes "t")) ∷ [],
      refl,
      refl,
      refl,
      answered tt (answered tt here),
    ),
    tt,
  ),
)

child_result_carried_example :
    (id : String) × (spawned (run family (handle_await_one_child (pos 5) "t") fresh_machine).trace
      ≡ id ∷ [])
    × ("{\"runID\":\"run-0\",\"child\":{\"tag\":\"t\"}}"
        ≡ "{\"runID\":" ++ quote id ++ ",\"child\":{\"tag\":\"t\"}}")
    × (json_safe "t" ≡ true)
unfolding handle_await_one_child run branching quote decimal child_report contains
child_result_carried_example =
    child_result_carried family fresh_machine (pos 5) "t"
      "{\"runID\":\"run-0\",\"child\":{\"tag\":\"t\"}}" family_honest refl

family_settles :
    SettledByChildren SettlerChild
      (run family (handle_promise "resolve" (pos 5)) fresh_machine).trace
unfolding handle_promise handle_settle run branching quote decimal read_object contains
family_settles = (
  tt,
  (
    tt,
    (
      inl (
        "port-promise",
        "resolve",
        (codes "promiseId", text (codes "port-promise"))
            ∷ (codes "mode", text (codes "resolve"))
            ∷ [],
        refl,
        refl,
        refl,
        made,
      ),
      tt,
    ),
  ),
)

promise_settled_by_child_example : PromiseOutcome "resolve" (resolved_report settled_value)
unfolding handle_promise run branching contains
promise_settled_by_child_example =
    promise_settled_by_child family fresh_machine "resolve" (pos 5) (resolved_report settled_value)
      family_settles refl
