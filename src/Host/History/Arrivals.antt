-- ===== src/Host/History/Arrivals.antt =====
-- Readings of a trace: what DurableAwaitSignals was asked for and delivered.
use cleat_ports.Base.{String, List, [], ◌∷◌, if◌then◌else◌}
use cleat_ports.Host.Calls.{Call, Answer, Result, ok, err, Delivery, durable_await_signals}
use cleat_ports.Host.Run.{Event}

abbrev pub asked_names : Call → List (List String) → List (List String)
asked_names (durable_await_signals names _) rest = names ∷ rest
asked_names _ rest = rest

abbrev pub durable_awaits : List Event → List (List String)
durable_awaits [] = []
durable_awaits (e ∷ es) = asked_names e.request (durable_awaits es)

-- A delivery that did not time out.
abbrev pub arrived : Result Delivery → List Delivery → List Delivery
arrived (ok d) rest = if d.timed_out then rest else d ∷ rest
arrived (err e) rest = rest

abbrev pub arrival_by : (c : Call) → Answer c → List Delivery → List Delivery
arrival_by (durable_await_signals _ _) r rest = arrived r rest
arrival_by _ _ rest = rest

abbrev pub arrivals : List Event → List Delivery
arrivals [] = []
arrivals (e ∷ es) = arrival_by e.request e.answer (arrivals es)
