-- ===== src/Host/History/Requests.antt =====
-- Readings of a trace: what the durable calls sent, and what came back.
use cleat_ports.Base.{String, List, [], ◌∷◌}
use cleat_ports.Host.Calls.{
  Call, Answer, Error, Result, ok, err, durable_call, durable_call_with_options,
}
use cleat_ports.Host.Run.{Event, Outcome, returned, stopped_at}

-- The durable calls of a trace: service, operation and request.
abbrev pub requested : Call → List (String × String × String) → List (String × String × String)
requested (durable_call service op request) rest = (service, op, request) ∷ rest
requested _ rest = rest

abbrev pub requests : List Event → List (String × String × String)
requests [] = []
requests (e ∷ es) = requested e.request (requests es)

-- The answers of those that were answered without an error.
abbrev pub response : Result String → List String → List String
response (ok text) rest = text ∷ rest
response (err e) rest = rest

abbrev pub responded : (c : Call) → Answer c → List String → List String
responded (durable_call _ _ _) r rest = response r rest
responded _ _ rest = rest

abbrev pub responses : List Event → List String
responses [] = []
responses (e ∷ es) = responded e.request e.answer (responses es)

-- The errors with which durable calls were answered, with a retry policy or without.
abbrev pub error_answer : Result String → List Error → List Error
error_answer (ok text) rest = rest
error_answer (err e) rest = e ∷ rest

abbrev pub errored : (c : Call) → Answer c → List Error → List Error
errored (durable_call _ _ _) r rest = error_answer r rest
errored (durable_call_with_options _ _ _ _) r rest = error_answer r rest
errored _ _ rest = rest

abbrev pub call_errors : List Event → List Error
call_errors [] = []
call_errors (e ∷ es) = errored e.request e.answer (call_errors es)

-- A run that was stopped, or returned an error.
abbrev pub Unfinished : Outcome (Result String) → Type 0
Unfinished (stopped_at c) = Unit
Unfinished (returned (err e)) = Unit
Unfinished _ = ⊥
