-- ===== src/Host/History.antt =====
-- Readings of a trace: the signals that were delivered, and the budget that the awaits kept.
pub mod Fresh
pub mod Requests
pub mod Timeouts
pub mod Spawns
pub mod Arrivals
use mathlib.Core.List as L
use cleat_ports.Base.{
  ℕ, suc, String, Bool, true, false, List, [], ◌∷◌, Option, none, some, append, ◌≡◌, if◌then◌else◌,
}
use cleat_ports.Base.Int.{ℤ, pos, leb_ℤ, ◌+ℤ◌, millis, sub_time}
use cleat_ports.Base.Text.{contains}
use cleat_ports.Host.Calls.{
  dispatched, Update, Call, Answer, Result, ParentClosePolicy, ok, err, SignalResult, now,
  await_signals, durable_call, durable_sleep_ms, poll_cancellation, child_workflow,
  child_workflow_with_options, await_child, await_all_children, await_any_child, await_promise_ms,
  acquire_lock_ms, release_lock, continue_as_new, now_ms,
}
use cleat_ports.Host.Run.{Event}

-- An await that neither failed nor timed out took one signal.
abbrev pub took_signal : SignalResult → Bool
took_signal r = elim r.failure [ some e ↦ false | none ↦ if r.timed_out then false else true ]

abbrev pub delivered : (c : Call) → Answer c → List String → List String
delivered (await_signals _ _) r rest = if took_signal r then r.name ∷ rest else rest
delivered _ _ rest = rest

-- The names that AwaitSignals delivered, in order.
abbrev pub deliveries : List Event → List String
deliveries [] = []
deliveries (e ∷ es) = delivered e.request e.answer (deliveries es)

-- The clock's last reading after a call, from the one before.
abbrev pub reading : (c : Call) → Answer c → Option ℤ → Option ℤ
reading now t last = some t
reading _ _ last = last

-- An await's timeout is what the last reading of the clock leaves until `give_up_at`, and positive.
abbrev pub SinceReading : ℤ → ℤ → Option ℤ → Type 0
SinceReading give_up_at d (some t) = (d ≡ sub_time give_up_at t) × (leb_ℤ d (pos 0) ≡ false)
SinceReading give_up_at d none = ⊥

abbrev pub TimeoutKeeps : ℤ → Call → Option ℤ → Type 0
TimeoutKeeps give_up_at (await_signals _ d) last = SinceReading give_up_at d last
TimeoutKeeps give_up_at _ last = Unit

abbrev pub KeepsBudget : ℤ → Option ℤ → List Event → Type 0
KeepsBudget give_up_at last [] = Unit
KeepsBudget give_up_at last (e ∷ es) =
    TimeoutKeeps give_up_at e.request last
    × KeepsBudget give_up_at (reading e.request e.answer last) es

-- The budget runs from the first reading of the clock, and no await comes before that.
abbrev pub BudgetFrom : ℤ → (c : Call) → Answer c → List Event → Type 0 → Type 0
BudgetFrom budget_ms now t es later = KeepsBudget (t +ℤ millis budget_ms) (some t) es
BudgetFrom budget_ms (await_signals _ _) r es later = ⊥
BudgetFrom budget_ms _ _ es later = later

abbrev pub BudgetFromStart : ℤ → List Event → Type 0
BudgetFromStart budget_ms [] = Unit
BudgetFromStart budget_ms (e ∷ es) =
    BudgetFrom budget_ms e.request e.answer es (BudgetFromStart budget_ms es)

-- The names in `names` that are not in `seen`, each once, in the order of their first occurrences.
abbrev pub fresh : List String → List String → List String
fresh seen [] = []
fresh seen (n ∷ names) =
    if contains seen n then fresh seen names else n ∷ fresh (append seen n) names

abbrev pub distinct : List String → List String
distinct = fresh []

-- The durable calls of a trace by the names of their operations.
abbrev pub operation : Call → List String → List String
operation (durable_call _ op _) rest = op ∷ rest
operation _ rest = rest

abbrev pub operations : List Event → List String
operations [] = []
operations (e ∷ es) = operation e.request (operations es)

-- How often the run slept, by DurableSleepMs.
abbrev pub slept : Call → ℕ → ℕ
slept (durable_sleep_ms _) n = suc n
slept _ n = n

abbrev pub sleeps : List Event → ℕ
sleeps [] = 0
sleeps (e ∷ es) = slept e.request (sleeps es)

-- The reason with which a poll first reported a cancellation.
abbrev pub polled : (c : Call) → Answer c → Option String → Option String
polled poll_cancellation answer later = if answer.0 then some answer.1 else later
polled _ _ later = later

abbrev pub observed : List Event → Option String
observed [] = none
observed (e ∷ es) = polled e.request e.answer (observed es)

-- How many promise awaits came back with the promise settled.
abbrev pub settled_answer : Result (String × Bool) → ℕ → ℕ
settled_answer (ok answer) n = if answer.1 then n else suc n
settled_answer (err e) n = n

abbrev pub settled_by : (c : Call) → Answer c → ℕ → ℕ
settled_by (await_promise_ms _ _) r n = settled_answer r n
settled_by _ _ n = n

abbrev pub settlements : List Event → ℕ
settlements [] = 0
settlements (e ∷ es) = settled_by e.request e.answer (settlements es)

-- The locks that the run was given, and those that it asked to release.
abbrev pub granted : String → Result Bool → List String → List String
granted key (ok b) rest = if b then key ∷ rest else rest
granted key (err e) rest = rest

abbrev pub taken_by : (c : Call) → Answer c → List String → List String
taken_by (acquire_lock_ms key _) r rest = granted key r rest
taken_by _ _ rest = rest

abbrev pub locks_taken : List Event → List String
locks_taken [] = []
locks_taken (e ∷ es) = taken_by e.request e.answer (locks_taken es)

abbrev pub release_of : Call → List String → List String
release_of (release_lock key) rest = key ∷ rest
release_of _ rest = rest

abbrev pub releases : List Event → List String
releases [] = []
releases (e ∷ es) = release_of e.request (releases es)

-- The operations that a durable call answered with an error.
abbrev pub op_if_err : String → Result String → List String → List String
op_if_err op (ok a) rest = rest
op_if_err op (err e) rest = op ∷ rest

abbrev pub failed_op : (c : Call) → Answer c → List String → List String
failed_op (durable_call _ op _) r rest = op_if_err op r rest
failed_op _ _ rest = rest

abbrev pub failures : List Event → List String
failures [] = []
failures (e ∷ es) = failed_op e.request e.answer (failures es)

-- The inputs with which the run asked to continue as new.
abbrev pub continuation : Call → List String → List String
continuation (continue_as_new input) rest = input ∷ rest
continuation _ rest = rest

abbrev pub continuations : List Event → List String
continuations [] = []
continuations (e ∷ es) = continuation e.request (continuations es)

-- The readings of the clock in milliseconds.
abbrev pub ms_reading : (c : Call) → Answer c → List ℤ → List ℤ
ms_reading now_ms t rest = t ∷ rest
ms_reading _ _ rest = rest

abbrev pub ms_readings : List Event → List ℤ
ms_readings [] = []
ms_readings (e ∷ es) = ms_reading e.request e.answer (ms_readings es)

-- How often the run polled for a cancellation.
abbrev pub poll_of : Call → ℕ → ℕ
poll_of poll_cancellation n = suc n
poll_of _ n = n

abbrev pub polls : List Event → ℕ
polls [] = 0
polls (e ∷ es) = poll_of e.request (polls es)

-- The updates that the host ran handlers for, in order.
abbrev pub updates_in : (c : Call) → Answer c → List Update → List Update
updates_in dispatched us rest = L.◌++◌ us rest
updates_in _ _ rest = rest

abbrev pub updates : List Event → List Update
updates [] = []
updates (e ∷ es) = updates_in e.request e.answer (updates es)
