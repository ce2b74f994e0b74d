-- ===== src/Tests.antt =====
-- A host for the examples: it delivers the signals of a list, reports a cancellation after so many
-- polls, fails the operations of a list, and stops the run at a continue-as-new.
pub mod Samples
pub mod Dbos
pub mod Sagas
pub mod Bindings
pub mod Queues
pub mod Family
pub mod Recovery
pub mod Goroutines
pub mod Others
pub mod Forwarded
pub mod Held
use cleat_ports.Base.{
  ℕ, zero, suc, ◌+◌, String, ◌++◌, Bool, true, false, List, [], ◌∷◌, Option, none, some, ◌≡◌, ◌≤◌,
  ◌<◌, refl, if◌then◌else◌, arith,
}
use cleat_ports.Base.Int.{ℤ, pos, ◌+ℤ◌, millis}
use cleat_ports.Base.Text.{contains}
use cleat_ports.Base.Format.{decimal}
use cleat_ports.Host.Calls.{
  Error, new, Result, ok, err, SignalResult, Delivery, Call, Answer, now, now_ms, set_query_state,
  await_signals, durable_await_signals, await_quorum, poll_signal, signal_workflow, durable_call,
  durable_call_with_options, durable_send, durable_sleep_ms, durable_sleep, durable_log, log,
  durable_defer_func, poll_cancellation, continue_as_new, child_workflow,
  child_workflow_with_options, await_child, await_any_child, await_all_children, poll_child,
  run_detached, create_promise, await_promise_ms, resolve_promise, reject_promise, acquire_lock_ms,
  release_lock, schedule_invoke, schedule_cron, list_crons, plugin_call, plugin_call_streaming,
  workflow_id, run_id, version, min_version, side_effect, dispatched, Update,
}
use cleat_ports.Host.Run.{Host, Reaction, resume, stop}
use cleat_ports.Host.History.{took_signal}
use cleat_ports.Host.Chain.{HaltsAtContinue}
use cleat_ports.Host.Progress.{Draining}

pub record Machine : Type 0 where
  pub clock : ℤ
  pub signals : List String
  pub polls : ℕ
  pub failing : List String
  pub children : ℕ
  pub updates : List Update

abbrev late_signal : SignalResult
late_signal = record { name = ""; timed_out = true; failure = none }

abbrev next_signal : Machine → List String → Reaction SignalResult Machine
next_signal m [] = resume late_signal m
next_signal m (n ∷ ns) =
    resume (record { name = n; timed_out = false; failure = none }) (record m { signals = ns })

abbrev next_poll : Machine → ℕ → Reaction (Bool × String) Machine
next_poll m zero = resume (true, "operator") m
next_poll m (suc n) = resume (false, "") (record m { polls = n })

abbrev called : Machine → String → Result String
called m what = if contains m.failing what then err (new "HTTP 500") else ok "{}"

abbrev named_child : Machine → Reaction (Result String) Machine
named_child m = resume (ok ("run-" ++ decimal m.children)) (record m { children = suc m.children })

abbrev moved : Machine → ℤ → Machine
moved m ms = record m { clock = m.clock +ℤ millis ms }

abbrev react : Machine → (c : Call) → Reaction (Answer c) Machine
react m now = resume m.clock m
react m now_ms = resume m.clock m
react m (await_signals names d) = next_signal m m.signals
react m (durable_await_signals names d) =
    resume (ok (record { name = "order"; payload = "first"; timed_out = false })) m
react m (await_quorum names k d e) = resume ([], none) m
react m (poll_signal name) = resume (ok ("", false)) m
react m (signal_workflow a b c) = resume (ok tt) m
react m (durable_call service op request) = resume (called m op) m
react m (durable_call_with_options policy service op request) = resume (called m op) m
react m (durable_send a b c) = resume (ok tt) m
react m (durable_sleep_ms ms) = resume tt (moved m ms)
react m (durable_defer_func f) = resume (ok tt) m
react m poll_cancellation = next_poll m m.polls
react m (continue_as_new input) = stop m
react m (child_workflow def input) = named_child m
react m (child_workflow_with_options def input opts) = named_child m
react m (await_child id) = resume (called m id) m
react m (await_any_child ids) = resume (ok ("run-0", "{}")) m
react m (await_all_children ids) = resume (ok ids) m
react m (poll_child id) = resume (ok ("completed", "{}")) m
react m (run_detached def input) = resume (ok tt) m
react m (create_promise name) = resume (ok name) m
react m (await_promise_ms id ms) = resume (ok ("settled", contains m.failing id)) (moved m (pos 10))
react m (resolve_promise id value) = resume (ok tt) m
react m (reject_promise id value) = resume (ok tt) m
react m (acquire_lock_ms key ttl) = resume (ok true) m
react m (release_lock key) = resume (ok tt) m
react m (schedule_invoke a b c d) = resume (ok tt) m
react m (schedule_cron a b c d) = resume (ok "cron-1") m
react m list_crons = resume (ok "[]") m
react m (plugin_call a b c) = resume (ok "{}") m
react m (plugin_call_streaming a b c) = resume (ok []) m
react m (side_effect e) = resume (ok "effect") m
react m dispatched = resume m.updates (record m { updates = [] })
react m workflow_id = resume "workflow" m
react m run_id = resume "run" m
react m version = resume (pos 1) m
react m min_version = resume (pos 1) m
react m _ = resume tt m

abbrev pub machine : Host
machine = record { State = Machine; react = react }

abbrev pub fresh_machine : Machine
fresh_machine = record {
  clock = pos 0;
  signals = [];
  polls = 3;
  failing = [];
  children = 0;
  updates = [];
}

pub machine_halts : HaltsAtContinue machine
machine_halts s input a s' e = cc

-- A host with a number of one signal to deliver, that answers the calls of the signal loops alone.
abbrev counted : ℕ → Reaction SignalResult ℕ
counted zero = resume late_signal zero
counted (suc n) = resume (record { name = "tick"; timed_out = false; failure = none }) n

abbrev tick_react : ℕ → (c : Call) → Reaction (Answer c) ℕ
tick_react n now = resume (pos 0) n
tick_react n (set_query_state key value) = resume tt n
tick_react n (await_signals names d) = counted n
tick_react n c = stop n

abbrev pub ticker : Host
ticker = record { State = ℕ; react = tick_react }

counted-kept : (n : ℕ) (r : SignalResult) (n' : ℕ) → counted n ≡ resume r n' → n' ≤ n
counted-kept zero r n' e = ground arith
counted-kept (suc n) r n' e = ground arith

pub counted-taken :
    (n : ℕ) (r : SignalResult) (n' : ℕ) → counted n ≡ resume r n' → took_signal r ≡ true → n' < n
counted-taken zero r n' e t = ground arith
counted-taken (suc n) r n' e t = ground arith

pub tick_kept : (n : ℕ) (c : Call) (a : Answer c) (n' : ℕ) → tick_react n c ≡ resume a n' → n' ≤ n
tick_kept n now a n' e = ground arith
tick_kept n (set_query_state key value) a n' e = ground arith
tick_kept n (await_signals names d) a n' e = counted-kept n a n' e
tick_kept n c a n' e = cc

unfoldable pub ticker_drains : Draining ticker
ticker_drains = record {
  pending = λ n. n;
  kept = tick_kept;
  taken = λ n names d r n' e t. counted-taken n r n' e t;
}
