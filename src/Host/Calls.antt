-- ===== src/Host/Calls.antt =====
-- The methods of cleat.HostCalls that the workflows call, each with the type of its answer. An answer
-- `(v, err)` of Go is a Result where the caller reads `v` only if `err` is nil, and a tuple elsewhere.
use cleat_ports.Base.{String, ◌++◌, Bool, List, Option}
use cleat_ports.Base.Int.{ℤ}

-- `errors.New(text)`, and `fmt.Errorf("text%w", err)`.
pub data Error : Type 0 where
  new : String → Error
  wrap : String → Error → Error

-- `err.Error()`, which is also what `%v` prints.
unfoldable pub message : Error → String
message (new text) = text
message (wrap text e) = text ++ message e

pub data Result {ℓ} (A : Type ℓ) : Type ℓ where
  ok : A → Result A
  err : Error → Result A

-- What AwaitSignals hands back, and each element of what AwaitSignalsWithQuorum does.
pub record SignalResult : Type 0 where
  pub name : String
  pub timed_out : Bool
  pub failure : Option Error

pub record Delivery : Type 0 where
  pub name : String
  pub payload : String
  pub timed_out : Bool

-- cleat.RetryPolicy with its durations in nanoseconds; BackoffCoefficient is 1.0 in every policy here.
pub record RetryPolicy : Type 0 where
  pub max_attempts : ℤ
  pub initial_interval : ℤ
  pub max_interval : ℤ

-- cleat.ParentClosePolicy, a string type of Go, and its constants.
pub data ParentClosePolicy : Type 0 where
  unset terminate abandon request_cancel : ParentClosePolicy
  spelled : String → ParentClosePolicy

pub record ChildWorkflowOptions : Type 0 where
  pub parent_close_policy : ParentClosePolicy
  pub priority : ℤ

-- The body of a closure handed to DurableDeferFunc: each of them is one DurableSend.
pub data Deferred : Type 0 where
  deferred_send : String → String → String → Deferred

-- The body of a closure handed to SideEffect: a constant, or `fmt.Sprintf("%d", ...)` of the clock's
-- milliseconds or of a random number, or one of the two ids.
pub data Effect : Type 0 where
  constant : String → Effect
  clock_text random_text workflow_id_text run_id_text : Effect

-- An update as a caller sends it.
pub record Update : Type 0 where
  pub name : String
  pub payload : String

-- `dispatched` is no method: it reads off which updates the host ran handlers for during the await
-- before it, in order.
pub data Call : Type 0 where
  now now_ms : Call
  set_query_state : String → String → Call
  await_signals : List String → ℤ → Call
  durable_await_signals : List String → ℤ → Call
  await_quorum : List String → ℤ → ℤ → ℤ → Call
  poll_signal : String → Call
  signal_workflow : String → String → String → Call
  durable_call : String → String → String → Call
  durable_call_with_options : RetryPolicy → String → String → String → Call
  durable_send : String → String → String → Call
  durable_sleep_ms : ℤ → Call
  durable_sleep : ℤ → Call
  durable_log : String → Call
  log : String → Call
  durable_defer_func : Deferred → Call
  poll_cancellation : Call
  continue_as_new : String → Call
  child_workflow : String → String → Call
  child_workflow_with_options : String → String → ChildWorkflowOptions → Call
  await_child : String → Call
  await_any_child : List String → Call
  await_all_children : List String → Call
  poll_child : String → Call
  run_detached : String → String → Call
  create_promise : String → Call
  await_promise_ms : String → ℤ → Call
  resolve_promise : String → String → Call
  reject_promise : String → String → Call
  acquire_lock_ms : String → ℤ → Call
  release_lock : String → Call
  schedule_invoke : String → String → String → ℤ → Call
  schedule_cron : String → String → String → String → Call
  list_crons : Call
  plugin_call : String → String → String → Call
  plugin_call_streaming : String → String → String → Call
  side_effect : Effect → Call
  register_update_handler : String → Call
  dispatched : Call
  workflow_id run_id version min_version : Call

-- Instants are nanoseconds, `now_ms` milliseconds.
abbrev pub Answer : Call → Type 0
Answer now = ℤ
Answer now_ms = ℤ
Answer (await_signals _ _) = SignalResult
Answer (durable_await_signals _ _) = Result Delivery
Answer (await_quorum _ _ _ _) = List SignalResult × Option Error
Answer (poll_signal _) = Result (String × Bool)
Answer (signal_workflow _ _ _) = Result (Unit {0})
Answer (durable_call _ _ _) = Result String
Answer (durable_call_with_options _ _ _ _) = Result String
Answer (durable_send _ _ _) = Result (Unit {0})
Answer (durable_defer_func _) = Result (Unit {0})
Answer poll_cancellation = Bool × String
Answer (continue_as_new _) = Result (Unit {0})
Answer (child_workflow _ _) = Result String
Answer (child_workflow_with_options _ _ _) = Result String
Answer (await_child _) = Result String
Answer (await_any_child _) = Result (String × String)
Answer (await_all_children _) = Result (List String)
Answer (poll_child _) = Result (String × String)
Answer (run_detached _ _) = Result (Unit {0})
Answer (create_promise _) = Result String
Answer (await_promise_ms _ _) = Result (String × Bool)
Answer (resolve_promise _ _) = Result (Unit {0})
Answer (reject_promise _ _) = Result (Unit {0})
Answer (acquire_lock_ms _ _) = Result Bool
Answer (release_lock _) = Result (Unit {0})
Answer (schedule_invoke _ _ _ _) = Result (Unit {0})
Answer (schedule_cron _ _ _ _) = Result String
Answer list_crons = Result String
Answer (plugin_call _ _ _) = Result String
Answer (plugin_call_streaming _ _ _) = Result (List String)
Answer (side_effect _) = Result String
Answer dispatched = List Update
Answer workflow_id = String
Answer run_id = String
Answer version = ℤ
Answer min_version = ℤ
Answer _ = Unit {0}
