-- ===== src/Samples/Nondeterminism/HelperEscape.antt =====
-- ports/samples-go/workflows/nondeterminism/helperescape/main.go: two goroutines send to a channel under
-- a mutex, and the caller waits for both, closes the channel and joins what they sent.
pub mod Counts
pub mod Invariant
pub mod Moves
pub mod Calling
pub mod Progress
pub mod Total
use cleat_ports.Base.{
  ℕ, zero, suc, ltb, String, ◌++◌, Bool, false, List, [], ◌∷◌, append, if◌then◌else◌,
}
use cleat_ports.Base.Int.{ℤ}
use cleat_ports.Host.Calls.{set_query_state}
use cleat_ports.Host.Program.{Handler, exhausted, ask, done, ◌>>=◌, ◌>>◌}
use cleat_ports.Samples.Nondeterminism.Sync.{
  Move, moved, blocked, move, Channel, make, send, close, Received, received, drained, waits,
  receive, lock, unlock, wait_done,
}
use cleat_ports.Samples.Nondeterminism.Schedule.{schedule}

-- Where a goroutine of the loop is: its deferred calls run last first.
pub data Worker : Type 0 where
  locking sending unlocking finishing ended : Worker

-- Where the caller is: at the test of `for i := 0; i < 2; i++`, in its body, at `wg.Wait()`, at
-- `close(results)`, in `for r := range results`, or back.
pub data Caller : Type 0 where
  testing adding launching : ℕ → Caller
  waiting closing : Caller
  ranging returned : String → Caller

pub record State : Type 0 where
  pub key : String
  pub caller : Caller
  pub workers : List Worker
  pub mu : Bool
  pub results : Channel
  pub wg : ℕ

abbrev pub start : String → State
start key = record {
  key = key;
  caller = testing 0;
  workers = [];
  mu = false;
  results = make 2;
  wg = 0;
}

pub data Thread : Type 0 where
  the_caller : Thread
  worker : ℕ → Thread

abbrev pub ranged : State → String → Received → Move State
ranged s out (received r rest) = moved (record s { caller = ranging (out ++ r); results = rest })
ranged s out drained = moved (record s { caller = returned out })
ranged s out waits = blocked

abbrev pub caller_step : State → Caller → Move State
caller_step s (testing i) = moved (record s { caller = if ltb i 2 then adding i else waiting })
caller_step s (adding i) = moved (record s { caller = launching i; wg = suc s.wg })
caller_step s (launching i) =
    moved (record s { caller = testing (suc i); workers = append s.workers locking })
caller_step s waiting = if ltb 0 s.wg then blocked else moved (record s { caller = closing })
caller_step s closing =
    move (λ ch. record s { caller = ranging ""; results = ch }) (close s.results)
caller_step s (ranging out) = ranged s out (receive s.results)
caller_step s (returned out) = blocked

abbrev pub set_at : ℕ → Worker → List Worker → List Worker
set_at i w [] = []
set_at zero w (v ∷ vs) = w ∷ vs
set_at (suc i) w (v ∷ vs) = v ∷ set_at i w vs

-- The goroutine's place, or `ended` for one that has not been started.
abbrev pub place : ℕ → List Worker → Worker
place i [] = ended
place zero (v ∷ vs) = v
place (suc i) (v ∷ vs) = place i vs

abbrev pub to : State → ℕ → Worker → State
to s i w = record s { workers = set_at i w s.workers }

abbrev pub worker_step : State → ℕ → Worker → Move State
worker_step s i locking = move (λ mu. record (to s i sending) { mu = mu }) (lock s.mu)
worker_step s i sending =
    move (λ ch. record (to s i unlocking) { results = ch }) (send s.results s.key)
worker_step s i unlocking = move (λ mu. record (to s i finishing) { mu = mu }) (unlock s.mu)
worker_step s i finishing = move (λ wg. record (to s i ended) { wg = wg }) (wait_done s.wg)
worker_step s i ended = blocked

unfoldable pub act : Thread → State → Move State
act the_caller s = caller_step s s.caller
act (worker i) s = worker_step s i (place i s.workers)

-- The workflow with its helper run by the scheduler `pick` for `fuel` steps.
abbrev result_of : Caller → Handler
result_of (returned out) = done out
result_of _ = exhausted

unfoldable pub handle_helper_escape : (State → Thread) → ℕ → String → ℤ → Handler
handle_helper_escape pick fuel key unused = do
  ask (set_query_state "phase" "running")
  result_of (schedule act pick fuel (start key)).caller
