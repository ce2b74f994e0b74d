-- ===== src/Samples/Nondeterminism.antt =====
-- ports/samples-go/workflows/nondeterminism: programs that the workflow analyzer is to refuse. Here:
-- channel/main.go, syncmutex/main.go and mutexwithcall/main.go, which have one goroutine.
pub mod Sync
pub mod Schedule
pub mod HelperEscape
pub mod Goroutine
use cleat_ports.Base.{String, false, append, ◌≡◌, refl}
use cleat_ports.Base.Int.{ℤ}
use cleat_ports.Host.Calls.{set_query_state}
use cleat_ports.Host.Program.{Prog, Handler, panic, ask, done, ◌>>=◌, ◌>>◌}
use cleat_ports.Samples.Nondeterminism.Sync.{
  Move, moved, blocked, crashed, make, send, Received, received, drained, waits, receive, lock,
  unlock,
}

abbrev deadlock : Handler
deadlock = panic "all goroutines are asleep - deadlock!"

-- An operation of the only goroutine, and what follows it.
abbrev after : {A : Type 0} → Move A → (A → Handler) → Handler
after (moved a) rest = rest a
after blocked rest = deadlock
after (crashed text) rest = panic text

-- `return <-ch, nil`
abbrev first_of : Received → Handler
first_of (received text rest) = done text
first_of drained = done ""
first_of waits = deadlock

unfoldable pub handle_channel : String → Handler
handle_channel key = after (send (make 1) key) (λ ch. first_of (receive ch))

unfoldable pub handle_sync_mutex : String → Handler
handle_sync_mutex key = after (lock false) (λ mu. after (unlock mu) (λ _. done key))

unfoldable pub handle_mutex_with_call : String → ℤ → Handler
handle_mutex_with_call key unused =
    after (lock false)
      (λ mu. do ask (set_query_state "phase" "running"); after (unlock mu) (λ _. done key))

-- The three programs of one goroutine return their argument, and their calls are those of a program
-- without a channel or a mutex.
channel_lem : (key : String) → handle_channel key ≡ done key
unfolding handle_channel send receive append
channel_lem key = refl

sync_mutex_lem : (key : String) → handle_sync_mutex key ≡ done key
unfolding handle_sync_mutex lock unlock
sync_mutex_lem key = refl

mutex_with_call_lem :
    (key : String) (unused : ℤ)
    → handle_mutex_with_call key unused ≡ (do ask (set_query_state "phase" "running"); done key)
unfolding handle_mutex_with_call lock unlock
mutex_with_call_lem key unused = refl
