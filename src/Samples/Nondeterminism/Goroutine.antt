-- ===== src/Samples/Nondeterminism/Goroutine.antt =====
-- ports/samples-go/workflows/nondeterminism/goroutine/main.go: one goroutine sends, and the caller
-- receives.
use cleat_ports.Base.{
  ℕ, ◌≤◌, ◌<◌, String, [], ◌∷◌, append, Bool, true, false, Option, none, some, ◌≡◌, ◌⊎◌, inl, inr,
  refl, arith,
}
use cleat_ports.Host.Program.{Handler, exhausted, done}
use cleat_ports.Samples.Nondeterminism.Sync.{
  Move, moved, blocked, move, Channel, make, send, Received, received, drained, waits, receive,
  Fine, Fine-moved,
}
use cleat_ports.Samples.Nondeterminism.Schedule.{CanMove, Working, schedule, schedule-Final}

-- Whether the goroutine has started, whether it has sent, and what the caller has come back with.
pub record State : Type 0 where
  pub finished : Channel
  pub started : Bool
  pub sent : Bool
  pub back : Option String

abbrev pub start : State
start = record { finished = make 1; started = false; sent = false; back = none }

pub data Thread : Type 0 where
  the_caller the_goroutine : Thread

abbrev receive_step : State → Received → Move State
receive_step s (received text rest) = moved (record s { finished = rest; back = some text })
receive_step s drained = moved (record s { back = some "" })
receive_step s waits = blocked

abbrev caller_step : State → Option String → Bool → Move State
caller_step s (some text) b = blocked
caller_step s none false = moved (record s { started = true })
caller_step s none true = receive_step s (receive s.finished)

abbrev goroutine_step : State → Bool → Bool → Move State
goroutine_step s true false =
    move (λ ch. record s { finished = ch; sent = true }) (send s.finished "finished")
goroutine_step s _ _ = blocked

unfoldable pub act : Thread → State → Move State
unfolding send receive append
act the_caller s = caller_step s s.back s.started
act the_goroutine s = goroutine_step s s.started s.sent

abbrev result_of : Option String → Handler
result_of (some text) = done text
result_of none = exhausted

-- The workflow run by the scheduler `pick` for `fuel` steps.
unfoldable pub handle_goroutine : (State → Thread) → ℕ → String → Handler
handle_goroutine pick fuel key = result_of (schedule act pick fuel start).back

-- The states that a run goes through.
data Stage : Type 0 where
  fresh running full over : Stage

abbrev state_at : Stage → State
state_at fresh = start
state_at running = record start { started = true }
state_at full = record start {
  started = true;
  sent = true;
  finished = record (make 1) { buffer = "finished" ∷ [] };
}
state_at over = record start { started = true; sent = true; back = some "finished" }

abbrev Inv : State → Type 0
Inv s = (p : Stage) × (s ≡ state_at p)

-- How many steps are left.
abbrev rank_of : Option String → Bool → Bool → ℕ
rank_of (some text) started sent = 0
rank_of none true true = 1
rank_of none true false = 2
rank_of none false sent = 3

abbrev rank : State → ℕ
rank s = rank_of s.back s.started s.sent

abbrev Next : State → State → Type 0
Next s s' = Inv s' × (rank s' < rank s)

stage-Fine : (t : Thread) (p : Stage) → Fine (Next (state_at p)) (act t (state_at p))
unfolding act
stage-Fine the_caller fresh = ((running, refl), omega arith)
stage-Fine the_caller running = tt
stage-Fine the_caller full = ((over, refl), omega arith)
stage-Fine the_caller over = tt
stage-Fine the_goroutine fresh = tt
stage-Fine the_goroutine running = ((full, refl), omega arith)
stage-Fine the_goroutine full = tt
stage-Fine the_goroutine over = tt

act-Next : (t : Thread) (s s' : State) → Inv s → act t s ≡ moved s' → Next s s'
act-Next t s s' (p, e) = Fine-moved (Next s) (act t s) s' (rw (e) (stage-Fine t p))

stage_progress : (p : Stage) → ((state_at p).back ≡ some "finished") ⊎ CanMove act (state_at p)
unfolding act
stage_progress fresh = inr (the_caller, _, refl)
stage_progress running = inr (the_goroutine, _, refl)
stage_progress full = inr (the_caller, _, refl)
stage_progress over = inl refl

progress : (s : State) → Inv s → (s.back ≡ some "finished") ⊎ CanMove act s
progress s (p, e) = rw (e) (stage_progress p)

-- Under every scheduler that lets a goroutine go on while one can, HandleGoroutine returns what its
-- goroutine sends.
pub goroutine_same_always :
    (pick : State → Thread)
    → Working act pick
    → (fuel : ℕ) (key : String) → 3 ≤ fuel
    → handle_goroutine pick fuel key ≡ done "finished"
unfolding handle_goroutine
goroutine_same_always pick working fuel key enough =
    let back : (schedule act pick fuel start).back ≡ some "finished" =
      schedule-Final act Inv (λ s. s.back ≡ some "finished") rank
        (λ t s s' i e. (act-Next t s s' i e).0) (λ t s s' i e. (act-Next t s s' i e).1) progress
        pick working fuel start (fresh, refl) (omega arith) in
    rw (back) refl
