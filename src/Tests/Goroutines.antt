-- ===== src/Tests/Goroutines.antt =====
-- A scheduler that prefers the caller, and then the goroutine that was started last.
use cleat_ports.Base.{
  ℕ, zero, suc, ◌≤◌, ◌<◌, ltb, length, List, [], ◌∷◌, ◌++◌, Bool, true, false, append, ◌≡◌, ◌≢◌,
  ◌⊎◌, inl, inr, refl, Bool-cases, if◌then◌else◌, arith,
}
use cleat_ports.Base.Int.{pos}
use cleat_ports.Host.Calls.{set_query_state}
use cleat_ports.Host.Program.{ask, done, ◌>>◌}
use cleat_ports.Samples.Nondeterminism.Sync.{
  Move, moved, blocked, crashed, lock, unlock, send, close, receive, wait_done,
}
use cleat_ports.Samples.Nondeterminism.Schedule.{Steps, Working, CanMove, here, next}
use cleat_ports.Samples.Nondeterminism.HelperEscape.{
  Worker, Thread, the_caller, worker, State, start, returned, place, act, handle_helper_escape,
}
use cleat_ports.Samples.Nondeterminism.HelperEscape.Total.{
  every_execution_returns, escape_same_always,
}

moves : Move State → Bool
moves (moved s) = true
moves _ = false

moves-moved : (m : Move State) → moves m ≡ true → (s' : State) × (m ≡ moved s')
unfolding moves
moves-moved (moved s) h = (s, refl)
moves-moved blocked h = cc
moves-moved (crashed text) h = cc

last_able : State → ℕ → Thread
unfolding moves
last_able s zero = the_caller
last_able s (suc n) = if moves (act (worker n) s) then worker n else last_able s n

unfoldable caller_first : State → Thread
unfolding last_able moves
caller_first s = if moves (act the_caller s) then the_caller else last_able s (length s.workers)

last_able-moves :
    (s : State) (n i : ℕ)
    → i < n
    → moves (act (worker i) s) ≡ true
    → moves (act (last_able s n) s) ≡ true
unfolding last_able
last_able-moves s zero i below h = absurd (omega arith)
last_able-moves s (suc n) i below h = elim (Bool-cases (moves (act (worker n) s))) [
  | inl e ↦ rw (e) e
  | inr e ↦ elim (Bool-cases (ltb i n)) [
    | inl lower ↦ rw (e) (last_able-moves s n i (ground arith) h)
    | inr same ↦ let i-n : i ≡ n = ground arith in let h' = (rw (i-n) at h) in cc
  ]
]

started : (i : ℕ) (ws : List Worker) → place i ws ≢ Worker.ended → i < length ws
started i [] h = absurd (h refl)
started zero (w ∷ ws) h = omega arith
started (suc i) (w ∷ ws) h = omega (arith, started i ws h)

able-started : (s : State) (i : ℕ) → moves (act (worker i) s) ≡ true → i < length s.workers
unfolding act moves
able-started s i h = started i s.workers λ e. let h' = (rw (e) at h) in cc

moved-moves : (m : Move State) (s' : State) → m ≡ moved s' → moves m ≡ true
unfolding moves
moved-moves m s' e = rw (e) refl

able : (t : Thread) (s : State) → moves (act t s) ≡ true → moves (act (caller_first s) s) ≡ true
unfolding caller_first
able t s h = elim (Bool-cases (moves (act the_caller s))) [
  | inl e ↦ rw (e) e
  | inr e ↦ rw (e) (able_goroutine t s h e)
]
  where
    able_goroutine :
        (t : Thread) (s : State)
        → moves (act t s) ≡ true
        → moves (act the_caller s) ≡ false
        → moves (act (last_able s (length s.workers)) s) ≡ true
    able_goroutine the_caller s h e = cc
    able_goroutine (worker i) s h e = last_able-moves s (length s.workers) i (able-started s i h) h

caller_first-Working : Working act caller_first
caller_first-Working s (t, s', e) = moves-moved _ (able t s (moved-moves _ s' e))

-- The state when the caller is back.
abbrev end : State
end = record {
  key = "k";
  caller = returned "kk";
  workers = Worker.ended ∷ Worker.ended ∷ [];
  mu = false;
  results = record { capacity = 2; buffer = []; closed = true };
  wg = 0;
}

-- The caller starts both goroutines; then the second one and the first one go to their ends.
to_end : Steps act (start "k") 20 end
unfolding act lock unlock send close receive wait_done append
to_end =
    (next the_caller
      (next the_caller
        (next the_caller
          (next the_caller
            (next the_caller
              (next (worker 0)
                (next (worker 0)
                  (next (worker 0)
                    (next (worker 0)
                      (next (worker 1)
                        (next (worker 1)
                          (next (worker 1)
                            (next (worker 1)
                              (next the_caller
                                (next the_caller
                                  (next the_caller
                                    (next the_caller
                                      (next the_caller
                                        (next the_caller (next the_caller here refl) refl) refl)
                                      refl)
                                    refl)
                                  refl)
                                refl)
                              refl)
                            refl)
                          refl)
                        refl)
                      refl)
                    refl)
                  refl)
                refl)
              refl)
            refl)
          refl)
        refl)
      refl)

every_execution_returns_example :
    (20 ≤ 20)
    × ((end.caller ≡ returned ("k" ++ "k")) ⊎ ((end.caller ≢ returned "k") × CanMove act end))
    × (act (worker 0) end ≢ crashed "send on closed channel")
every_execution_returns_example =
    every_execution_returns "k" 20 end (worker 0) "send on closed channel" "k" to_end

escape_same_always_example :
    handle_helper_escape caller_first 20 "k" (pos 0)
    ≡ (do ask (set_query_state "phase" "running"); done "kk")
escape_same_always_example =
    escape_same_always "k" caller_first caller_first-Working 20 (pos 0) (omega arith)
