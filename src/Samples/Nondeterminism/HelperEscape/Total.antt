-- ===== src/Samples/Nondeterminism/HelperEscape/Total.antt =====
-- What the helper returns, in whatever order its goroutines and its caller take their steps.
use cleat_ports.Base.{ℕ, ◌≤◌, String, ◌++◌, ◌≡◌, ◌≢◌, ◌⊎◌, inl, inr, refl, arith}
use cleat_ports.Base.Int.{ℤ}
use cleat_ports.Host.Calls.{set_query_state}
use cleat_ports.Host.Program.{ask, done, ◌>>◌}
use cleat_ports.Samples.Nondeterminism.Sync.{Move, moved, blocked, crashed, Fine, Fine-moved}
use cleat_ports.Samples.Nondeterminism.Schedule.{
  Steps, CanMove, Working, schedule, Steps-kept, schedule-Final,
}
use cleat_ports.Samples.Nondeterminism.HelperEscape.{
  returned, State, start, Thread, the_caller, worker, act, place, handle_helper_escape,
}
use cleat_ports.Samples.Nondeterminism.HelperEscape.Invariant.{Inv, Next, rank}
use cleat_ports.Samples.Nondeterminism.HelperEscape.Moves.{worker-Fine}
use cleat_ports.Samples.Nondeterminism.HelperEscape.Calling.{caller-Fine}
use cleat_ports.Samples.Nondeterminism.HelperEscape.Progress.{progress}

module _ (key : String) where
  start-Inv : Inv key (start key)
  start-Inv = record {
    own = refl;
    holders = refl;
    started = refl;
    counted = refl;
    bounded = omega arith;
    quiet = tt;
    buffered = (refl, refl, refl);
  }

  act-Fine : (t : Thread) (s : State) → Inv key s → Fine (Next key s) (act t s)
  unfolding act
  act-Fine the_caller s inv = caller-Fine key s inv s.caller refl
  act-Fine (worker i) s inv = worker-Fine key s inv i (place i s.workers) refl

  act-Next : (t : Thread) (s s' : State) → Inv key s → act t s ≡ moved s' → Next key s s'
  act-Next t s s' inv = Fine-moved (Next key s) (act t s) s' (act-Fine t s inv)

  no_crash : (m : Move State) (P : State → Type 0) (text : String) → Fine P m → m ≢ crashed text
  no_crash (moved s) P text f e = cc
  no_crash blocked P text f e = cc
  no_crash (crashed other) P text f e = f

  -- In every execution of nonDeterministicHelper, whatever the order of the steps of its two
  -- goroutines and its caller: there are at most 20 steps; none of them can end the program (by a
  -- send on the closed channel, an unlock of an unlocked mutex or a negative wait group); no state
  -- is a deadlock, but some step can be taken until the caller is back; and the caller comes back
  -- with the key twice.
  pub every_execution_returns :
      (n : ℕ) (s : State) (t : Thread) (text out : String)
      → Steps act (start key) n s
      → (n ≤ 20)
        × ((s.caller ≡ returned (key ++ key)) ⊎ ((s.caller ≢ returned out) × CanMove act s))
        × (act t s ≢ crashed text)
  every_execution_returns n s t text out steps =
      let (inv, far) =
        Steps-kept act (Inv key) (λ s. Unit) rank (λ t s s' i e. (act-Next t s s' i e).0)
          (λ t s s' i e. (act-Next t s s' i e).1) (start key) n s start-Inv steps in
      (
        omega (arith, far),
        elim (progress key s inv s.caller refl) [
          | inl back ↦ inl back
          | inr on ↦ inr (on.0 out, on.1)
        ],
        no_crash (act t s) (Next key s) text (act-Fine t s inv),
      )

  -- Under every scheduler that lets some goroutine or the caller go on while one can, 20 steps are
  -- enough, and HandleHelperEscape is the program that publishes its phase and returns the key
  -- twice: what the goroutines do is not visible in its calls or its result, whatever scheduler a
  -- replay runs them under.
  pub escape_same_always :
      (pick : State → Thread)
      → Working act pick
      → (fuel : ℕ) (unused : ℤ) → 20 ≤ fuel
      → handle_helper_escape pick fuel key unused
        ≡ (do ask (set_query_state "phase" "running"); done (key ++ key))
  unfolding handle_helper_escape
  escape_same_always pick working fuel unused enough =
      let back : (schedule act pick fuel (start key)).caller ≡ returned (key ++ key) =
        schedule-Final act (Inv key) (λ s. s.caller ≡ returned (key ++ key)) rank
          (λ t s s' i e. (act-Next t s s' i e).0) (λ t s s' i e. (act-Next t s s' i e).1)
          (λ s i. elim (progress key s i s.caller refl) [
            | inl back' ↦ inl back'
            | inr on ↦ inr on.1
          ])
          pick working fuel (start key) start-Inv (omega arith) in
      rw (back) refl
