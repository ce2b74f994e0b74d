-- ===== src/Dbos/Cancellation/Polling.antt =====
-- What HandleCancellable reports, and that it ends.
use cleat_ports.Base.{
  ℕ, zero, suc, ◌+◌, ◌*◌, ◌≤◌, ◌<◌, String, true, List, Option, none, some, ◌≡◌, ◌≢◌, arith,
}
use cleat_ports.Base.Int.{ℤ, pos, pos_part, max_int, wrap64, ltb_ℤ, ◌+ℤ◌}
use cleat_ports.Base.Format.{Unicode}
use cleat_ports.Host.Calls.{Result, ok}
use cleat_ports.Host.Run.{Host, run, Outcome, returned, out_of_fuel, Event}
use cleat_ports.Host.Logic.{
  Ensures, Ensures-mono, Ensures-ret, Ensures-exhausted, Ensures-call, Ensures-if, run-Ensures,
}
use cleat_ports.Host.History.{sleeps, observed}
use cleat_ports.Dbos.Cancellation.{
  step, rounds, wait_loop, handle_cancellable, cancelled_report, completed_report,
}

-- An int in `0 .. ms + 249` grows by a step without wrapping.
pub elapsed_step :
    (ms : ℤ) (e : ℕ)
    → pos_part ms + step ≤ max_int
    → ltb_ℤ (pos e) ms ≡ true
    → wrap64 (pos e +ℤ pos step) ≡ pos (e + step)
unfolding wrap64 ◌+ℤ◌
elapsed_step ms e small more = ground arith

pub elapsed_bound : (ms : ℤ) (e : ℕ) → ltb_ℤ (pos e) ms ≡ true → e < pos_part ms
elapsed_bound ms e more = ground arith

module _ ⦃u : Unicode⦄ where
  -- The report at `elapsed`, with or without a reason of cancellation.
  abbrev pub outcome_at : Option String → ℕ → String
  outcome_at none elapsed = completed_report (pos elapsed)
  outcome_at (some reason) elapsed = cancelled_report reason (pos elapsed)

  Reports : ℕ → List Event → Outcome (Result String) → Type 0
  Reports e tr o =
      (text : String)
      → o ≡ returned (ok text)
      → text ≡ outcome_at (observed tr) (e + step * sleeps tr)

  Ends : List Event → Outcome (Result String) → Type 0
  Ends tr o = o ≢ out_of_fuel

  module _ (ms poll : ℤ) (small : pos_part ms + step ≤ max_int) where
    wait_loop-Reports : (fuel e : ℕ) → Ensures (Reports e) (wait_loop ms poll fuel (pos e))
    unfolding wait_loop Reports
    wait_loop-Reports zero e = Ensures-exhausted (λ text x. cc)
    wait_loop-Reports (suc fuel) e =
        Ensures-if _ _ _
          (λ more.
            let next : Ensures (Reports (e + step))
                (wait_loop ms poll fuel (wrap64 (pos e +ℤ pos step))) =
              rw (elapsed_step ms e small more) (wait_loop-Reports fuel (e + step)) in
            Ensures-if _ _ _
              (λ quiet.
                Ensures-call _ _ (λ text x. cc)
                  λ a. Ensures-mono next λ tr o ih text x. ground (arith, ih text x))
              λ asks.
                Ensures-call _ _ (λ text x. cc)
                  λ p.
                    Ensures-if _ _ _
                      (λ seen.
                        Ensures-call _ _ (λ text x. cc) λ a. Ensures-ret _ λ text x. ground arith)
                      λ unseen.
                        Ensures-call _ _ (λ text x. cc)
                          λ a. Ensures-mono next λ tr o ih text x. ground (arith, ih text x))
          λ over. Ensures-ret _ λ text x. ground arith

    wait_loop-Ends :
        (fuel e : ℕ)
        → pos_part ms + step ≤ e + step * fuel
        → e < pos_part ms + step
        → Ensures Ends (wait_loop ms poll fuel (pos e))
    unfolding wait_loop Ends
    wait_loop-Ends zero e enough inside = absurd (omega arith)
    wait_loop-Ends (suc fuel) e enough inside =
        Ensures-if _ _ _
          (λ more.
            let next : Ensures Ends (wait_loop ms poll fuel (wrap64 (pos e +ℤ pos step))) =
              rw (elapsed_step ms e small more) (
                wait_loop-Ends fuel (e + step) (omega arith)
                  (omega (arith, elapsed_bound ms e more))) in
            Ensures-if _ _ _ (λ quiet. Ensures-call _ _ (λ x. cc) λ a. next)
              λ asks.
                Ensures-call _ _ (λ x. cc)
                  λ p.
                    Ensures-if _ _ _ (λ seen. Ensures-call _ _ (λ x. cc) λ a. Ensures-ret _ λ x. cc)
                      λ unseen. Ensures-call _ _ (λ x. cc) λ a. next)
          λ over. Ensures-ret _ λ x. cc

  -- For a duration that leaves room for a step in an int, and whatever the host does, a result that
  -- HandleCancellable returns is determined by the run: if a poll reported a cancellation it is the
  -- cancelled one with that poll's reason, and else the completed one; the milliseconds are 250 for
  -- each sleep.
  pub elapsed_exact :
      (h : Host) (s : h.State) (ms poll : ℤ) (text : String)
      → pos_part ms + step ≤ max_int
      → (run h (handle_cancellable ms poll) s).outcome ≡ returned (ok text)
      → text
        ≡ outcome_at
            (observed (run h (handle_cancellable ms poll) s).trace)
            (step * sleeps (run h (handle_cancellable ms poll) s).trace)
  unfolding handle_cancellable Reports
  elapsed_exact h s ms poll text small e =
      ground (arith, run-Ensures h s (wait_loop-Reports ms poll small (rounds ms) 0) text e)

  -- For a duration that leaves room for a step in an int, the fuel given to the loop of
  -- HandleCancellable is enough: against no host does a run use it up.
  pub cancellable_ends :
      (h : Host) (s : h.State) (ms poll : ℤ)
      → pos_part ms + step ≤ max_int
      → (run h (handle_cancellable ms poll) s).outcome ≢ out_of_fuel
  unfolding handle_cancellable Ends
  cancellable_ends h s ms poll small =
      run-Ensures h s (wait_loop-Ends ms poll small (rounds ms) 0 (omega arith) (omega arith))
