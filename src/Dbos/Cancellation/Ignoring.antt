-- ===== src/Dbos/Cancellation/Ignoring.antt =====
-- How long HandleCancellable waits, and what it does when told to ignore cancellation.
use cleat_ports.Base.{ℕ, zero, suc, ◌+◌, ◌*◌, ◌/◌, ◌≤◌, ◌<◌, String, List, none, ◌≡◌, refl, arith}
use cleat_ports.Base.Int.{ℤ, pos, pos_part, max_int, wrap64, ◌+ℤ◌}
use cleat_ports.Base.Format.{Unicode}
use cleat_ports.Host.Calls.{Result, ok}
use cleat_ports.Host.Run.{Host, run, Outcome, returned, Event}
use cleat_ports.Host.Logic.{
  Ensures, Ensures-mono, Ensures-ret, Ensures-exhausted, Ensures-call, Ensures-if, run-Ensures,
}
use cleat_ports.Host.History.{sleeps, observed}
use cleat_ports.Dbos.Cancellation.{step, rounds, wait_loop, handle_cancellable, completed_report}
use cleat_ports.Dbos.Cancellation.Polling.{elapsed_step, elapsed_bound, elapsed_exact}

module _ ⦃u : Unicode⦄ where
  module _ (ms : ℤ) (small : pos_part ms + step ≤ max_int) where
    -- Of a run that returned: it polled nothing, and slept for the first multiple of a step from ms on.
    Waits : ℕ → List Event → Outcome (Result String) → Type 0
    Waits e tr o =
        (text : String)
        → o ≡ returned (ok text)
        → (observed tr ≡ none)
          × (pos_part ms ≤ e + step * sleeps tr)
          × (e + step * sleeps tr < pos_part ms + step)

    wait_loop-Waits :
        (fuel e : ℕ)
        → e < pos_part ms + step
        → Ensures (Waits e) (wait_loop ms (pos 0) fuel (pos e))
    unfolding wait_loop Waits
    wait_loop-Waits zero e inside = Ensures-exhausted (λ text x. cc)
    wait_loop-Waits (suc fuel) e inside =
        Ensures-if _ _ _
          (λ more.
            let next : Ensures (Waits (e + step))
                (wait_loop ms (pos 0) fuel (wrap64 (pos e +ℤ pos step))) =
              rw (elapsed_step ms e small more)
                (wait_loop-Waits fuel (e + step) (omega (arith, elapsed_bound ms e more))) in
            Ensures-if _ _ _
              (λ quiet.
                Ensures-call _ _ (λ text x. cc)
                  λ a. Ensures-mono next λ tr o ih text x.
                    let (unseen, low, high) = ih text x in (unseen, omega arith, omega arith))
              λ asks. cc)
          λ over. Ensures-ret _ λ text x. (refl, ground arith, ground arith)

  -- Told to ignore cancellation, for a duration that leaves room for a step in an int,
  -- HandleCancellable can return one result only, whatever the host does: the completed one, after
  -- the least number of whole steps that is not below the duration.
  pub ignoring_completes :
      (h : Host) (s : h.State) (ms : ℤ) (text : String)
      → pos_part ms + step ≤ max_int
      → (run h (handle_cancellable ms (pos 0)) s).outcome ≡ returned (ok text)
      → text ≡ completed_report (pos (step * ((pos_part ms + 249) / step)))
  unfolding handle_cancellable Waits
  ignoring_completes h s ms text small e =
      let waits = run-Ensures h s (wait_loop-Waits ms small (rounds ms) 0 (omega arith)) text e in
      let (unseen, low, high) = waits in
      let whole : sleeps (run h (handle_cancellable ms (pos 0)) s).trace
          ≡ (pos_part ms + 249) / step =
        omega arith in
      ground (arith, elapsed_exact h s ms (pos 0) text small e, unseen, whole)
