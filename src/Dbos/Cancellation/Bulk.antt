-- ===== src/Dbos/Cancellation/Bulk.antt =====
-- The two steps of HandleBulkCancelSteps, and that it ends.
use cleat_ports.Base.{
  ℕ, zero, suc, ◌+◌, ◌*◌, ◌≤◌, ◌<◌, String, List, [], ◌∷◌, some, ◌≡◌, ◌≢◌, refl, arith,
}
use cleat_ports.Base.Int.{ℤ, pos, pos_part, max_int, wrap64, ◌+ℤ◌}
use cleat_ports.Base.Format.{Unicode}
use cleat_ports.Host.Calls.{Result, ok}
use cleat_ports.Host.Run.{Host, run, Outcome, returned, out_of_fuel, Event}
use cleat_ports.Host.Logic.{
  Ensures, Ensures-mono, Ensures-ret, Ensures-exhausted, Ensures-call, Ensures-if, Ensures-check,
  run-Ensures,
}
use cleat_ports.Host.History.{sleeps, observed, operations}
use cleat_ports.Host.Recovery.{Execution, execution-Ensures}
use cleat_ports.Dbos.Cancellation.{
  step, rounds, poll_loop, handle_bulk_cancel_steps, cancelled_report,
}
use cleat_ports.Dbos.Cancellation.Polling.{elapsed_step, elapsed_bound}

module _ ⦃u : Unicode⦄ where
  Skips : ℕ → List Event → Outcome (Result String) → Type 0
  Skips e tr o =
      (reason : String)
      → observed tr ≡ some reason
      → (operations tr ≡ [])
        × ((text : String)
            → o ≡ returned (ok text)
            → text ≡ cancelled_report reason (pos (e + step * sleeps tr)))

  Ends : List Event → Outcome (Result String) → Type 0
  Ends tr o = o ≢ out_of_fuel

  module _ (key : String) (ms : ℤ) (small : pos_part ms + step ≤ max_int) where
    poll_loop-Skips : (fuel e : ℕ) → Ensures (Skips e) (poll_loop key ms fuel (pos e))
    unfolding poll_loop Skips
    poll_loop-Skips zero e = Ensures-exhausted (λ r x. cc)
    poll_loop-Skips (suc fuel) e =
        Ensures-if _ _ _
          (λ more.
            let next : Ensures (Skips (e + step))
                (poll_loop key ms fuel (wrap64 (pos e +ℤ pos step))) =
              rw (elapsed_step ms e small more) (poll_loop-Skips fuel (e + step)) in
            Ensures-call _ _ (λ r x. cc)
              λ p.
                Ensures-if _ _ _
                  (λ seen.
                    Ensures-call _ _ (λ r x. (refl, λ text q. cc))
                      λ a. Ensures-ret _ λ r x. (refl, λ text q. ground arith))
                  λ unseen.
                    Ensures-call _ _ (λ r x. (refl, λ text q. cc))
                      λ a. Ensures-mono next λ tr o ih r x.
                        let (none_called, told) = ih r (ground arith) in
                        (none_called, λ text q. ground (arith, told text q)))
          λ over.
            Ensures-call _ _ (λ r x. cc)
              λ two.
                Ensures-check _ _ _ (λ err f. Ensures-ret _ λ r x. cc)
                  λ resp g. Ensures-ret _ λ r x. cc

    poll_loop-Ends :
        (fuel e : ℕ)
        → pos_part ms + step ≤ e + step * fuel
        → e < pos_part ms + step
        → Ensures Ends (poll_loop key ms fuel (pos e))
    unfolding poll_loop Ends
    poll_loop-Ends zero e enough inside = absurd (omega arith)
    poll_loop-Ends (suc fuel) e enough inside =
        Ensures-if _ _ _
          (λ more.
            let next : Ensures Ends (poll_loop key ms fuel (wrap64 (pos e +ℤ pos step))) =
              rw (elapsed_step ms e small more) (
                poll_loop-Ends fuel (e + step) (omega arith)
                  (omega (arith, elapsed_bound ms e more))) in
            Ensures-call _ _ (λ x. cc)
              λ p.
                Ensures-if _ _ _ (λ seen. Ensures-call _ _ (λ x. cc) λ a. Ensures-ret _ λ x. cc)
                  λ unseen. Ensures-call _ _ (λ x. cc) λ a. next)
          λ over.
            Ensures-call _ _ (λ x. cc)
              λ two.
                Ensures-check _ _ _ (λ err f. Ensures-ret _ λ x. cc) λ resp g. Ensures-ret _ λ x. cc

  handle-Skips :
      (key : String) (ms : ℤ) (reason : String)
      → pos_part ms + step ≤ max_int
      → Ensures
          (λ tr o.
            observed tr ≡ some reason
            → (operations tr ≡ "one" ∷ [])
              × ((text : String)
                  → o ≡ returned (ok text)
                  → text ≡ cancelled_report reason (pos (step * sleeps tr))))
          (handle_bulk_cancel_steps key ms)
  unfolding handle_bulk_cancel_steps Skips
  handle-Skips key ms reason small =
      Ensures-call _ _ (λ x. cc)
        λ one.
          Ensures-check _ _ _ (λ err f. Ensures-ret _ λ x. cc)
            λ resp g. Ensures-mono (poll_loop-Skips key ms small (rounds ms) 0) λ tr o ih x.
              let (none_called, told) = ih reason x in (cc, λ text q. ground (arith, told text q))

  -- For a duration that leaves room for a step in an int, and whatever the host does: a run of
  -- HandleBulkCancelSteps in which a poll reported a cancellation calls the step "one", once, and no
  -- other.
  pub cancel_skips_step_two :
      (h : Host) (s : h.State) (key : String) (ms : ℤ) (reason : String)
      → pos_part ms + step ≤ max_int
      → observed (run h (handle_bulk_cancel_steps key ms) s).trace ≡ some reason
      → operations (run h (handle_bulk_cancel_steps key ms) s).trace ≡ "one" ∷ []
  cancel_skips_step_two h s key ms reason small x =
      (run-Ensures h s (handle-Skips key ms reason small) x).0

  -- For a duration that leaves room for a step in an int, and whatever the host does: what a run of
  -- HandleBulkCancelSteps returns in which a poll reported a cancellation is the cancelled result, with
  -- the reason that the poll gave and 250 milliseconds for each sleep before it.
  pub cancelled_result :
      (h : Host) (s : h.State) (key : String) (ms : ℤ) (reason text : String)
      → pos_part ms + step ≤ max_int
      → observed (run h (handle_bulk_cancel_steps key ms) s).trace ≡ some reason
      → (run h (handle_bulk_cancel_steps key ms) s).outcome ≡ returned (ok text)
      → text
        ≡ cancelled_report reason
            (pos (step * sleeps (run h (handle_bulk_cancel_steps key ms) s).trace))
  cancelled_result h s key ms reason text small x =
      (run-Ensures h s (handle-Skips key ms reason small) x).1 text

  -- For a duration that leaves room for a step in an int, and through any number of crashes and
  -- takeovers, each on any host: the record of a run of HandleBulkCancelSteps that returns a result,
  -- and in which a poll reported a cancellation, has the call for the step "one", once, and no other;
  -- the result is the cancelled one, with the poll's reason and 250 milliseconds for each recorded
  -- sleep.
  pub cancel_survives_crashes :
      (key : String) (ms : ℤ) (reason text : String) (tr : List Event)
      → pos_part ms + step ≤ max_int
      → Execution (handle_bulk_cancel_steps key ms) tr (returned (ok text))
      → observed tr ≡ some reason
      → (operations tr ≡ "one" ∷ []) × (text ≡ cancelled_report reason (pos (step * sleeps tr)))
  cancel_survives_crashes key ms reason text tr small ex x =
      let (one_called, told) =
        execution-Ensures _ _ tr (returned (ok text)) (handle-Skips key ms reason small) ex x in
      (one_called, told text refl)

  -- For a duration that leaves room for a step in an int, the fuel given to the loop of
  -- HandleBulkCancelSteps is enough: against no host does a run use it up.
  pub bulk_cancel_ends :
      (h : Host) (s : h.State) (key : String) (ms : ℤ)
      → pos_part ms + step ≤ max_int
      → (run h (handle_bulk_cancel_steps key ms) s).outcome ≢ out_of_fuel
  unfolding handle_bulk_cancel_steps Ends
  bulk_cancel_ends h s key ms small = run-Ensures h {P = λ tr o. o ≢ out_of_fuel} s (
      Ensures-call _ _ (λ x. cc)
        λ one.
          Ensures-check _ _ _ (λ err f. Ensures-ret _ λ x. cc)
            λ resp g. poll_loop-Ends key ms small (rounds ms) 0 (omega arith) (omega arith))
