-- ===== src/Sdk/Cancelled.antt =====
-- What HandleCancelChild does once a poll has reported a cancellation, and what if none does.
use cleat_ports.Base.{ℕ, zero, suc, String, List, [], ◌∷◌, Option, none, some, ◌≡◌, refl, arith}
use cleat_ports.Base.Int.{ℤ, pos_part}
use cleat_ports.Base.Format.{Unicode}
use cleat_ports.Host.Calls.{Result, ok}
use cleat_ports.Host.Run.{Host, run, Outcome, returned, Event}
use cleat_ports.Host.Logic.{
  Ensures, Ensures-mono, Ensures-ret, Ensures-call, Ensures-if, Ensures-check, run-Ensures,
}
use cleat_ports.Host.History.{observed, polls}
use cleat_ports.Host.History.Spawns.{child_requests}
use cleat_ports.Sdk.{slice_loop, start_child, never_observed, handle_cancel_child}

-- The children that a run starts, by the cancellation that a poll reported.
abbrev pub started_after : String → Option String → List (String × String)
started_after child_def none = []
started_after child_def (some reason) = (child_def, "{\"marker\":\"post-cancel\",\"n\":0}") ∷ []

module _ ⦃u : Unicode⦄ where
  Starts : String → ℕ → List Event → Outcome (Result String) → Type 0
  Starts child_def left tr o =
      (text : String)
      → o ≡ returned (ok text)
      → (child_requests tr ≡ started_after child_def (observed tr))
        × (observed tr ≡ none → (text ≡ never_observed) × (polls tr ≡ left))

  slice_loop-Starts :
      (child_def : String) (left : ℕ) → Ensures (Starts child_def left) (slice_loop child_def left)
  unfolding slice_loop start_child Starts
  slice_loop-Starts child_def zero = Ensures-ret _ λ text x. (refl, λ unseen. (cc, refl))
  slice_loop-Starts child_def (suc left) =
      Ensures-call _ _ (λ text x. cc)
        λ p.
          Ensures-if _ _ _
            (λ seen.
              Ensures-call _ _ (λ text x. cc)
                λ r.
                  Ensures-check _ _ _
                    (λ e f. Ensures-ret _ λ text x. (ground arith, λ unseen. ground arith))
                    λ id g. Ensures-ret _ λ text x. (ground arith, λ unseen. ground arith))
            λ unseen.
              Ensures-call _ _ (λ text x. cc)
                λ a. Ensures-mono (slice_loop-Starts child_def left) λ tr o ih text x.
                  let (children, told) = ih text x in
                  (
                    ground (arith, children),
                    λ none_seen.
                        let quiet : observed tr ≡ none = ground arith in
                        ((told quiet).0, ground (arith, (told quiet).1)),
                  )

  -- Whatever the host does, a run of HandleCancelChild that returns a result has tried to start the child
  -- exactly once if a poll reported a cancellation, and otherwise no child at all.
  pub starts_child_if_cancelled :
      (h : Host) (s : h.State) (child_def : String) (slices : ℤ) (text : String)
      → (run h (handle_cancel_child child_def slices) s).outcome ≡ returned (ok text)
      → child_requests (run h (handle_cancel_child child_def slices) s).trace
        ≡ started_after child_def (observed (run h (handle_cancel_child child_def slices) s).trace)
  unfolding handle_cancel_child Starts
  starts_child_if_cancelled h s child_def slices text x =
      (run-Ensures h s (slice_loop-Starts child_def (pos_part slices)) text x).0

  -- Whatever the host does, a run of HandleCancelChild that returns a result, and in which no poll
  -- reported a cancellation, has polled once in each slice, and says that it never observed one.
  pub polls_every_slice :
      (h : Host) (s : h.State) (child_def : String) (slices : ℤ) (text : String)
      → (run h (handle_cancel_child child_def slices) s).outcome ≡ returned (ok text)
      → observed (run h (handle_cancel_child child_def slices) s).trace ≡ none
      → (text ≡ never_observed)
        × (polls (run h (handle_cancel_child child_def slices) s).trace ≡ pos_part slices)
  unfolding handle_cancel_child Starts
  polls_every_slice h s child_def slices text x =
      (run-Ensures h s (slice_loop-Starts child_def (pos_part slices)) text x).1
