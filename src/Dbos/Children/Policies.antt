-- ===== src/Dbos/Children/Policies.antt =====
-- The children of HandleCancelAwaitingParent and HandleAbandonVariant.
use cleat_ports.Base.{String, List, [], ◌∷◌, ◌≡◌, refl, arith}
use cleat_ports.Base.Int.{ℤ}
use cleat_ports.Base.Format.{Unicode}
use cleat_ports.Host.Calls.{ok, ParentClosePolicy}
use cleat_ports.Host.Run.{Host, run, returned, Event}
use cleat_ports.Host.Logic.{Ensures, Ensures-ret, Ensures-call, Ensures-check, run-Ensures}
use cleat_ports.Host.History.Spawns.{spawned, awaited_sets, close_policies}
use cleat_ports.Dbos.Children.{
  long_and_short, handle_cancel_awaiting_parent, handle_abandon_variant,
}

abbrev pub short_alone : List String → List (List String)
short_alone (long ∷ short ∷ []) = (short ∷ []) ∷ []
short_alone _ = []

-- Of a run that returned a result: its policies, and that it awaited the short child alone.
abbrev pub AwaitsShort : ParentClosePolicy → List Event → Type 0
AwaitsShort long_policy tr =
    (close_policies tr ≡ long_policy ∷ ParentClosePolicy.request_cancel ∷ [])
    × (awaited_sets tr ≡ short_alone (spawned tr))

module _ ⦃u : Unicode⦄ where
  long_and_short-Awaits :
      (long_policy : ParentClosePolicy) (short_ms long_ms : ℤ) (tag text : String)
      → Ensures
          (λ tr o. o ≡ returned (ok text) → AwaitsShort long_policy tr)
          (long_and_short long_policy short_ms long_ms tag)
  unfolding long_and_short
  long_and_short-Awaits long_policy short_ms long_ms tag text =
      Ensures-call _ _ (λ x. cc)
        λ a.
          Ensures-check _ _ _ (λ e f. Ensures-ret _ λ x. cc)
            λ long g.
              Ensures-call _ _ (λ x. cc)
                λ b.
                  Ensures-check _ _ _ (λ e f. Ensures-ret _ λ x. cc)
                    λ short g'.
                      Ensures-call _ _ (λ x. cc)
                        λ r.
                          Ensures-check _ _ _ (λ e f. Ensures-ret _ λ x. (refl, ground arith))
                            λ c q. Ensures-ret _ λ x. (refl, ground arith)

  -- Whatever the host does, a run of HandleCancelAwaitingParent that returns a result has started two
  -- children, both under REQUEST_CANCEL, and has awaited the second alone.
  pub awaiting_parent-AwaitsShort :
      (h : Host) (s : h.State) (short_ms long_ms : ℤ) (tag text : String)
      → (run h (handle_cancel_awaiting_parent short_ms long_ms tag) s).outcome ≡ returned (ok text)
      → AwaitsShort ParentClosePolicy.request_cancel
          (run h (handle_cancel_awaiting_parent short_ms long_ms tag) s).trace
  unfolding handle_cancel_awaiting_parent
  awaiting_parent-AwaitsShort h s short_ms long_ms tag text =
      run-Ensures h s
        (long_and_short-Awaits ParentClosePolicy.request_cancel short_ms long_ms tag text)

  -- Whatever the host does, a run of HandleAbandonVariant that returns a result has started its first
  -- child under ABANDON and its second under REQUEST_CANCEL, and has awaited the second alone.
  pub abandon_variant-AwaitsShort :
      (h : Host) (s : h.State) (short_ms long_ms : ℤ) (tag text : String)
      → (run h (handle_abandon_variant short_ms long_ms tag) s).outcome ≡ returned (ok text)
      → AwaitsShort ParentClosePolicy.abandon
          (run h (handle_abandon_variant short_ms long_ms tag) s).trace
  unfolding handle_abandon_variant
  abandon_variant-AwaitsShort h s short_ms long_ms tag text =
      run-Ensures h s (long_and_short-Awaits ParentClosePolicy.abandon short_ms long_ms tag text)
