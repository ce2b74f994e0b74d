-- ===== src/Durabletask/Root.antt =====
-- The children of HandleTerminateRoot.
use cleat_ports.Base.{String, ◌++◌, List, [], ◌∷◌, ◌≡◌, refl, arith}
use cleat_ports.Base.Int.{ℤ}
use cleat_ports.Base.Format.{Unicode, quote}
use cleat_ports.Host.Calls.{ok, ParentClosePolicy}
use cleat_ports.Host.Run.{Host, run, returned}
use cleat_ports.Host.Logic.{Ensures-ret, Ensures-call, Ensures-check, run-Ensures}
use cleat_ports.Host.History.Spawns.{spawned, awaited_sets, close_policies}
use cleat_ports.Durabletask.{handle_terminate_root}

module _ ⦃u : Unicode⦄ where
  -- The report from the ids of the two children, the one that runs on first.
  abbrev pub root_report : List String → String
  root_report (running ∷ completed ∷ []) =
      "{\"completedChild\":" ++ quote completed ++ ",\"runningChild\":" ++ quote running ++ "}"
  root_report _ = ""

  abbrev pub second_alone : List String → List (List String)
  second_alone (running ∷ completed ∷ []) = (completed ∷ []) ∷ []
  second_alone _ = []

  -- Whatever the host does, a run of HandleTerminateRoot that returns a result has started two children,
  -- both under TERMINATE, has awaited the second of them alone, and reports the second as the completed
  -- one and the first as the running one.
  pub root_awaits_second :
      (h : Host) (s : h.State) (marker : String) (short_ms long_ms : ℤ) (text : String)
      → (run h (handle_terminate_root marker short_ms long_ms) s).outcome ≡ returned (ok text)
      → (close_policies (run h (handle_terminate_root marker short_ms long_ms) s).trace
          ≡ ParentClosePolicy.terminate ∷ ParentClosePolicy.terminate ∷ [])
        × (awaited_sets (run h (handle_terminate_root marker short_ms long_ms) s).trace
            ≡ second_alone
                (spawned (run h (handle_terminate_root marker short_ms long_ms) s).trace))
        × (text
            ≡ root_report (spawned (run h (handle_terminate_root marker short_ms long_ms) s).trace))
  unfolding handle_terminate_root
  root_awaits_second h s marker short_ms long_ms text =
      run-Ensures h
        {P = λ tr o.
          o ≡ returned (ok text)
          → (close_policies tr ≡ ParentClosePolicy.terminate ∷ ParentClosePolicy.terminate ∷ [])
            × (awaited_sets tr ≡ second_alone (spawned tr))
            × (text ≡ root_report (spawned tr))}
        s
        (Ensures-call _ _ (λ x. cc)
          λ long.
            Ensures-check _ _ _ (λ e f. Ensures-ret _ λ x. cc)
              λ running g.
                Ensures-call _ _ (λ x. cc)
                  λ short.
                    Ensures-check _ _ _ (λ e f. Ensures-ret _ λ x. cc)
                      λ completed g'.
                        Ensures-call _ _ (λ x. cc)
                          λ r.
                            Ensures-check _ _ _ (λ e f. Ensures-ret _ λ x. cc)
                              λ a q. Ensures-ret _ λ x. (refl, ground arith, ground arith))
