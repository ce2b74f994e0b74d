-- ===== src/Dbos/Signals/Order.antt =====
-- The signals that HandleSignalOrder reads, in order.
use cleat_ports.Base.{String, List, [], ◌∷◌, ◌≡◌, refl}
use cleat_ports.Base.Int.{ℤ}
use cleat_ports.Base.Format.{Unicode}
use cleat_ports.Host.Calls.{ok, Delivery}
use cleat_ports.Host.Run.{Host, run, returned}
use cleat_ports.Host.Logic.{Ensures-ret, Ensures-call, Ensures-if, Ensures-check, run-Ensures}
use cleat_ports.Host.History.Arrivals.{durable_awaits, arrivals}
use cleat_ports.Dbos.Signals.{order_report, handle_signal_order}

-- What has been awaited when these have arrived, or will not arrive.
abbrev pub awaited_for : List Delivery → List (List String)
awaited_for [] = ("topic" ∷ []) ∷ []
awaited_for (d1 ∷ []) = ("topic" ∷ []) ∷ ("queued" ∷ []) ∷ []
awaited_for (d1 ∷ d2 ∷ ds) = ("topic" ∷ []) ∷ ("queued" ∷ []) ∷ ("queued" ∷ []) ∷ []

module _ ⦃u : Unicode⦄ where
  -- A result after three arrivals lists them in the order of their arrival.
  abbrev pub Lists : String → List Delivery → Type 0
  Lists text (d1 ∷ d2 ∷ d3 ∷ []) = text ≡ order_report d1 d2 d3
  Lists text _ = Unit

  -- Whatever the host does, a run of HandleSignalOrder that returns a result has awaited "topic", then
  -- "queued", then "queued" again, each after the one before has arrived and only then; if all three
  -- arrived, the result lists the three in this order.
  pub reads_in_order :
      (h : Host) (s : h.State) (key : String) (timeout_ms : ℤ) (text : String)
      → (run h (handle_signal_order key timeout_ms) s).outcome ≡ returned (ok text)
      → (durable_awaits (run h (handle_signal_order key timeout_ms) s).trace
          ≡ awaited_for (arrivals (run h (handle_signal_order key timeout_ms) s).trace))
        × Lists text (arrivals (run h (handle_signal_order key timeout_ms) s).trace)
  unfolding handle_signal_order
  reads_in_order h s key timeout_ms text =
      run-Ensures h
        {P = λ tr o.
          o ≡ returned (ok text)
          → (durable_awaits tr ≡ awaited_for (arrivals tr)) × Lists text (arrivals tr)}
        s
        (Ensures-call _ _ (λ x. cc)
          λ called.
            Ensures-check _ _ _ (λ e f. Ensures-ret _ λ x. cc)
              λ resp g.
                Ensures-call _ _ (λ x. cc)
                  λ r1.
                    Ensures-check _ _ _ (λ e f. Ensures-ret _ λ x. rw (f) (refl, tt))
                      λ d1 g1.
                        Ensures-if _ _ _ (λ out. Ensures-ret _ λ x. rw (g1, out) (refl, tt))
                          λ in1.
                            Ensures-call _ _ (λ x. cc)
                              λ r2.
                                Ensures-check _ _ _
                                  (λ e f. Ensures-ret _ λ x. rw (g1, in1, f) (refl, tt))
                                  λ d2 g2.
                                    Ensures-if _ _ _
                                      (λ out. Ensures-ret _ λ x. rw (g1, in1, g2, out) (refl, tt))
                                      λ in2.
                                        Ensures-call _ _ (λ x. cc)
                                          λ r3.
                                            Ensures-check _ _ _
                                              (λ e f.
                                                Ensures-ret _
                                                  λ x. rw (g1, in1, g2, in2, f) (refl, tt))
                                              λ d3 g3.
                                                Ensures-if _ _ _
                                                  (λ out.
                                                    Ensures-ret _ λ x.
                                                      rw (g1, in1, g2, in2, g3, out) (refl, tt))
                                                  λ in3.
                                                    Ensures-ret _ λ x.
                                                      rw (g1, in1, g2, in2, g3, in3) (refl, cc))
