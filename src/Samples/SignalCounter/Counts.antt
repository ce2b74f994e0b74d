-- ===== src/Samples/SignalCounter/Counts.antt =====
-- What a run of the signal counter reports, against every host.
use mathlib.Core.List.{append-nil}
use mathlib.Core.List as L
use cleat_ports.Base.{
  ℕ, zero, suc, ◌+◌, String, not, List, [], ◌∷◌, append, ◌==◌, ◌≡◌, if◌then◌else◌, arith,
  append-append,
}
use cleat_ports.Base.Int.{ℤ}
use cleat_ports.Base.Text.{contains}
use cleat_ports.Base.Format.{Unicode}
use cleat_ports.Host.Calls.{Result, ok}
use cleat_ports.Host.Run.{Host, run, Outcome, returned, Event}
use cleat_ports.Host.Logic.{
  Ensures, Ensures-mono, Ensures-ret, Ensures-exhausted, Ensures-call, Ensures-if,
  Ensures-check_field, run-Ensures,
}
use cleat_ports.Host.History.{deliveries}
use cleat_ports.Samples.SignalCounter.{count_loop, handle_signal_counter, report}

-- How many deliveries are not the terminal one.
abbrev pub ticks : List String → ℕ
ticks [] = 0
ticks (n ∷ ns) = if n == "done" then ticks ns else suc (ticks ns)

module _ ⦃u : Unicode⦄ where
  Reports : String → ℕ → List String → List Event → Outcome (Result String) → Type 0
  Reports key count seen tr o =
      (text : String)
      → o ≡ returned (ok text)
      → text
        ≡ report key (count + ticks (deliveries tr)) (not (contains (deliveries tr) "done"))
            (L.◌++◌ seen (deliveries tr))

  module _ (key : String) (give_up_at : ℤ) where
    count_loop-Reports :
        (fuel count : ℕ) (seen : List String)
        → Ensures (Reports key count seen) (count_loop key give_up_at fuel count seen)
    unfolding count_loop Reports contains append
    count_loop-Reports zero count seen = Ensures-exhausted (λ text e. cc)
    count_loop-Reports (suc fuel) count seen =
        Ensures-call _ _ (λ text e. cc)
          λ t.
            Ensures-if _ _ _ (λ late. Ensures-ret _ λ text e. ground (arith, append-nil seen))
              λ early.
                Ensures-call _ _ (λ text e. cc)
                  λ r.
                    Ensures-check_field _ _ _ (λ e f. Ensures-ret _ λ text x. cc)
                      λ fine.
                        Ensures-if _ _ _
                          (λ out. Ensures-ret _ λ text x. ground (arith, append-nil seen))
                          λ took.
                            Ensures-if _ _ _
                              (λ last.
                                Ensures-call _ _ (λ text e. cc)
                                  λ a. Ensures-ret _ λ text x. ground arith)
                              λ more.
                                Ensures-call _ _ (λ text e. cc)
                                  λ a.
                                    Ensures-mono
                                      (count_loop-Reports fuel (suc count) (append seen r.name))
                                      (λ tr o ih text x. ground (
                                        arith,
                                        ih text x,
                                        append-append seen (deliveries tr) r.name,
                                      ))

  handle-Reports :
      (fuel : ℕ) (key : String) (budget_ms : ℤ)
      → Ensures (Reports key 0 []) (handle_signal_counter fuel key budget_ms)
  unfolding handle_signal_counter Reports
  handle-Reports fuel key budget_ms =
      Ensures-call _ _ (λ text e. cc)
        λ t.
          Ensures-call _ _ (λ text e. cc)
            λ a.
              Ensures-call _ _ (λ text e. cc)
                λ b. Ensures-mono (count_loop-Reports key _ fuel 0 []) (λ tr o h. h)

  -- Whatever the host does, a result that HandleSignalCounter returns is determined by the signals that
  -- were delivered: it counts those that are not "done", lists all of them in order, and says that it
  -- timed out exactly when "done" is not among them.
  pub report_exact :
      (h : Host) (s : h.State) (fuel : ℕ) (key : String) (budget_ms : ℤ) (text : String)
      → (run h (handle_signal_counter fuel key budget_ms) s).outcome ≡ returned (ok text)
      → text
        ≡ report key
            (ticks (deliveries (run h (handle_signal_counter fuel key budget_ms) s).trace))
            (not (
              contains
                (deliveries (run h (handle_signal_counter fuel key budget_ms) s).trace)
                "done"))
            (deliveries (run h (handle_signal_counter fuel key budget_ms) s).trace)
  unfolding Reports
  report_exact h s fuel key budget_ms text e =
      ground (arith, run-Ensures h s (handle-Reports fuel key budget_ms) text e)
