-- ===== src/Samples/AwaitSignals/Order.antt =====
-- What a run of the await-signals workflow reports, against every host.
use mathlib.Core.List.{append-nil}
use mathlib.Core.List as L
use cleat_ports.Base.{
  ℕ, zero, suc, String, List, [], append, ltb, length, ◌≡◌, if◌then◌else◌, arith, append-append,
}
use cleat_ports.Base.Int.{ℤ}
use cleat_ports.Base.Text.{contains, split_commas}
use cleat_ports.Base.Format.{Unicode}
use cleat_ports.Host.Calls.{Result, ok}
use cleat_ports.Host.Run.{Host, run, Outcome, returned, Event}
use cleat_ports.Host.Logic.{
  Ensures, Ensures-mono, Ensures-ret, Ensures-exhausted, Ensures-call, Ensures-if,
  Ensures-check_field, run-Ensures,
}
use cleat_ports.Host.History.{deliveries, fresh, distinct}
use cleat_ports.Samples.AwaitSignals.{
  await_loop, handle_await_signals, timed_out_report, complete_report,
}

module _ ⦃u : Unicode⦄ where
  -- What is reported when `order` has arrived.
  abbrev pub arrival_report : String → List String → List String → String
  arrival_report key wanted order =
      if ltb (length order) (length wanted)
      then timed_out_report key order
      else complete_report key order

  Reports : String → List String → List String → List Event → Outcome (Result String) → Type 0
  Reports key wanted seen tr o =
      (text : String)
      → o ≡ returned (ok text)
      → text ≡ arrival_report key wanted (L.◌++◌ seen (fresh seen (deliveries tr)))

  module _ (key : String) (wanted : List String) (give_up_at : ℤ) where
    await_loop-Reports :
        (fuel : ℕ) (seen : List String)
        → Ensures (Reports key wanted seen) (await_loop key wanted give_up_at fuel seen seen)
    unfolding await_loop Reports contains append
    await_loop-Reports zero seen = Ensures-exhausted (λ text e. cc)
    await_loop-Reports (suc fuel) seen =
        Ensures-if _ _ _
          (λ short.
            Ensures-call _ _ (λ text e. cc)
              λ t.
                Ensures-if _ _ _ (λ late. Ensures-ret _ λ text e. ground (arith, append-nil seen))
                  λ early.
                    Ensures-call _ _ (λ text e. cc)
                      λ r.
                        Ensures-check_field _ _ _ (λ e f. Ensures-ret _ λ text x. cc)
                          λ fine.
                            Ensures-if _ _ _
                              (λ out. Ensures-ret _ λ text x. ground (arith, append-nil seen))
                              λ took.
                                Ensures-if _ _ _
                                  (λ old.
                                    Ensures-mono (await_loop-Reports fuel seen)
                                      (λ tr o ih text x. ground (arith, ih text x)))
                                  λ new.
                                    Ensures-call _ _ (λ text e. cc)
                                      λ a.
                                        Ensures-mono (await_loop-Reports fuel (append seen r.name))
                                          λ tr o ih text x. ground (
                                            arith,
                                            ih text x,
                                            append-append seen
                                                (fresh (append seen r.name) (deliveries tr)) r.name,
                                          ))
          λ full.
            Ensures-call _ _ (λ text e. cc)
              λ a. Ensures-ret _ λ text x. ground (arith, append-nil seen)

  handle-Reports :
      (fuel : ℕ) (key names : String) (timeout_ms : ℤ)
      → Ensures
          (Reports key (split_commas names) [])
          (handle_await_signals fuel key names timeout_ms)
  unfolding handle_await_signals Reports
  handle-Reports fuel key names timeout_ms =
      Ensures-if _ _ _ (λ none_given. Ensures-ret _ λ text e. cc)
        λ given.
          Ensures-call _ _ (λ text e. cc)
            λ a.
              Ensures-call _ _ (λ text e. cc)
                λ t. Ensures-mono (await_loop-Reports key _ _ fuel []) (λ tr o h. h)

  -- Whatever the host does, a result that HandleAwaitSignals returns is determined by the signals that
  -- were delivered: it lists their names, each once, in the order of first arrival, and it is the
  -- complete one exactly when these are at least as many as the names asked for, and else the timed-out
  -- one.
  pub arrival_order :
      (h : Host) (s : h.State) (fuel : ℕ) (key names : String) (timeout_ms : ℤ) (text : String)
      → (run h (handle_await_signals fuel key names timeout_ms) s).outcome ≡ returned (ok text)
      → text
        ≡ arrival_report key
            (split_commas names)
            (distinct (deliveries (run h (handle_await_signals fuel key names timeout_ms) s).trace))
  unfolding Reports
  arrival_order h s fuel key names timeout_ms =
      run-Ensures h s (handle-Reports fuel key names timeout_ms)
