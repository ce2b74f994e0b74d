-- ===== src/Dbos/Promises/Resolved.antt =====
-- What HandlePromiseChain reports.
use cleat_ports.Base.{
  ℕ, zero, suc, ◌+◌, String, List, [], ◌∷◌, ◌≡◌, arith, ltb, length, append, length-append,
}
use cleat_ports.Base.Int.{ℤ, pos_part}
use cleat_ports.Base.Format.{Unicode}
use cleat_ports.Host.Calls.{Result, ok}
use cleat_ports.Host.Run.{Host, run, Outcome, returned, Event}
use cleat_ports.Host.Logic.{
  Ensures, Ensures-mono, Ensures-ret, Ensures-panic, Ensures-call, Ensures-if, Ensures-check,
  run-Ensures,
}
use cleat_ports.Host.History.{settlements}
use cleat_ports.Dbos.Promises.{
  chain_report, resolve_loop, await_all, create_loop, handle_promise_chain,
}

module _ ⦃u : Unicode⦄ where
  -- `before` promises were settled earlier, of `before + left` in all.
  Reports : String → ℕ → ℕ → List Event → Outcome (Result String) → Type 0
  Reports key before left tr o =
      (text : String)
      → o ≡ returned (ok text)
      → text ≡ chain_report key (before + settlements tr) (ltb (settlements tr) left)

  module _ (key : String) where
    resolve_loop-Reports :
        (give_up_at : ℤ) (ids : List String) (i before : ℕ)
        → Ensures (Reports key before (length ids)) (resolve_loop key give_up_at ids i before)
    unfolding resolve_loop Reports
    resolve_loop-Reports g [] i before = Ensures-ret _ λ text x. ground arith
    resolve_loop-Reports g (id ∷ ids) i before =
        Ensures-call _ _ (λ text x. cc)
          λ t.
            Ensures-if _ _ _ (λ late. Ensures-ret _ λ text x. ground arith)
              λ early.
                Ensures-call _ _ (λ text x. cc)
                  λ r.
                    Ensures-check _ _ _ (λ e f. Ensures-ret _ λ text x. cc)
                      λ answer got.
                        Ensures-if _ _ _ (λ out. Ensures-ret _ λ text x. ground arith)
                          λ settled.
                            Ensures-call _ _ (λ text x. cc)
                              λ a.
                                Ensures-mono (resolve_loop-Reports g ids (i + 1) (suc before))
                                  λ tr o ih text x. ground (arith, ih text x)

    create_loop-Reports :
        (budget_ms : ℤ) (left i n : ℕ) (ids : List String)
        → length ids + left ≡ n
        → Ensures (Reports key 0 n) (create_loop key budget_ms left i ids)
    unfolding create_loop await_all Reports
    create_loop-Reports b zero i n ids all =
        Ensures-call _ _ (λ text x. cc)
          λ a.
            Ensures-call _ _ (λ text x. cc)
              λ c.
                Ensures-call _ _ (λ text x. cc)
                  λ t. Ensures-mono (resolve_loop-Reports _ ids 0 0) λ tr o ih text x.
                    let total : length ids ≡ n = omega arith in ground (arith, ih text x, total)
    create_loop-Reports b (suc left) i n ids all =
        Ensures-call _ _ (λ text x. cc)
          λ r.
            Ensures-check _ _ _ (λ e f. Ensures-ret _ λ text x. cc)
              λ id got.
                Ensures-mono
                  (create_loop-Reports b left (i + 1) n (append ids id)
                    (omega (arith, length-append ids id)))
                  λ tr o ih. ih

  -- Whatever the host does, a result that HandlePromiseChain returns counts the awaits that came back
  -- with their promise settled, and says that it timed out exactly if these are fewer than `count`.
  pub resolved_exact :
      (h : Host) (s : h.State) (key : String) (count budget_ms : ℤ) (text : String)
      → (run h (handle_promise_chain key count budget_ms) s).outcome ≡ returned (ok text)
      → text
        ≡ chain_report key
            (settlements (run h (handle_promise_chain key count budget_ms) s).trace)
            (ltb
              (settlements (run h (handle_promise_chain key count budget_ms) s).trace)
              (pos_part count))
  unfolding handle_promise_chain Reports
  resolved_exact h s key count budget_ms text e = ground (
    arith,
    run-Ensures h {P = Reports key 0 (pos_part count)} s
        (Ensures-if _ _ _ (λ negative. Ensures-panic _ λ text x. cc)
          λ fine.
            create_loop-Reports key budget_ms (pos_part count) 0 (pos_part count) [] (omega arith))
        text e,
  )
