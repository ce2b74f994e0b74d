-- ===== src/Dbos/Children/Fanout.antt =====
-- Which children HandleFanout starts and awaits.
use mathlib.Core.List as L
use cleat_ports.Base.{
  ℕ, zero, suc, ◌+◌, String, ◌++◌, List, [], ◌∷◌, ◌≡◌, refl, arith, append, append-append,
}
use cleat_ports.Base.Int.{ℤ, pos, pos_part, ◌*ℤ◌, wrap64}
use cleat_ports.Base.Format.{Unicode, decimal, show_int}
use cleat_ports.Host.Calls.{Result, ok}
use cleat_ports.Host.Run.{Host, run, Outcome, returned, Event}
use cleat_ports.Host.Logic.{
  Ensures, Ensures-mono, Ensures-panic, run-Ensures, Ensures-ret, Ensures-call, Ensures-if,
  Ensures-check,
}
use cleat_ports.Host.History.Spawns.{child_requests, spawned, awaited_sets}
use cleat_ports.Dbos.Children.{fanout_input, spawn_loop, handle_fanout}
use mathlib.Core.List.{append-nil}

-- The requests for children `i`, ..., `i + left - 1`, written out.
abbrev pub staggered : ℤ → ℕ → ℕ → List (String × String)
staggered ms i zero = []
staggered ms i (suc left) =
    (
      "child_leaf",
      "{\"ms\":"
          ++ show_int (wrap64 (ms *ℤ pos (i + 1)))
          ++ ",\"tag\":\"child-"
          ++ decimal i
          ++ "\"}",
    )
    ∷ staggered ms (i + 1) left

module _ ⦃u : Unicode⦄ (encode : List String → Result String) (ms mode : ℤ) where
  Awaits : ℕ → ℕ → List String → List Event → Outcome (Result String) → Type 0
  Awaits i left ids tr o =
      (text : String)
      → o ≡ returned (ok text)
      → (child_requests tr ≡ staggered ms i left)
        × (awaited_sets tr ≡ (L.◌++◌ ids (spawned tr)) ∷ [])

  spawn_loop-Awaits :
      (left i : ℕ) (ids : List String)
      → Ensures (Awaits i left ids) (spawn_loop encode ms mode left i ids)
  unfolding spawn_loop Awaits fanout_input
  spawn_loop-Awaits zero i ids =
      Ensures-if _ _ _
        (λ all.
          Ensures-call _ _ (λ text x. cc)
            λ r.
              Ensures-check _ _ _ (λ e f. Ensures-ret _ λ text x. cc)
                λ results got.
                  Ensures-check _ _ _ (λ e f. Ensures-ret _ λ text x. cc)
                    λ encoded fine. Ensures-ret _ λ text x. (refl, ground (arith, append-nil ids)))
        λ any.
          Ensures-call _ _ (λ text x. cc)
            λ r.
              Ensures-check _ _ _ (λ e f. Ensures-ret _ λ text x. cc)
                λ answer got. Ensures-ret _ λ text x. (refl, ground (arith, append-nil ids))
  spawn_loop-Awaits (suc left) i ids =
      Ensures-call _ _ (λ text x. cc)
        λ r.
          Ensures-check _ _ _ (λ e f. Ensures-ret _ λ text x. cc)
            λ id got.
              Ensures-mono (spawn_loop-Awaits left (i + 1) (append ids id)) λ tr o ih text x.
                let (asked, waited) = ih text x in
                (
                  ground (arith, asked),
                  ground (arith, got, waited, append-append ids (spawned tr) id),
                )

module _ ⦃u : Unicode⦄ where
  -- Whatever the host does, a run of HandleFanout that returns a result, in either mode, has asked for
  -- exactly the children 0, ..., n-1 in that order, the i-th with the text `{"ms":M,"tag":"child-i"}`
  -- where M is `ms*(i+1)` wrapped to 64 bits, and has then awaited once, on exactly the run ids it was
  -- given, in that order.
  pub fanout_awaits_all :
      (h : Host) (s : h.State) (encode : List String → Result String) (n ms mode : ℤ)
      (text : String)
      → (run h (handle_fanout encode n ms mode) s).outcome ≡ returned (ok text)
      → (child_requests (run h (handle_fanout encode n ms mode) s).trace
          ≡ staggered ms 0 (pos_part n))
        × (awaited_sets (run h (handle_fanout encode n ms mode) s).trace
            ≡ spawned (run h (handle_fanout encode n ms mode) s).trace ∷ [])
  unfolding handle_fanout Awaits
  fanout_awaits_all h s encode n ms mode text =
      run-Ensures h
        {P = λ tr o.
          o ≡ returned (ok text)
          → (child_requests tr ≡ staggered ms 0 (pos_part n)) × (awaited_sets tr ≡ spawned tr ∷ [])}
        s
        (Ensures-if _ _ _ (λ negative. Ensures-panic _ λ x. cc)
          λ fine.
            Ensures-mono (spawn_loop-Awaits encode ms mode (pos_part n) 0 []) λ tr o ih. ih text)
