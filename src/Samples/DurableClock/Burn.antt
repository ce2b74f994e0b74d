-- ===== src/Samples/DurableClock/Burn.antt =====
-- The loop that burns time between two readings of the clock.
use cleat_ports.Base.{
  sym, leb, if◌then◌else◌, ℕ, zero, suc, ◌+◌, ◌*◌, ◌/◌, ◌%◌, ◌^◌, ◌≤◌, String, ◌++◌, List, [], ◌∷◌,
  ◌≡◌, arith,
}
use cleat_ports.Base.Int.{ℤ, max_int}
use cleat_ports.Base.Format.{Unicode, quote, decimal, show_int}
use cleat_ports.Host.Calls.{ok}
use cleat_ports.Host.Run.{Host, run, returned}
use cleat_ports.Host.Logic.{Ensures-ret, Ensures-call, Ensures-check, run-Ensures}
use cleat_ports.Host.History.{ms_readings}
use cleat_ports.Samples.DurableClock.{burn_from, burn, clock_report, handle_durable_clock}

-- 0 + 1 + ... + (r - 1), for r < 7
abbrev pub below : ℕ → ℕ
below r =
    if leb r 1
    then 0
    else if leb r 2
    then 1
    else if leb r 3
    then 3
    else if leb r 4
    then 6
    else if leb r 5
    then 10
    else 15

-- The sum of i % 7 for i < n.
abbrev pub burned_sum : ℕ → ℕ
burned_sum n = 21 * (n / 7) + below (n % 7)

burned_sum-suc : (i : ℕ) → burned_sum i + i % 7 ≡ burned_sum (i + 1)
burned_sum-suc i = ground arith

burned_sum_le : (i : ℕ) → burned_sum i ≤ 3 * i
burned_sum_le i = ground arith

burn_from-burned_sum :
    (left i : ℕ)
    → 3 * (i + left) ≤ max_int
    → burn_from left i (burned_sum i) ≡ burned_sum (i + left)
unfolding burn_from
burn_from-burned_sum zero i small = ground arith
burn_from-burned_sum (suc left) i small =
    let fits : (burned_sum i + i % 7) % 2 ^ 64 ≡ burned_sum (i + 1) =
      omega (arith, burned_sum-suc i, burned_sum_le (i + 1)) in
    let shifted : i + 1 + left ≡ i + suc left = omega arith in
    rw (fits, sym shifted) (burn_from-burned_sum left (i + 1) (omega arith))

-- While the sum fits an int, `burn` is the sum of i % 7 below its argument: 21 for each seven.
pub burn_exact :
    (iterations : ℕ) → 3 * iterations ≤ max_int → burn iterations ≡ burned_sum iterations
unfolding burn
burn_exact iterations small =
    let from_start : burn_from iterations 0 (burned_sum 0) ≡ burned_sum (0 + iterations) =
      burn_from-burned_sum iterations 0 (omega arith) in
    ground (arith, from_start)

module _ ⦃u : Unicode⦄ where
  -- `{"key": ..., "t0": ..., "t1": ..., "t2": ..., "t3": ..., "burned": 5999995}` of four readings of the
  -- clock, in the order in which they were taken.
  abbrev pub report_of : String → List ℤ → String
  report_of key (t0 ∷ t1 ∷ t2 ∷ t3 ∷ []) =
      "{\"key\":"
      ++ quote key
      ++ ",\"t0\":"
      ++ show_int t0
      ++ ",\"t1\":"
      ++ show_int t1
      ++ ",\"t2\":"
      ++ show_int t2
      ++ ",\"t3\":"
      ++ show_int t3
      ++ ",\"burned\":"
      ++ decimal 5999995
      ++ "}"
  report_of key _ = ""

  -- Whatever the host does, a result that HandleDurableClock returns is the JSON text of its key, the
  -- four readings of the clock that the run took, t0 to t3 in the order in which it took them, and
  -- 5999995 as the sum that it computed between the first two.
  pub clock_report_exact :
      (h : Host) (s : h.State) (key : String) (sleep_ms : ℤ) (text : String)
      → (run h (handle_durable_clock key sleep_ms) s).outcome ≡ returned (ok text)
      → text ≡ report_of key (ms_readings (run h (handle_durable_clock key sleep_ms) s).trace)
  unfolding handle_durable_clock clock_report
  clock_report_exact h s key sleep_ms text =
      run-Ensures h {P = λ tr o. o ≡ returned (ok text) → text ≡ report_of key (ms_readings tr)} s (
        Ensures-call _ _ (λ x. cc)
          λ t0.
            Ensures-call _ _ (λ x. cc)
              λ t1.
                Ensures-call _ _ (λ x. cc)
                  λ marked.
                    Ensures-check _ _ _ (λ e f. Ensures-ret _ λ x. cc)
                      λ resp g.
                        Ensures-call _ _ (λ x. cc)
                          λ t2.
                            Ensures-call _ _ (λ x. cc)
                              λ slept.
                                Ensures-call _ _ (λ x. cc)
                                  λ t3. Ensures-ret _ λ x. cc (burn_exact 2000000 (omega arith)))
