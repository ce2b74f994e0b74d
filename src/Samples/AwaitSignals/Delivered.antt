-- ===== src/Samples/AwaitSignals/Delivered.antt =====
-- The await-signals workflow completes when the signals arrive in time.
use cleat_ports.Base.{
  ℕ, zero, suc, ◌+◌, ◌≤◌, ◌<◌, String, List, [], ◌∷◌, true, false, append, length, ◌≡◌, leb, ◌||◌,
  ◌==◌, refl, ◌∙◌, arith, length-append,
}
use cleat_ports.Base.Int.{ℤ, pos, leb_ℤ, ltb_ℤ, ◌+ℤ◌, ◌-ℤ◌, millis, sub_time}
use cleat_ports.Base.Text.{split_commas, length-split_commas}
use cleat_ports.Base.Format.{Unicode}
use cleat_ports.Host.Calls.{Result, ok, set_query_state}
use cleat_ports.Host.Program.{ask, done, ◌>>◌}
use cleat_ports.Host.Run.{Host, run, Outcome, returned}
use cleat_ports.Host.History.{fresh, distinct}
use cleat_ports.Host.History.Fresh.{AllIn}
use cleat_ports.Host.Progress.{Reaches, Reaches-ret, Reaches-if, Reaches-check_field}
use cleat_ports.Host.Delivery.{Delivering, Reaches-answered, delivery, remaining_positive}
use cleat_ports.Samples.AwaitSignals.{await_loop, handle_await_signals, complete_report}

module _ ⦃u : Unicode⦄ where
  abbrev pub Completes : String → Outcome (Result String) → Type 0
  Completes key o = (order : List String) × (o ≡ returned (ok (complete_report key order)))

  module _ (key : String) (wanted : List String) (give_up_at : ℤ) {h : Host} {opens closes : ℤ}
      (d : Delivering h opens closes)
      (in_time : (t : ℤ)
        → ltb_ℤ t closes ≡ true
        → leb_ℤ (sub_time give_up_at t) (pos 0) ≡ false) where
    completed :
        (order : List String) (s : h.State)
        → Reaches h
            (Completes key)
            (do ask (set_query_state "phase" "complete"); done (complete_report key order))
            s
    completed order s =
        let (s', told, same) = d.publishes s "phase" "complete" in
        Reaches-answered tt s' told (Reaches-ret _ (order, refl))

    await_loop-Completes :
        (fuel : ℕ) (seen : List String) (s : h.State) (queue : List String)
        → d.queue s ≡ queue
        → AllIn wanted queue
        → length wanted ≤ length seen + length (fresh seen queue)
        → length queue < fuel
        → Reaches h (Completes key) (await_loop key wanted give_up_at fuel seen seen) s
    unfolding await_loop
    await_loop-Completes zero seen s queue e asked enough fits = absurd (omega arith)
    await_loop-Completes (suc fuel) seen s [] e asked enough fits =
        Reaches-if _ _ _ (λ short. absurd (ground arith)) λ full. completed seen s
    await_loop-Completes (suc fuel) seen s (n ∷ rest) e asked enough fits =
        Reaches-if _ _ _
          (λ short.
            let (t, s₁, read, same₁, opened, early) = d.reads s in
            let (s₂, got, left) =
              d.hands_over s₁ wanted (sub_time give_up_at t) n rest (same₁ ∙ e) asked.0 in
            Reaches-answered t s₁ read (
              Reaches-if _ _ _ (λ late. let never = in_time t early in cc)
                λ on_time. Reaches-answered (delivery n) s₂ got (
                  Reaches-check_field _ _ _ (λ e' f. cc)
                    λ fine.
                      Reaches-if _ _ _ (λ out. cc)
                        λ took.
                          Reaches-if _ _ _
                            (λ old.
                              await_loop-Completes fuel seen s₂ rest left asked.1
                                (rw (old) at enough) (omega arith))
                            λ new.
                              let (s₃, told, same₃) = d.publishes s₂ _ _ in
                              Reaches-answered tt s₃ told (
                                await_loop-Completes fuel (append seen n) s₃ rest (same₃ ∙ left)
                                  asked.1 (omega (arith, rw (new) at enough, length-append seen n))
                                  (omega arith)))))
          λ full. completed seen s

  -- When the host delivers its queue in order and in time, that is, each reading of the clock is in
  -- a window no longer than the timeout, and the queue has only names that were asked for, and as many
  -- distinct ones as were,
  -- HandleAwaitSignals returns the complete report, with one unit of fuel more than the queue has
  -- signals. It is neither stopped nor does it time out, however many repeated signals are between.
  pub completes_when_delivered :
      {h : Host} {opens closes : ℤ} (d : Delivering h opens closes) (s : h.State) (fuel : ℕ)
      (key names : String) (timeout_ms : ℤ)
      → (names == "") ≡ false
      → leb_ℤ (closes -ℤ opens) (millis timeout_ms) ≡ true
      → AllIn (split_commas names) (d.queue s)
      → length (split_commas names) ≤ length (distinct (d.queue s))
      → length (d.queue s) < fuel
      → Completes key (run h (handle_await_signals fuel key names timeout_ms) s).outcome
  unfolding handle_await_signals
  completes_when_delivered {opens} {closes} d s fuel key names timeout_ms given window asked enough
        fits =
      Reaches.at (
        Reaches-if (leb (length (split_commas names)) 0 || names == "") _ _
          (λ none_given.
            let none' = (rw (given) at none_given) in
            absurd (ground (arith, none', length-split_commas names)))
          λ some_given.
            let (s₁, told, same₁) = d.publishes s "phase" "waiting" in
            let (t, s₂, read, same₂, opened, early) = d.reads s₁ in
            Reaches-answered tt s₁ told (
              Reaches-answered t s₂ read (
                await_loop-Completes key (split_commas names) (t +ℤ millis timeout_ms) d
                  (λ t' early'.
                    remaining_positive opens closes t t' (millis timeout_ms) opened early' window)
                  fuel [] s₂ (d.queue s) (same₂ ∙ same₁) asked (omega (arith, enough)) fits)))
