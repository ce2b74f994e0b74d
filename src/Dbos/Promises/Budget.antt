-- ===== src/Dbos/Promises/Budget.antt =====
-- The budget of HandlePromiseChain.
use cleat_ports.Base.{
  ℕ, zero, suc, ◌+◌, String, false, List, [], ◌∷◌, Option, none, some, ◌≡◌, refl, append,
}
use cleat_ports.Base.Int.{ℤ, pos, pos_part, leb_ℤ, ◌+ℤ◌, millis, sub_time, div_int}
use cleat_ports.Base.Format.{Unicode}
use cleat_ports.Host.Calls.{Call, Answer, now, await_promise_ms}
use cleat_ports.Host.Run.{Host, run, Event}
use cleat_ports.Host.Logic.{
  Ensures, Ensures-mono, Ensures-ret, Ensures-panic, Ensures-call, Ensures-if, Ensures-check,
  run-Ensures,
}
use cleat_ports.Host.History.{reading}
use cleat_ports.Dbos.Promises.{resolve_loop, await_all, create_loop, handle_promise_chain}

-- An await's milliseconds are what the last reading of the clock leaves until `give_up_at`, which is
-- positive, with the fraction dropped.
abbrev pub SinceReading : ℤ → ℤ → Option ℤ → Type 0
SinceReading give_up_at ms (some t) =
    (ms ≡ div_int (sub_time give_up_at t) 1000000) × (leb_ℤ (sub_time give_up_at t) (pos 0) ≡ false)
SinceReading give_up_at ms none = ⊥

abbrev pub MillisKeep : ℤ → Call → Option ℤ → Type 0
MillisKeep give_up_at (await_promise_ms _ ms) last = SinceReading give_up_at ms last
MillisKeep give_up_at _ last = Unit

abbrev pub KeepsDeadline : ℤ → Option ℤ → List Event → Type 0
KeepsDeadline give_up_at last [] = Unit
KeepsDeadline give_up_at last (e ∷ es) =
    MillisKeep give_up_at e.request last
    × KeepsDeadline give_up_at (reading e.request e.answer last) es

-- The deadline is the budget after the first reading of the clock, and no await comes before that.
abbrev pub DeadlineFrom : ℤ → (c : Call) → Answer c → List Event → Type 0 → Type 0
DeadlineFrom budget_ms now t es later = KeepsDeadline (t +ℤ millis budget_ms) (some t) es
DeadlineFrom budget_ms (await_promise_ms _ _) r es later = ⊥
DeadlineFrom budget_ms _ _ es later = later

abbrev pub KeepsOneDeadline : ℤ → List Event → Type 0
KeepsOneDeadline budget_ms [] = Unit
KeepsOneDeadline budget_ms (e ∷ es) =
    DeadlineFrom budget_ms e.request e.answer es (KeepsOneDeadline budget_ms es)

module _ ⦃u : Unicode⦄ (key : String) where
  resolve_loop-KeepsDeadline :
      (g : ℤ) (ids : List String) (i before : ℕ) (last : Option ℤ)
      → Ensures (λ tr o. KeepsDeadline g last tr) (resolve_loop key g ids i before)
  unfolding resolve_loop
  resolve_loop-KeepsDeadline g [] i before last = Ensures-ret _ tt
  resolve_loop-KeepsDeadline g (id ∷ ids) i before last = Ensures-call _ _ tt λ t.
      Ensures-if _ _ _ (λ late. Ensures-ret _ (tt, tt))
        λ early.
          Ensures-call _ _ (tt, tt)
            λ r.
              Ensures-check _ _ _ (λ e f. Ensures-ret _ (tt, ((refl, early), tt)))
                λ answer got.
                  Ensures-if _ _ _ (λ out. Ensures-ret _ (tt, ((refl, early), tt)))
                    λ settled.
                      Ensures-call _ _ (tt, ((refl, early), tt))
                        λ a.
                          Ensures-mono
                            (resolve_loop-KeepsDeadline g ids (i + 1) (suc before) (some t))
                            λ tr o ih. (tt, ((refl, early), (tt, ih)))

  create_loop-KeepsOneDeadline :
      (budget_ms : ℤ) (left i : ℕ) (ids : List String)
      → Ensures (λ tr o. KeepsOneDeadline budget_ms tr) (create_loop key budget_ms left i ids)
  unfolding create_loop await_all
  create_loop-KeepsOneDeadline b zero i ids = Ensures-call _ _ tt λ a.
      Ensures-call _ _ tt
        λ c. Ensures-call _ _ tt λ t. resolve_loop-KeepsDeadline (t +ℤ millis b) ids 0 0 (some t)
  create_loop-KeepsOneDeadline b (suc left) i ids = Ensures-call _ _ tt λ r.
      Ensures-check _ _ _ (λ e f. Ensures-ret _ tt)
        λ id got. create_loop-KeepsOneDeadline b left (i + 1) (append ids id)

module _ ⦃u : Unicode⦄ where
  -- In every run of HandlePromiseChain, whatever the host does, each promise is awaited for the whole
  -- milliseconds that the clock's reading just before it leaves of one deadline, the first reading plus
  -- the budget, and only if something is left: no promise moves the deadline.
  pub one_deadline :
      (h : Host) (s : h.State) (key : String) (count budget_ms : ℤ)
      → KeepsOneDeadline budget_ms (run h (handle_promise_chain key count budget_ms) s).trace
  unfolding handle_promise_chain
  one_deadline h s key count budget_ms =
      run-Ensures h {P = λ tr o. KeepsOneDeadline budget_ms tr} s (
        Ensures-if _ _ _ (λ negative. Ensures-panic _ tt)
          λ fine. create_loop-KeepsOneDeadline key budget_ms (pos_part count) 0 [])
