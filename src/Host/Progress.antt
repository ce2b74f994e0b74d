-- ===== src/Host/Progress.antt =====
-- Where a run against one host ends, and hosts that have finitely many signals to deliver.
use cleat_ports.Base.{ℕ, String, Bool, true, false, ◌≤◌, ◌<◌, List, Option, none, some, ◌≡◌, refl}
use cleat_ports.Base.Int.{ℤ}
use cleat_ports.Host.Calls.{Call, Answer, Error, Result, ok, err, SignalResult, await_signals}
use cleat_ports.Host.Program.{Prog, Handler, ret, call, if◌then◌else◌, check, check_field}
use cleat_ports.Host.Run.{
  Host, Reaction, resume, stop, Outcome, returned, stopped_at, Run, absorb, run,
}
use cleat_ports.Host.History.{took_signal}

-- The run of `p` from `s` ends in an outcome with `P`.
pub record Reaches (h : Host) {A : Type 0} (P : Outcome A → Type 0) (p : Prog A) (s : h.State)
    : Type 0 where
  pub at : P (run h p s).outcome

module _ {A S : Type 0} where
  absorb-outcome :
      (P : Outcome A → Type 0) (c : Call) (r : Reaction (Answer c) S)
      (rest : Answer c → S → Run S A)
      → P (stopped_at c)
      → ((a : Answer c) (s : S) → r ≡ resume a s → P (rest a s).outcome)
      → P (absorb c r rest).outcome
  absorb-outcome P c (resume a s) rest hs hr = hr a s refl
  absorb-outcome P c (stop s) rest hs hr = hs

module _ {h : Host} {A : Type 0} {P : Outcome A → Type 0} {s : h.State} where
  pub Reaches-ret : (a : A) → P (returned a) → Reaches h P (ret a) s
  unfolding run
  Reaches-ret a q = record { at = q }

  pub Reaches-call :
      (c : Call) (k : Answer c → Prog A)
      → P (stopped_at c)
      → ((a : Answer c) (s' : h.State) → h.react s c ≡ resume a s' → Reaches h P (k a) s')
      → Reaches h P (call c k) s
  unfolding run
  Reaches-call c k hs hr = record {
    at = absorb-outcome P c (h.react s c) _ hs (λ a s' e. (hr a s' e).at);
  }

  pub Reaches-if :
      (b : Bool) (p q : Prog A)
      → (b ≡ true → Reaches h P p s)
      → (b ≡ false → Reaches h P q s)
      → Reaches h P (if b then p else q) s
  unfolding if◌then◌else◌
  Reaches-if true p q hp hq = hp refl
  Reaches-if false p q hp hq = hq refl

module _ {h : Host} {P : Outcome (Result String) → Type 0} {s : h.State} where
  pub Reaches-check {ℓ} :
      {A : Type ℓ} (r : Result A) (failed : Error → Handler) (rest : A → Handler)
      → ((e : Error) → r ≡ err e → Reaches h P (failed e) s)
      → ((a : A) → r ≡ ok a → Reaches h P (rest a) s)
      → Reaches h P (check r failed rest) s
  unfolding check
  Reaches-check (ok a) failed rest hf hr = hr a refl
  Reaches-check (err e) failed rest hf hr = hf e refl

  pub Reaches-check_field :
      (f : Option Error) (failed : Error → Handler) (rest : Handler)
      → ((e : Error) → f ≡ some e → Reaches h P (failed e) s)
      → (f ≡ none → Reaches h P rest s)
      → Reaches h P (check_field f failed rest) s
  unfolding check_field
  Reaches-check_field none failed rest hf hr = hr refl
  Reaches-check_field (some e) failed rest hf hr = hf e refl

-- A host with `pending s` signals still to deliver in the state `s`: no call adds to them, and a
-- delivery takes one away.
pub record Draining (h : Host) : Type 0 where
  pub pending : h.State → ℕ
  pub kept :
      (s : h.State) (c : Call) (a : Answer c) (s' : h.State)
      → h.react s c ≡ resume a s'
      → pending s' ≤ pending s
  pub taken :
      (s : h.State) (names : List String) (d : ℤ) (r : SignalResult) (s' : h.State)
      → h.react s (await_signals names d) ≡ resume r s'
      → took_signal r ≡ true
      → pending s' < pending s
