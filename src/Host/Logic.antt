-- ===== src/Host/Logic.antt =====
-- What holds of every run of a program, whatever the host answers and wherever it stops the run.
use cleat_ports.Base.{String, Bool, true, false, List, [], ◌∷◌, Option, none, some, ◌≡◌, refl}
use cleat_ports.Host.Calls.{Call, Answer, Error, Result, ok, err}
use cleat_ports.Host.Program.{
  Prog, Handler, ret, panic, exhausted, call, if◌then◌else◌, check, check_field,
}
use cleat_ports.Host.Run.{
  Host, Reaction, resume, stop, Outcome, returned, panicked, out_of_fuel, stopped_at, Event, event,
  Run, absorb, run,
}

abbrev pub AtEveryRun : {A : Type 0} → (List Event → Outcome A → Type 0) → Prog A → Type 0
AtEveryRun P (ret a) = P [] (returned a)
AtEveryRun P (panic text) = P [] (panicked text)
AtEveryRun P exhausted = P [] out_of_fuel
AtEveryRun P (call c k) =
    P [] (stopped_at c) × ((a : Answer c) → AtEveryRun (λ tr o. P (event c a ∷ tr) o) (k a))

-- `P` holds of the trace and the outcome of every run.
pub record Ensures {A : Type 0} (P : List Event → Outcome A → Type 0) (p : Prog A) : Type 0 where
  pub at : AtEveryRun P p

module _ {A : Type 0} {P : List Event → Outcome A → Type 0} where
  pub Ensures-ret : (a : A) → P [] (returned a) → Ensures P (ret a)
  Ensures-ret a h = record { at = h }

  pub Ensures-panic : (text : String) → P [] (panicked text) → Ensures P (panic text)
  Ensures-panic text h = record { at = h }

  pub Ensures-exhausted : P [] out_of_fuel → Ensures P exhausted
  Ensures-exhausted h = record { at = h }

  pub Ensures-call :
      (c : Call) (k : Answer c → Prog A)
      → P [] (stopped_at c)
      → ((a : Answer c) → Ensures (λ tr o. P (event c a ∷ tr) o) (k a))
      → Ensures P (call c k)
  Ensures-call c k hs h = record { at = (hs, λ a. (h a).at) }

  pub Ensures-if :
      (b : Bool) (p q : Prog A)
      → (b ≡ true → Ensures P p)
      → (b ≡ false → Ensures P q)
      → Ensures P (if b then p else q)
  unfolding if◌then◌else◌
  Ensures-if true p q hp hq = hp refl
  Ensures-if false p q hp hq = hq refl

module _ {A : Type 0} where
  AtEveryRun-mono :
      (P Q : List Event → Outcome A → Type 0) (p : Prog A)
      → ((tr : List Event) (o : Outcome A) → P tr o → Q tr o)
      → AtEveryRun P p
      → AtEveryRun Q p
  AtEveryRun-mono P Q (ret a) h e = h [] (returned a) e
  AtEveryRun-mono P Q (panic text) h e = h [] (panicked text) e
  AtEveryRun-mono P Q exhausted h e = h [] out_of_fuel e
  AtEveryRun-mono P Q (call c k) h e = (
    h [] (stopped_at c) e.0,
    λ a.
        AtEveryRun-mono (λ tr o. P (event c a ∷ tr) o) (λ tr o. Q (event c a ∷ tr) o) (k a)
          (λ tr o. h (event c a ∷ tr) o) (e.1 a),
  )

  pub Ensures-mono :
      {P Q : List Event → Outcome A → Type 0} {p : Prog A}
      → Ensures P p
      → ((tr : List Event) (o : Outcome A) → P tr o → Q tr o)
      → Ensures Q p
  Ensures-mono {P} {Q} {p} e h = record { at = AtEveryRun-mono P Q p h e.at }

  Holds : {S : Type 0} → (List Event → Outcome A → Type 0) → Run S A → Type 0
  Holds P r = P r.trace r.outcome

  Holds-absorb :
      {S : Type 0} (P : List Event → Outcome A → Type 0) (c : Call) (r : Reaction (Answer c) S)
      (rest : Answer c → S → Run S A)
      → P [] (stopped_at c)
      → ((a : Answer c) (s : S) → Holds (λ tr o. P (event c a ∷ tr) o) (rest a s))
      → Holds P (absorb c r rest)
  unfolding Holds
  Holds-absorb P c (resume a s) rest p q = q a s
  Holds-absorb P c (stop s) rest p q = p

module _ {P : List Event → Outcome (Result String) → Type 0} where
  pub Ensures-check {ℓ} :
      {A : Type ℓ} (r : Result A) (failed : Error → Handler) (rest : A → Handler)
      → ((e : Error) → r ≡ err e → Ensures P (failed e))
      → ((a : A) → r ≡ ok a → Ensures P (rest a))
      → Ensures P (check r failed rest)
  unfolding check
  Ensures-check (ok a) failed rest hf hr = hr a refl
  Ensures-check (err e) failed rest hf hr = hf e refl

  pub Ensures-check_field :
      (f : Option Error) (failed : Error → Handler) (rest : Handler)
      → ((e : Error) → f ≡ some e → Ensures P (failed e))
      → (f ≡ none → Ensures P rest)
      → Ensures P (check_field f failed rest)
  unfolding check_field
  Ensures-check_field none failed rest hf hr = hr refl
  Ensures-check_field (some e) failed rest hf hr = hf e refl

module _ (h : Host) {A : Type 0} where
  run-AtEveryRun :
      (P : List Event → Outcome A → Type 0) (p : Prog A) (s : h.State)
      → AtEveryRun P p
      → P (run h p s).trace (run h p s).outcome
  unfolding run Holds
  run-AtEveryRun P (ret a) s e = e
  run-AtEveryRun P (panic text) s e = e
  run-AtEveryRun P exhausted s e = e
  run-AtEveryRun P (call c k) s e =
      Holds-absorb P c (h.react s c) _ e.0
        (λ a s'. run-AtEveryRun (λ tr o. P (event c a ∷ tr) o) (k a) s' (e.1 a))

  -- What a program ensures holds of its run against every host, from every state.
  pub run-Ensures :
      {P : List Event → Outcome A → Type 0} {p : Prog A} (s : h.State)
      → Ensures P p
      → P (run h p s).trace (run h p s).outcome
  run-Ensures {P} {p} s e = run-AtEveryRun P p s e.at
