-- ===== src/Host/Completion.antt =====
-- Runs against one host that come to their end, and the state that they leave it in.
use cleat_ports.Base.{String, ◌≡◌, refl}
use cleat_ports.Host.Calls.{Answer, Call, Error, Result, ok, err}
use cleat_ports.Host.Program.{Prog, Handler, ret, call, check}
use cleat_ports.Host.Run.{Host, resume, stop, returned, stopped_at, run}

-- The run of `p` from `s` returns, with `P` of what it returns and of the state at its end.
pub record Completes (h : Host) {A : Type 0} (P : A → h.State → Type 0) (p : Prog A) (s : h.State)
    : Type 0 where
  pub result : A
  pub returns : (run h p s).outcome ≡ returned result
  pub leaves : P result (run h p s).final

module _ {h : Host} {A : Type 0} {P : A → h.State → Type 0} {s : h.State} where
  pub Completes-ret : (a : A) → P a s → Completes h P (ret a) s
  unfolding run
  Completes-ret a q = record { result = a; returns = refl; leaves = q }

  pub Completes-answered :
      {c : Call} {k : Answer c → Prog A} (a : Answer c) (s' : h.State)
      → h.react s c ≡ resume a s'
      → Completes h P (k a) s'
      → Completes h P (call c k) s
  unfolding run
  Completes-answered a s' e r = record {
    result = r.result;
    returns = rw (e) r.returns;
    leaves = rw (e) r.leaves;
  }

module _ {h : Host} {P : Result String → h.State → Type 0} {s : h.State} where
  pub Completes-check {ℓ} :
      {A : Type ℓ} (r : Result A) (failed : Error → Handler) (rest : A → Handler)
      → ((e : Error) → r ≡ err e → Completes h P (failed e) s)
      → ((a : A) → r ≡ ok a → Completes h P (rest a) s)
      → Completes h P (check r failed rest) s
  unfolding check
  Completes-check (ok a) failed rest hf hr = hr a refl
  Completes-check (err e) failed rest hf hr = hf e refl

-- The run of `p` from `s` is ended by the host at the call `c`, with `P` of the state at its end.
pub record Stops (h : Host) {A : Type 0} (c : Call) (P : h.State → Type 0) (p : Prog A)
    (s : h.State) : Type 0 where
  pub stops : (run h p s).outcome ≡ stopped_at c
  pub leaves : P (run h p s).final

module _ {h : Host} {A : Type 0} {d : Call} {P : h.State → Type 0} {s : h.State} where
  pub Stops-here :
      {k : Answer d → Prog A} (s' : h.State)
      → h.react s d ≡ stop s'
      → P s'
      → Stops h d P (call d k) s
  unfolding run
  Stops-here s' e q = record { stops = rw (e) refl; leaves = rw (e) q }

  pub Stops-answered :
      {c : Call} {k : Answer c → Prog A} (a : Answer c) (s' : h.State)
      → h.react s c ≡ resume a s'
      → Stops h d P (k a) s'
      → Stops h d P (call c k) s
  unfolding run
  Stops-answered a s' e r = record { stops = rw (e) r.stops; leaves = rw (e) r.leaves }
