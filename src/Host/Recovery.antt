-- ===== src/Host/Recovery.antt =====
-- Runs that go on after a crash. A worker that takes a run over starts its body from the first step: the
-- calls whose answers were recorded are served from the record, and the rest is run against the host.
use mathlib.Core.List as L
use mathlib.Core.List.{append-nil}
use cleat_ports.Base.{List, [], ◌∷◌, ◌≡◌}
use cleat_ports.Host.Calls.{Call, Answer}
use cleat_ports.Host.Program.{Prog, ret, panic, exhausted, call}
use cleat_ports.Host.Run.{
  Host, Reaction, resume, stop, Outcome, stopped_at, Event, event, Run, absorb, run,
}
use cleat_ports.Host.Logic.{AtEveryRun, Ensures, run-Ensures}

-- `q` is what is left of `p` once the record has been served.
pub data Replays {A : Type 0} : Prog A → List Event → Prog A → Type 0 where
  at_end : {p : Prog A} → Replays p [] p
  served :
      {c : Call} {k : Answer c → Prog A} {tr : List Event} {q : Prog A} (a : Answer c)
      → Replays (k a) tr q
      → Replays (call c k) (event c a ∷ tr) q

-- A run of `p` through any number of crashes, each on a host of its own: what was recorded in all, and
-- the outcome of the last attempt. An attempt that ends at a call has crashed there, or was ended.
pub data Execution {A : Type 0} (p : Prog A) : List Event → Outcome A → Type 1 where
  attempt : (h : Host) (s : h.State) → Execution p (run h p s).trace (run h p s).outcome
  recover :
      {tr : List Event} {c : Call} {q : Prog A} (h : Host) (s : h.State)
      → Execution p tr (stopped_at c)
      → Replays p tr q
      → Execution p (L.◌++◌ tr (run h q s).trace) (run h q s).outcome

module _ {A : Type 0} where
  AtEveryRun-Replays :
      (P : List Event → Outcome A → Type 0) (p : Prog A) (tr : List Event) (q : Prog A)
      → Replays p tr q
      → AtEveryRun P p
      → AtEveryRun (λ tr' o. P (L.◌++◌ tr tr') o) q
  AtEveryRun-Replays P p tr q at_end e = e
  AtEveryRun-Replays P p tr q (served {c} {k} {tr = rest} a r) e =
      AtEveryRun-Replays (λ tr' o. P (event c a ∷ tr') o) (k a) rest q r (e.1 a)

  -- What a body ensures of every run without a crash, it ensures of every run with crashes: the
  -- record of all the attempts is that of one run.
  pub execution-Ensures :
      (P : List Event → Outcome A → Type 0) (p : Prog A) (tr : List Event) (o : Outcome A)
      → Ensures P p
      → Execution p tr o
      → P tr o
  execution-Ensures P p tr o e (attempt h s) = run-Ensures h s e
  execution-Ensures P p tr o e (recover {tr = before} {q} h s crashed r) =
      run-Ensures h {P = λ tr' o. P (L.◌++◌ before tr') o} s
        (record { at = AtEveryRun-Replays P p before q r e.at })

  Replays-append :
      {p q r : Prog A} {tr tr' : List Event}
      → Replays p tr q
      → Replays q tr' r
      → Replays p (L.◌++◌ tr tr') r
  Replays-append at_end rest = rest
  Replays-append (served a before) rest = served a (Replays-append before rest)

  -- A run that was stopped at a call can be replayed up to that call.
  absorb-Replays :
      {S : Type 0} (c d : Call) (k : Answer c → Prog A) (x : Reaction (Answer c) S)
      (rest : Answer c → S → Run S A)
      → ((a : Answer c) (s : S)
          → (rest a s).outcome ≡ stopped_at d
          → (q : Prog A) × Replays (k a) (rest a s).trace q)
      → (absorb c x rest).outcome ≡ stopped_at d
      → (q : Prog A) × Replays (call c k) (absorb c x rest).trace q
  absorb-Replays c d k (stop s) rest ih e = (call c k, at_end)
  absorb-Replays c d k (resume a s) rest ih e = let (q, r) = ih a s e in (q, served a r)

  run-Replays :
      (h : Host) (p : Prog A) (s : h.State) (d : Call)
      → (run h p s).outcome ≡ stopped_at d
      → (q : Prog A) × Replays p (run h p s).trace q
  unfolding run
  run-Replays h (ret a) s d e = cc
  run-Replays h (panic text) s d e = cc
  run-Replays h exhausted s d e = cc
  run-Replays h (call c k) s d e =
      absorb-Replays c d k (h.react s c) _ (λ a s' e'. run-Replays h (k a) s' d e') e

  -- After a crash the body can always be replayed from its record.
  pub Execution-Replays :
      (p : Prog A) (tr : List Event) (o : Outcome A) (d : Call)
      → Execution p tr o
      → o ≡ stopped_at d
      → (q : Prog A) × Replays p tr q
  Execution-Replays p tr o d (attempt h s) e = run-Replays h p s d e
  Execution-Replays p tr o d (recover {q} h s crashed r) e =
      let (left, r') = run-Replays h q s d e in (left, Replays-append r r')
