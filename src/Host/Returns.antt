-- ===== src/Host/Returns.antt =====
-- What a body may return, whatever its calls are answered; and a host whose children return that.
use cleat_ports.Base.{String, List, [], ◌∷◌, ◌==◌, if◌then◌else◌}
use cleat_ports.Host.Calls.{
  Call, Answer, Result, ok, err, child_workflow, child_workflow_with_options, await_child,
}
use cleat_ports.Host.Program.{Prog, ret, call}
use cleat_ports.Host.Run.{Outcome, returned, Event, event}
use cleat_ports.Host.Logic.{AtEveryRun, Ensures}

pub data Returns {A : Type 0} (x : A) : Prog A → Type 0 where
  here : Returns x (ret x)
  answered :
      {c : Call} {k : Answer c → Prog A} (a : Answer c) → Returns x (k a) → Returns x (call c k)

module _ {A : Type 0} where
  AtEveryRun-Returns :
      (x : A) (P : List Event → Outcome A → Type 0) (p : Prog A)
      → AtEveryRun P p
      → Returns x p
      → (tr : List Event) × P tr (returned x)
  AtEveryRun-Returns x P p e here = ([], e)
  AtEveryRun-Returns x P p e (answered {c} {k} a r) =
      let (tr, q) = AtEveryRun-Returns x (λ tr o. P (event c a ∷ tr) o) (k a) (e.1 a) r in
      (event c a ∷ tr, q)

  pub Returns-Ensures :
      (P : List Event → Outcome A → Type 0) (x : A) (p : Prog A)
      → Ensures P p
      → Returns x p
      → (tr : List Event) × P tr (returned x)
  Returns-Ensures P x p e r = AtEveryRun-Returns x P p e.at r

-- A child that a run has started: its run id, its definition and its input.
abbrev pub Started : Type 0
Started = List (String × String × String)

abbrev add_started : String → String → Result String → Started → Started
add_started def input (ok id) started = (id, def, input) ∷ started
add_started def input (err e) started = started

abbrev pub now_started : (c : Call) → Answer c → Started → Started
now_started (child_workflow def input) r started = add_started def input r started
now_started (child_workflow_with_options def input _) r started = add_started def input r started
now_started _ _ started = started

-- `Child def input text` says that a run of the definition with that input may return the text.
module _ (Child : String → String → String → Type 0) where
  abbrev IsResultOf : Started → String → String → Type 0
  IsResultOf [] id text = Unit
  IsResultOf (s ∷ started) id text =
      if s.0 == id then Child s.1 s.2 text else IsResultOf started id text

  abbrev IsHonest : Started → (c : Call) → Answer c → Type 0
  IsHonest started (await_child id) (ok text) = IsResultOf started id text
  IsHonest started _ _ = Unit

  -- Each await of a child that came back with a result came back with one that the child may return.
  abbrev pub HonestFrom : Started → List Event → Type 0
  HonestFrom started [] = Unit
  HonestFrom started (e ∷ es) =
      IsHonest started e.request e.answer × HonestFrom (now_started e.request e.answer started) es

  abbrev pub AreHonest : List Event → Type 0
  AreHonest = HonestFrom []
