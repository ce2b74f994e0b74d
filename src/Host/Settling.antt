-- ===== src/Host/Settling.antt =====
-- A host whose promises are settled by the children that a run has started, and by nobody else.
use cleat_ports.Base.{String, true, false, Bool, List, [], ◌∷◌, ◌⊎◌}
use cleat_ports.Host.Calls.{Call, Answer, ok, await_promise_ms}
use cleat_ports.Host.Program.{Prog, call}
use cleat_ports.Host.Run.{Outcome, stopped_at, Event, event}
use cleat_ports.Host.Logic.{AtEveryRun, Ensures}
use cleat_ports.Host.Returns.{Started, now_started}

-- A run of the body may make the call.
pub data Makes {A : Type 0} (d : Call) : Prog A → Type 0 where
  made : {k : Answer d → Prog A} → Makes d (call d k)
  made_later :
      {c : Call} {k : Answer c → Prog A} (a : Answer c) → Makes d (k a) → Makes d (call c k)

module _ {A : Type 0} where
  AtEveryRun-Makes :
      (d : Call) (P : List Event → Outcome A → Type 0) (p : Prog A)
      → AtEveryRun P p
      → Makes d p
      → (tr : List Event) × P tr (stopped_at d)
  AtEveryRun-Makes d P p e made = ([], e.0)
  AtEveryRun-Makes d P p e (made_later {c} {k} a m) =
      let (tr, q) = AtEveryRun-Makes d (λ tr o. P (event c a ∷ tr) o) (k a) (e.1 a) m in
      (event c a ∷ tr, q)

  pub Makes-Ensures :
      (P : List Event → Outcome A → Type 0) (d : Call) (p : Prog A)
      → Ensures P p
      → Makes d p
      → (tr : List Event) × P tr (stopped_at d)
  Makes-Ensures P d p e m = AtEveryRun-Makes d P p e.at m

-- `Settles def input id value` says that a run of the definition with that input may resolve the promise
-- with the value.
module _ (Settles : String → String → String → String → Type 0) where
  abbrev pub IsSettled : Started → String → String → Type 0
  IsSettled [] id value = ⊥
  IsSettled (s ∷ started) id value = Settles s.1 s.2 id value ⊎ IsSettled started id value

  abbrev IsValue : Started → String → String → Bool → Type 0
  IsValue started id value true = Unit
  IsValue started id value false = IsSettled started id value

  abbrev IsFair : Started → (c : Call) → Answer c → Type 0
  IsFair started (await_promise_ms id _) (ok answer) = IsValue started id answer.0 answer.1
  IsFair started _ _ = Unit

  -- Each await that came back with a settled promise came back with a value that one of the children
  -- may resolve it with.
  abbrev SettledFrom : Started → List Event → Type 0
  SettledFrom started [] = Unit
  SettledFrom started (e ∷ es) =
      IsFair started e.request e.answer × SettledFrom (now_started e.request e.answer started) es

  abbrev pub SettledByChildren : List Event → Type 0
  SettledByChildren = SettledFrom []
