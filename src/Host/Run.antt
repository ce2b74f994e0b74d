-- ===== src/Host/Run.antt =====
-- A run of a program against a host. The host is any machine that answers calls; at any call it may
-- also stop the run for good, as a termination, a crash or a continue-as-new does.
use cleat_ports.Base.{String, List, [], ◌∷◌}
use cleat_ports.Host.Calls.{Call, Answer}
use cleat_ports.Host.Program.{Prog, ret, panic, exhausted, call}

pub data Reaction (A S : Type 0) : Type 0 where
  resume : A → S → Reaction A S
  stop : S → Reaction A S

pub record Host : Type 1 where
  pub State : Type 0
  pub react : State → (c : Call) → Reaction (Answer c) State

pub data Outcome {ℓ} (A : Type ℓ) : Type ℓ where
  returned : A → Outcome A
  panicked : String → Outcome A
  out_of_fuel : Outcome A
  stopped_at : Call → Outcome A

-- A call that was answered.
pub record Event : Type 0 where
  pub request : Call
  pub answer : Answer request

pub record Run (S A : Type 0) : Type 0 where
  pub outcome : Outcome A
  pub trace : List Event
  pub final : S

abbrev pub event : (c : Call) → Answer c → Event
event c a = record { request = c; answer = a }

module _ {S A : Type 0} (c : Call) where
  -- The run after a call: it goes on from the answer, or it has stopped.
  abbrev pub absorb : Reaction (Answer c) S → (Answer c → S → Run S A) → Run S A
  absorb (resume a s) rest = record (rest a s) { trace = event c a ∷ (rest a s).trace }
  absorb (stop s) rest = record { outcome = stopped_at c; trace = []; final = s }

module _ (h : Host) {A : Type 0} where
  unfoldable pub run : Prog A → h.State → Run h.State A
  run (ret a) s = record { outcome = returned a; trace = []; final = s }
  run (panic text) s = record { outcome = panicked text; trace = []; final = s }
  run exhausted s = record { outcome = out_of_fuel; trace = []; final = s }
  run (call c k) s = absorb c (h.react s c) (λ a s'. run (k a) s')
