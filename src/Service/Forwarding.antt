-- ===== src/Service/Forwarding.antt =====
-- What the workflows rely on of cleat's worker, as scripts/fixture-service.py documents it: a durable
-- call is forwarded to the service; a 200 is its result, a 4xx other than 408 and 429 an error at once,
-- and 408, 429 and 5xx are tried again as often as the call's policy says.
use cleat_ports.Base.{ℕ, zero, suc, ltb, leb, String, ◌++◌, ◌||◌, ◌&&◌, ◌≡◌, if◌then◌else◌}
use cleat_ports.Base.Int.{ℤ, pos, negsuc}
use cleat_ports.Base.Json.{same}
use cleat_ports.Host.Calls.{
  Error, Result, ok, err, RetryPolicy, durable_call, durable_call_with_options,
}
use cleat_ports.Host.Program.{Prog, call}
use cleat_ports.Host.Run.{Host, resume}
use cleat_ports.Host.Completion.{Completes, Completes-answered}
use cleat_ports.Service.{Python, Payload, Reply, sent, raised}
use cleat_ports.Service.State.{Tables}
use cleat_ports.Service.Threads.{serve_alone}

pub data Class : Type 0 where
  success permanent transient unclassified : Class

abbrev pub class_of : ℤ → Class
class_of (negsuc n) = unclassified
class_of (pos n) =
    if same n 200
    then success
    else if same n 408 || same n 429
    then transient
    else if leb 400 n && ltb n 500
    then permanent
    else if leb 500 n && ltb n 600
    then transient
    else unclassified

abbrev pub class_of_reply : Reply → Class
class_of_reply (sent code p) = class_of code
class_of_reply raised = unclassified

-- What a call is answered when the service's last answer was of that class.
abbrev pub IsClassAnswer : (Payload → String) → Class → Payload → Result String → Type 0
IsClassAnswer dumps success p a = a ≡ ok (dumps p)
IsClassAnswer dumps unclassified p a = Unit
IsClassAnswer dumps _ p a = (e : Error) × (a ≡ err e)

abbrev pub IsAnswer : (Payload → String) → Reply → Result String → Type 0
IsAnswer dumps (sent code p) a = IsClassAnswer dumps (class_of code) p a
IsAnswer dumps raised a = Unit

-- Whether no further attempt depends on the policy, and whether the class is documented.
abbrev pub IsDecided : Class → Type 0
IsDecided success = Unit
IsDecided permanent = Unit
IsDecided _ = ⊥

abbrev pub IsClassified : Class → Type 0
IsClassified unclassified = ⊥
IsClassified _ = Unit

abbrev pub again : Class → Reply × Tables → (Tables → Reply × Tables) → Reply × Tables
again transient r rest = rest r.1
again _ r rest = r

module _ (py : Python) where
  -- The first attempt, and at most so many more, each after a transient failure.
  unfoldable pub tries : ℕ → String → String → Tables → Reply × Tables
  tries zero path raw t = serve_alone py path raw t
  tries (suc n) path raw t =
      again (class_of_reply (serve_alone py path raw t).0) (serve_alone py path raw t)
        (tries n path raw)

  -- A host that forwards the durable calls of a run to a service that no one else calls meanwhile.
  -- `dumps` is `json.dumps`.
  pub record Forwarding (h : Host) : Type 0 where
    pub tables : h.State → Tables
    pub dumps : Payload → String
    pub forwards :
        (s : h.State) (service op raw : String)
        → IsDecided (class_of_reply (serve_alone py (service ++ "/" ++ op) raw (tables s)).0)
        → (a : Result String) × (s' : h.State) × (h.react s (durable_call service op raw)
            ≡ resume a s')
          × (tables s' ≡ (serve_alone py (service ++ "/" ++ op) raw (tables s)).1)
          × IsAnswer dumps (serve_alone py (service ++ "/" ++ op) raw (tables s)).0 a
    pub retries :
        (s : h.State) (policy : RetryPolicy) (more : ℕ) (service op raw : String)
        → policy.max_attempts ≡ pos (suc more)
        → IsClassified (class_of_reply (tries more (service ++ "/" ++ op) raw (tables s)).0)
        → (a : Result String) × (s' : h.State) × (h.react s
              (durable_call_with_options policy service op raw)
            ≡ resume a s')
          × (tables s' ≡ (tries more (service ++ "/" ++ op) raw (tables s)).1)
          × IsAnswer dumps (tries more (service ++ "/" ++ op) raw (tables s)).0 a

module _ (py : Python) (h : Host) (to : Forwarding py h) {A : Type 0}
    {P : A → h.State → Type 0} where
  -- A call with a policy of retries, and the service's last answer.
  pub Completes-retried :
      (policy : RetryPolicy) (more : ℕ) (service op raw : String) (code : ℤ) (p : Payload)
      (k : Result String → Prog A) (s : h.State)
      → policy.max_attempts ≡ pos (suc more)
      → (tries py more (service ++ "/" ++ op) raw (to.tables s)).0 ≡ sent code p
      → IsClassified (class_of code)
      → ((a : Result String) (s' : h.State)
          → IsClassAnswer to.dumps (class_of code) p a
          → to.tables s' ≡ (tries py more (service ++ "/" ++ op) raw (to.tables s)).1
          → Completes h P (k a) s')
      → Completes h P (call (durable_call_with_options policy service op raw) k) s
  Completes-retried policy more service op raw code p k s most reply classified rest =
      let (a, s', answered, kept, is) =
        to.retries s policy more service op raw most (rw (reply) classified) in
      Completes-answered a s' answered (rest a s' ((rw (reply) at is)) kept)
