-- ===== src/Service.antt =====
-- scripts/fixture-service.py: the service that the workflows' durable calls are forwarded to, which
-- counts and records them by key and can be told to fail or to hold them. Its handlers are functions of
-- the module's tables. Python's json.loads, int of a text and longest wait are parameters; a body is an
-- object of texts, integers and truth values.
pub mod State
pub mod Lookup
pub mod Threads
pub mod Forwarding
pub mod Bank
pub mod Retrying
pub mod Routes
pub mod Serial
pub mod Announcing
use Prim.Native.Char.{Char}
use Prim.Native.String as S
use cleat_ports.Base.{
  ℕ, suc, String, ◌++◌, Bool, true, false, not, List, [], ◌∷◌, Option, none, some, ◌==◌,
  if◌then◌else◌,
}
use cleat_ports.Base.Text.{join}
use cleat_ports.Base.Int.{ℤ, pos, leb_ℤ, is_zero}
use cleat_ports.Base.Json.{codes, Fields, Value, text, number, flag}
use cleat_ports.Base.Format.{decimal, show_int}
use cleat_ports.Service.State.{Tables, Key, named, key_of, get, add_one, recorded}

-- `json.loads` of a body that is an object, and `int` of a text, none where they raise; and whether
-- Condition.wait_for takes a timeout of that many milliseconds: it raises OverflowError for one that is
-- longer than threading.TIMEOUT_MAX.
pub record Python : Type 0 where
  pub loads : String → Option Fields
  pub int_of_text : List ℕ → Option ℤ
  pub can_wait : ℤ → Bool

pub data Item : Type 0 where
  value : Value → Item
  texts : List String → Item

-- What is handed to `json.dumps`.
abbrev pub Payload : Type 0
Payload = List (String × Item)

-- `self._send(code, payload)`, or an exception that leaves the request without an answer.
pub data Reply : Type 0 where
  sent : ℤ → Payload → Reply
  raised : Reply

abbrev pub said : String → Item
said s = value (text (codes s))

abbrev pub counted : ℕ → Item
counted n = value (number (pos n))

abbrev pub refusal : ℤ → String → Reply
refusal code what = sent code (("error", said what) ∷ [])

-- The handler's last answer: `{"ok": True, "key": key, "attempts": attempts, "operation": op}`.
abbrev pub success : Value → ℕ → String → Payload
success key attempts op =
    ("ok", value (flag true))
    ∷ ("key", value key)
    ∷ ("attempts", counted attempts)
    ∷ ("operation", said op)
    ∷ []

-- `path.startswith(prefix)`, and then `path[len(prefix):]`
abbrev pub after : String → String → Option String
after S.[] path = some path
after (S.◌∷◌ c prefix) S.[] = none
after (S.◌∷◌ c prefix) (S.◌∷◌ d path) =
    let rest = after prefix path in if S.◌∷◌ c "" == S.◌∷◌ d "" then rest else none

-- `s.split("/")`
abbrev extend : Char → List String → List String
extend c [] = S.◌∷◌ c "" ∷ []
extend c (p ∷ ps) = S.◌∷◌ c p ∷ ps

abbrev pub split_slashes : String → List String
split_slashes S.[] = "" ∷ []
split_slashes (S.◌∷◌ c s) =
    let rest = split_slashes s in if S.◌∷◌ c "" == "/" then "" ∷ rest else extend c rest

abbrev first_two : List String → List String
first_two (p ∷ q ∷ ps) = p ∷ q ∷ []
first_two ps = ps

-- "service/operation" -> "service.operation"
unfoldable pub operation_of : String → String
unfolding join
operation_of path = join (first_two (split_slashes path)) "."

-- Python's truth of `req.get(name)`.
abbrev pub truthy : Option Value → Bool
truthy none = false
truthy (some (text [])) = false
truthy (some (text (c ∷ cs))) = true
truthy (some (number n)) = not (is_zero n)
truthy (some (flag b)) = b

-- A held request: what it is answered with, and whether it can be waited for.
pub record Hold : Type 0 where
  pub payload : Payload
  pub waits : Bool

-- How it is answered when no release ends the wait: at the ceiling, or not at all, where the wait raises.
abbrev pub unreleased : Hold → Reply
unreleased p = if p.waits then sent (pos 200) p.payload else raised

-- What the handler does with a request: it answers, or it holds it.
pub data Arrival : Type 0 where
  replied : Reply → Arrival
  held : Key → Hold → Arrival

-- `raw or b"{}"`
abbrev pub body_of : String → String
body_of S.[] = "{}"
body_of raw = raw

module _ (py : Python) where
  abbrev int_of : Option Value → Option ℤ
  int_of none = none
  int_of (some (text t)) = py.int_of_text t
  int_of (some (number n)) = some n
  int_of (some (flag b)) = some (if b then pos 1 else pos 0)

  -- `int(req.get(name) or default)`
  abbrev pub int_or : String → ℤ → Fields → Option ℤ
  int_or name default req =
      if truthy (get (codes name) req) then int_of (get (codes name) req) else some default

  abbrev failed_with : Option ℤ → Value → ℤ → ℕ → Arrival
  failed_with none key fail_times attempts = replied raised
  failed_with (some code) key fail_times attempts = replied (
      sent code (
        ("error", said ("deliberate failure " ++ decimal attempts ++ " of " ++ show_int fail_times))
        ∷ ("key", value key)
        ∷ ("attempts", counted attempts)
        ∷ []))

  abbrev delayed_by : Option ℤ → Value → ℕ → String → Arrival
  delayed_by none key attempts op = replied raised
  delayed_by (some delay_ms) key attempts op =
      if is_zero delay_ms
      then replied (sent (pos 200) (success key attempts op))
      else held (key_of key)
          (record { payload = success key attempts op; waits = py.can_wait delay_ms })

  -- After the call is recorded, as the key's call of that number.
  abbrev pub answer_call : Fields → Value → ℤ → String → ℕ → Arrival
  answer_call req key fail_times op attempts =
      if truthy (get (codes "fail_permanently") req)
      then replied (
          sent (pos 400) (
            ("error", said "deliberate permanent failure")
            ∷ ("key", value key)
            ∷ ("operation", said op)
            ∷ []))
      else if leb_ℤ (pos attempts) fail_times
      then failed_with (int_or "fail_status" (pos 503) req) key fail_times attempts
      else delayed_by (int_or "delay_ms" (pos 0) req) key attempts op

  abbrev pub counted_call : Fields → String → Value → Option ℤ → Tables → Arrival × Tables
  counted_call req op key none t = (replied raised, t)
  counted_call req op key (some fail_times) t =
      (answer_call req key fail_times op (suc (t.counts (key_of key))), recorded (key_of key) op t)

  abbrev pub keyed_call : Fields → String → Option Value → Tables → Arrival × Tables
  keyed_call req op none t = (replied (refusal (pos 400) "key is required"), t)
  keyed_call req op (some key) t =
      if truthy (some key)
      then counted_call req op key (int_or "fail_times" (pos 0) req) t
      else (replied (refusal (pos 400) "key is required"), t)

  abbrev pub parsed_call : String → Option Fields → Tables → Arrival × Tables
  parsed_call op none t = (replied (refusal (pos 400) "invalid JSON body"), t)
  parsed_call op (some req) t = keyed_call req op (get (codes "key") req) t

  -- POST /call/<path>, with the body; an empty body is read as `{}`.
  unfoldable pub do_call : String → String → Tables → Arrival × Tables
  do_call path raw t = parsed_call (operation_of path) (py.loads (body_of raw)) t

-- POST /release/<key>
unfoldable pub do_release : String → Tables → Reply × Tables
do_release key t = (
  sent (pos 200) (("key", said key) ∷ ("released", counted (t.inflight (named (codes key)))) ∷ []),
  record t { released = add_one (named (codes key)) t.released },
)

-- The answers of the GET paths that name a key, in the order of the source's tests.
abbrev about_key : Option String → (String → Payload) → Reply → Reply
about_key none found other = other
about_key (some key) found other = sent (pos 200) (("key", said key) ∷ found key)

unfoldable pub do_get : String → Tables → Reply
do_get path t =
    if path == "/healthz"
    then sent (pos 200) (("ok", value (flag true)) ∷ [])
    else about_key (after "/calls/" path)
        (λ key. ("attempts", counted (t.counts (named (codes key)))) ∷ [])
        (about_key (after "/inflight/" path)
          (λ key. ("inflight", counted (t.inflight (named (codes key)))) ∷ [])
          (about_key (after "/peak/" path)
            (λ key.
              ("peak", counted (t.peak (named (codes key))))
              ∷ ("attempts", counted (t.counts (named (codes key))))
              ∷ [])
            (about_key (after "/log/" path)
              (λ key. ("calls", texts (t.log (named (codes key)))) ∷ [])
              (refusal (pos 404) "not found"))))
