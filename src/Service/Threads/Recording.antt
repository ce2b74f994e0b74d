-- ===== src/Service/Threads/Recording.antt =====
-- What the log of scripts/fixture-service.py holds after any interleaving of requests: the calls that
-- were recorded, in the order of the turns at which they were.
use cleat_ports.Base.{
  String, List, [], Option, none, some, append, ◌≡◌, refl, inl, inr, if◌then◌else◌, Bool-cases, sym,
}
use cleat_ports.Base.Int.{ℤ, pos}
use cleat_ports.Base.Json.{Fields, Value, codes}
use cleat_ports.Service.{
  Python, do_call, parsed_call, keyed_call, counted_call, truthy, operation_of, body_of, int_or,
}
use cleat_ports.Service.State.{Tables, Key, get, key_of, same_key, recorded, empty_tables}
use cleat_ports.Service.Threads.{
  Thread, Acts, records, reads_epoch, enters, wakes, times_out, leaves, asks, releases, Turn, this,
  other, new_call, new_release, Turns, none_yet, then_turn,
}
use cleat_ports.Service.Threads.Occupancy.{same_key-true}

-- A call that was recorded, after the calls of the key `j`.
abbrev pub call_under : Key → Option (Key × String) → List String → List String
call_under j none calls = calls
call_under j (some call) calls = if same_key j call.0 then append calls call.1 else calls

module _ (py : Python) where
  -- The key and the operation of a request that counts as a call: its body is an object with a key that
  -- is not empty, and with a number of failures, if any, that int() reads.
  abbrev with_failures : String → Value → Option ℤ → Option (Key × String)
  with_failures op key none = none
  with_failures op key (some fail_times) = some (key_of key, op)

  abbrev with_key : String → Fields → Option Value → Option (Key × String)
  with_key op req none = none
  with_key op req (some key) =
      if truthy (some key) then with_failures op key (int_or py "fail_times" (pos 0) req) else none

  abbrev with_body : String → Option Fields → Option (Key × String)
  with_body op none = none
  with_body op (some req) = with_key op req (get (codes "key") req)

  abbrev pub call_of : String → String → Option (Key × String)
  call_of path raw = with_body (operation_of path) (py.loads (body_of raw))

  -- The call that a step records, if it does.
  abbrev pub call_at_step :
      {t t' : Tables} {th th' : Thread} → Acts py t th t' th' → Option (Key × String)
  call_at_step (records path raw) = call_of path raw
  call_at_step _ = none

  abbrev pub call_at_turn :
      {t t' : Tables} {ths ths' : List Thread} → Turn py t ths t' ths' → Option (Key × String)
  call_at_turn (this act) = call_at_step act
  call_at_turn (other turn) = call_at_turn turn
  call_at_turn _ = none

  -- The operations of the key's calls, in the order of the turns at which they were recorded.
  abbrev pub calls_in_order :
      {t : Tables} {ths : List Thread} {past : List (List Thread)} {t' : Tables}
      {ths' : List Thread}
      → Key
      → Turns py t ths past t' ths'
      → List String
  calls_in_order j none_yet = []
  calls_in_order j (then_turn turns turn) =
      call_under j (call_at_turn turn) (calls_in_order j turns)

  -- The tables after a call was recorded, or none was.
  abbrev with_call : Option (Key × String) → Tables → Tables
  with_call none t = t
  with_call (some call) t = recorded call.0 call.1 t

  counted_call-with_call :
      (req : Fields) (op : String) (key : Value) (n : Option ℤ) (t : Tables)
      → (counted_call py req op key n t).1 ≡ with_call (with_failures op key n) t
  counted_call-with_call req op key none t = refl
  counted_call-with_call req op key (some n) t = refl

  keyed_call-with_call :
      (req : Fields) (op : String) (v : Option Value) (t : Tables)
      → (keyed_call py req op v t).1 ≡ with_call (with_key op req v) t
  keyed_call-with_call req op none t = refl
  keyed_call-with_call req op (some key) t = elim (Bool-cases (truthy (some key))) [
    | inl e ↦ rw (e) (counted_call-with_call req op key _ t)
    | inr e ↦ rw (e) refl
  ]

  parsed_call-with_call :
      (op : String) (req : Option Fields) (t : Tables)
      → (parsed_call py op req t).1 ≡ with_call (with_body op req) t
  parsed_call-with_call op none t = refl
  parsed_call-with_call op (some req) t = keyed_call-with_call req op (get (codes "key") req) t

  do_call-with_call :
      (path raw : String) (t : Tables) → (do_call py path raw t).1 ≡ with_call (call_of path raw) t
  unfolding do_call
  do_call-with_call path raw t =
      parsed_call-with_call (operation_of path) (py.loads (body_of raw)) t

  log-with_call :
      (j : Key) (call : Option (Key × String)) (t : Tables)
      → (with_call call t).log j ≡ call_under j call (t.log j)
  log-with_call j none t = refl
  log-with_call j (some (k, op)) t = elim (Bool-cases (same_key j k)) [
    | inl e ↦ let there = same_key-true j k e in rw (e, sym there) refl
    | inr e ↦ rw (e) refl
  ]

  log-Acts :
      (j : Key) (t t' : Tables) (th th' : Thread) (act : Acts py t th t' th')
      → t'.log j ≡ call_under j (call_at_step act) (t.log j)
  log-Acts j t t' th th' (records path raw) =
      rw (do_call-with_call path raw t) (log-with_call j (call_of path raw) t)
  log-Acts j t t' th th' (reads_epoch k p) = refl
  log-Acts j t t' th th' (enters k seen p) = refl
  log-Acts j t t' th th' (wakes k seen p newer) = refl
  log-Acts j t t' th th' (times_out k seen p) = refl
  log-Acts j t t' th th' (leaves k p) = refl
  log-Acts j t t' th th' (asks key) = refl
  log-Acts j t t' th th' (releases key n) = refl

  log-Turn :
      (j : Key) (t t' : Tables) (ths ths' : List Thread) (turn : Turn py t ths t' ths')
      → t'.log j ≡ call_under j (call_at_turn turn) (t.log j)
  log-Turn j t t' ths ths' (this {th} {th'} act) = log-Acts j t t' th th' act
  log-Turn j t t' ths ths' (other {ths = rest} {ths' = rest'} turn) =
      log-Turn j t t' rest rest' turn
  log-Turn j t t' ths ths' (new_call path raw) = refl
  log-Turn j t t' ths ths' (new_release key) = refl

  -- From the start of the service on, the log of a key is its recorded calls in their order.
  pub log-calls_in_order :
      (j : Key) (past : List (List Thread)) (t : Tables) (ths : List Thread)
      (turns : Turns py empty_tables [] past t ths)
      → t.log j ≡ calls_in_order j turns
  log-calls_in_order j past t ths none_yet = refl
  log-calls_in_order j past t ths (then_turn {past = before} {t' = t₁} {ths' = ths₁} turns turn) =
      rw (log-Turn j t₁ t ths₁ ths turn, log-calls_in_order j before t₁ ths₁ turns) refl
