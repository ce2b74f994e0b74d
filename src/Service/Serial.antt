-- ===== src/Service/Serial.antt =====
-- ports/dbos-transact-py/workflows/parallelunit/main.go against scripts/fixture-service.py: runs that an
-- engine takes one after another.
use cleat_ports.Base.{
  ℕ, zero, suc, ◌+◌, ◌≤◌, ◌<◌, ltb, String, ◌++◌, true, false, [], ◌∷◌, some, ◌≡◌, ◌≢◌, refl,
  if◌then◌else◌, arith, ap, ◌∙◌,
}
use cleat_ports.Base.Int.{ℤ, pos, is_zero}
use cleat_ports.Base.Json.{codes, text, number, read_object}
use cleat_ports.Base.Format.{Unicode, quote, show_int}
use cleat_ports.Base.Format.Escapes.{json_safe}
use cleat_ports.Base.Format.Json.{quote-read, json}
use cleat_ports.Host.Program.{check}
use cleat_ports.Host.Run.{Host, run}
use cleat_ports.Host.Completion.{Completes, Completes-ret, Completes-answered}
use cleat_ports.Dbos.Calls.{handle_parallel_unit}
use cleat_ports.Service.{Python, sent, success, operation_of}
use cleat_ports.Service.State.{Tables, Key, named, recorded, entered, left, same_key_refl}
use cleat_ports.Service.Threads.{serve_alone}
use cleat_ports.Service.Lookup.{ReadsJson, serve_alone-key}
use cleat_ports.Service.Forwarding.{Forwarding}
use cleat_ports.Service.Bank.{above_zero}
use cleat_ports.Service.Retrying.{zero_or}

module _ ⦃u : Unicode⦄ where
  -- The request of HandleParallelUnit.
  unfoldable unit_request : String → ℤ → String
  unit_request key delay_ms =
      "{\"key\":" ++ quote key ++ ",\"delay_ms\":" ++ show_int delay_ms ++ "}"

  unit_request-read :
      (key : String) (delay_ms : ℤ)
      → json_safe key ≡ true
      → read_object (unit_request key delay_ms)
        ≡ some ((codes "key", text (codes key)) ∷ (codes "delay_ms", number delay_ms) ∷ [])
  unfolding unit_request read_object
  unit_request-read key delay_ms e = simp (json, quote-read, e)

-- A held call that no other meets.
abbrev held_alone : Key → String → Tables → Tables
held_alone k op t = left k (entered k (recorded k op t))

module _ ⦃u : Unicode⦄ (py : Python) (reads : ReadsJson py) (h : Host) (to : Forwarding py h)
    (key : String) (delay_ms : ℤ) (safe : json_safe key ≡ true) (some_key : key ≢ "")
    (held : is_zero delay_ms ≡ false) (waits : py.can_wait delay_ms ≡ true) where
  abbrev account : Key
  account = named (codes key)

  unit_served :
      (t : Tables)
      → serve_alone py ("par" ++ "/" ++ "unit") (unit_request key delay_ms) t ≡ (
        sent (pos 200) (success (text (codes key)) (suc (t.counts account)) "par.unit"),
        held_alone account "par.unit" t,
      )
  unfolding operation_of
  unit_served t =
      rw
        (
          serve_alone-key py reads ("par" ++ "/" ++ "unit") (unit_request key delay_ms) key t _
              (pos 0) (unit_request-read key delay_ms safe) refl some_key refl,
          above_zero (t.counts account),
          zero_or delay_ms,
          held,
          waits,
        )
        refl

  unit_run :
      (s : h.State)
      → Completes h
          (λ result s'. to.tables s' ≡ held_alone account "par.unit" (to.tables s))
          (handle_parallel_unit key delay_ms)
          s
  unfolding handle_parallel_unit check unit_request
  unit_run s =
      let served = unit_served (to.tables s) in
      let (a, s', answered, kept, is) =
        to.forwards s "par" "unit" (unit_request key delay_ms) (rw (served) tt) in
      Completes-answered a s' answered
        (rw ((rw (served) at is)) (Completes-ret _ (kept ∙ ap (λ r. r.1) served)))

  held_alone-Counts :
      (t : Tables)
      → t.inflight account ≡ 0
      → t.peak account ≤ 1
      → ((held_alone account "par.unit" t).inflight account ≡ 0)
        × ((held_alone account "par.unit" t).peak account ≡ 1)
        × ((held_alone account "par.unit" t).counts account ≡ suc (t.counts account))
  held_alone-Counts t idle low = rw (same_key_refl account, idle) (refl, ground arith, refl)

-- `n` runs, each started when the one before it has ended.
module _ ⦃u : Unicode⦄ (h : Host) (key : String) (delay_ms : ℤ) where
  unfoldable pub one_by_one : ℕ → h.State → h.State
  one_by_one zero s = s
  one_by_one (suc n) s = one_by_one n (run h (handle_parallel_unit key delay_ms) s).final

at_one : (n p q : ℕ) → q ≡ 1 → (if ltb 0 n then 1 else q) ≡ (if ltb 0 (suc n) then 1 else p)
at_one n p q e = ground arith

module _ ⦃u : Unicode⦄ where
  one_by_one-Counts :
      (py : Python) (reads : ReadsJson py) (h : Host) (to : Forwarding py h) (key : String)
      (delay_ms : ℤ) (safe : json_safe key ≡ true) (some_key : key ≢ "")
      (held : is_zero delay_ms ≡ false) (waits : py.can_wait delay_ms ≡ true) (n : ℕ) (s : h.State)
      → (to.tables s).inflight (named (codes key)) ≡ 0
      → (to.tables s).peak (named (codes key)) ≤ 1
      → ((to.tables (one_by_one h key delay_ms n s)).inflight (named (codes key)) ≡ 0)
        × ((to.tables (one_by_one h key delay_ms n s)).peak (named (codes key))
            ≡ (if ltb 0 n then 1 else (to.tables s).peak (named (codes key))))
        × ((to.tables (one_by_one h key delay_ms n s)).counts (named (codes key))
            ≡ (to.tables s).counts (named (codes key)) + n)
  unfolding one_by_one
  one_by_one-Counts py reads h to key delay_ms safe some_key held waits zero s idle low =
      (idle, refl, omega arith)
  one_by_one-Counts py reads h to key delay_ms safe some_key held waits (suc n) s idle low =
      let c = unit_run py reads h to key delay_ms safe some_key held waits s in
      let s₁ = (run h (handle_parallel_unit key delay_ms) s).final in
      let after = c.leaves in
      let (idle', once, count) =
        held_alone-Counts py reads h to key delay_ms safe some_key held waits (to.tables s) idle
          low in
      let now_idle = ap (λ t. t.inflight (named (codes key))) after ∙ idle' in
      let now_one = ap (λ t. t.peak (named (codes key))) after ∙ once in
      let now_counted = ap (λ t. t.counts (named (codes key))) after ∙ count in
      let (idle'', peak, counts) =
        one_by_one-Counts py reads h to key delay_ms safe some_key held waits n s₁ now_idle
          (omega (arith, now_one)) in
      (idle'', peak ∙ at_one n _ _ now_one, omega (arith, counts, now_counted))

  -- With a worker that forwards the calls to the fixture service, a key that is not empty and that %q
  -- writes as JSON, and a delay that is not 0 and that Condition.wait_for takes as a timeout: when runs
  -- of HandleParallelUnit for a key that has never been in flight twice at once are taken one after
  -- another, at least one of them, then the peak that the service reports is 1, none is in flight, and
  -- the count has grown by the number of runs.
  pub serial_peak_one :
      (py : Python) (reads : ReadsJson py) (h : Host) (to : Forwarding py h) (key : String)
      (delay_ms : ℤ) (n : ℕ) (s : h.State)
      → json_safe key ≡ true
      → key ≢ ""
      → is_zero delay_ms ≡ false
      → py.can_wait delay_ms ≡ true
      → 0 < n
      → (to.tables s).inflight (named (codes key)) ≡ 0
      → (to.tables s).peak (named (codes key)) ≤ 1
      → ((to.tables (one_by_one h key delay_ms n s)).peak (named (codes key)) ≡ 1)
        × ((to.tables (one_by_one h key delay_ms n s)).inflight (named (codes key)) ≡ 0)
        × ((to.tables (one_by_one h key delay_ms n s)).counts (named (codes key))
            ≡ (to.tables s).counts (named (codes key)) + n)
  serial_peak_one py reads h to key delay_ms n s safe some_key held waits some_runs idle low =
      let (idle', peak, counts) =
        one_by_one-Counts py reads h to key delay_ms safe some_key held waits n s idle low in
      let more : ltb 0 n ≡ true = ground arith in (peak ∙ rw (more) refl, idle', counts)
