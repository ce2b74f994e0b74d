-- ===== src/Service/Bank.antt =====
-- scripts/fixture-service.py behind ports/samples-go/workflows/saga/main.go: what the service's log of
-- the key shows after a transfer.
pub mod Transfer
use mathlib.Core.List as L
use mathlib.Core.List.{append_assoc}
use cleat_ports.Base.{
  ℕ, suc, String, ◌++◌, Bool, true, false, not, List, [], ◌∷◌, Option, none, some, ◌==◌, ◌≡◌, ◌≢◌,
  refl, ap, append, if◌then◌else◌, Bool-cases, inl, inr, ◌||◌, sym, ◌∙◌, arith, replicate,
}
use cleat_ports.Base.Int.{ℤ, pos, leb_ℤ}
use cleat_ports.Base.Json.{codes, Fields, Value, text, flag, read_object}
use cleat_ports.Base.Format.{Unicode}
use cleat_ports.Base.Format.Escapes.{json_safe}
use cleat_ports.Base.Format.Json.{quote-read, json}
use cleat_ports.Base.Text.{contains}
use cleat_ports.Host.Calls.{Error, Result, ok, err, durable_call}
use cleat_ports.Host.Program.{Prog, call}
use cleat_ports.Host.Run.{Host}
use cleat_ports.Host.Completion.{Completes, Completes-ret, Completes-answered, Completes-check}
use cleat_ports.Samples.Saga.{handle_saga_transfer, bank_req, fixture_request}
use cleat_ports.Samples.Saga.Order.{is_ok}
use cleat_ports.Samples.Saga.Runner.{SagaRunner, attempt}
use cleat_ports.Service.{Python, Reply, sent, said, value, success, answer_call, operation_of}
use cleat_ports.Service.State.{Key, Tables, named, same_key_refl, recorded}
use cleat_ports.Service.Threads.{serve_alone, finish}
use cleat_ports.Service.Forwarding.{Forwarding}
use cleat_ports.Service.Lookup.{ReadsJson, serve_alone-key}

-- The operations that the service sees of a transfer, by the operation that it is told to fail.
abbrev pub bank_log : String → List String
bank_log fail_at =
    if "Withdraw" == fail_at
    then "banking.Withdraw" ∷ []
    else if "Deposit" == fail_at
    then "banking.Withdraw" ∷ "banking.Deposit" ∷ "banking.WithdrawCompensation" ∷ []
    else if "Notify" == fail_at
    then "banking.Withdraw" ∷ "banking.Deposit" ∷ "banking.Notify" ∷ "banking.DepositCompensation"
      ∷ "banking.WithdrawCompensation" ∷ []
    else "banking.Withdraw" ∷ "banking.Deposit" ∷ "banking.Notify" ∷ []

pub above_zero : (n : ℕ) → leb_ℤ (pos (suc n)) (pos 0) ≡ false
above_zero n = ground arith

module _ ⦃u : Unicode⦄ where
  bank_req-read :
      (key op fail_op : String)
      → json_safe key ≡ true
      → read_object (bank_req key op fail_op)
        ≡ some (
            (codes "key", text (codes key)) ∷ (codes "fail_permanently", flag (op == fail_op)) ∷ [])
  unfolding bank_req fixture_request read_object
  bank_req-read key op fail_op e = simp (json, quote-read, e)

module _ ⦃u : Unicode⦄ (py : Python) (reads : ReadsJson py) (key : String)
    (safe : json_safe key ≡ true) (some_key : key ≢ "") where
  abbrev pub account : Key
  account = named (codes key)

  -- What the service answers an operation, by whether it is the one that is to fail.
  bank_reply : Bool → String → ℕ → Reply
  bank_reply true op attempts = sent (pos 400) (
      ("error", said "deliberate permanent failure")
      ∷ ("key", value (text (codes key)))
      ∷ ("operation", said op)
      ∷ [])
  bank_reply false op attempts = sent (pos 200) (success (text (codes key)) attempts op)

  bank_served_by :
      (op fail_op : String) (t : Tables)
      → serve_alone py ("banking" ++ "/" ++ op) (bank_req key op fail_op) t ≡ (
          finish py
            (answer_call py
              ((codes "key", text (codes key))
                ∷ (codes "fail_permanently", flag (op == fail_op))
                ∷ [])
              (text (codes key))
              (pos 0)
              (operation_of ("banking" ++ "/" ++ op))
              (suc (t.counts account)))
            (recorded account (operation_of ("banking" ++ "/" ++ op)) t))
  bank_served_by op fail_op t =
      serve_alone-key py reads ("banking" ++ "/" ++ op) (bank_req key op fail_op) key t _ (pos 0)
        (bank_req-read key op fail_op safe) refl some_key refl

  bank_served :
      (op fail_op : String) (t : Tables) (b : Bool)
      → (op == fail_op) ≡ b
      → serve_alone py ("banking" ++ "/" ++ op) (bank_req key op fail_op) t ≡ (
        bank_reply b (operation_of ("banking" ++ "/" ++ op)) (suc (t.counts account)),
        recorded account (operation_of ("banking" ++ "/" ++ op)) t,
      )
  unfolding bank_reply
  bank_served op fail_op t true e = rw (bank_served_by op fail_op t) (rw (e) refl)
  bank_served op fail_op t false e =
      rw (bank_served_by op fail_op t) (rw (e, above_zero (t.counts account)) refl)

  module _ (h : Host) (to : Forwarding py h) (base : List String) where
    -- The log of the key has grown by these operations.
    abbrev pub IsLog : h.State → List String → Type 0
    IsLog s ops = (to.tables s).log account ≡ L.◌++◌ base ops

    logged_after :
        (op fail_op name : String) (s s' : h.State) (ops : List String) (b : Bool)
        → operation_of ("banking" ++ "/" ++ op) ≡ name
        → IsLog s ops
        → (op == fail_op) ≡ b
        → to.tables s'
          ≡ (serve_alone py ("banking" ++ "/" ++ op) (bank_req key op fail_op) (to.tables s)).1
        → IsLog s' (append ops name)
    unfolding append
    logged_after op fail_op name s s' ops b spelled logged e kept =
        rw (kept, bank_served op fail_op (to.tables s) b e, same_key_refl account, spelled, logged)
          (append_assoc base ops (name ∷ []))

    -- The call of an operation that is not to fail is answered with a result, and logged.
    pub works :
        {A : Type 0} {P : A → h.State → Type 0} (op fail_op name : String)
        (k : Result String → Prog A) (s : h.State) (ops : List String)
        → operation_of ("banking" ++ "/" ++ op) ≡ name
        → IsLog s ops
        → (op == fail_op) ≡ false
        → ((text : String) (s' : h.State)
            → IsLog s' (append ops name)
            → Completes h P (k (ok text)) s')
        → Completes h P (call (durable_call "banking" op (bank_req key op fail_op)) k) s
    unfolding bank_reply
    works op fail_op name k s ops spelled logged e rest =
        let served = bank_served op fail_op (to.tables s) false e in
        let (a, s', answered, kept, is) =
          to.forwards s "banking" op (bank_req key op fail_op) (rw (served) tt) in
        let is_ok = (rw (served) at is) in
        Completes-answered a s' answered (
          rw (is_ok)
            (rest _ s' (logged_after op fail_op name s s' ops false spelled logged e kept)))

    -- The call of the operation that is to fail is answered with an error, and logged too.
    pub fails :
        {A : Type 0} {P : A → h.State → Type 0} (op fail_op name : String)
        (k : Result String → Prog A) (s : h.State) (ops : List String)
        → operation_of ("banking" ++ "/" ++ op) ≡ name
        → IsLog s ops
        → (op == fail_op) ≡ true
        → ((e : Error) (s' : h.State) → IsLog s' (append ops name) → Completes h P (k (err e)) s')
        → Completes h P (call (durable_call "banking" op (bank_req key op fail_op)) k) s
    unfolding bank_reply
    fails op fail_op name k s ops spelled logged e rest =
        let served = bank_served op fail_op (to.tables s) true e in
        let (a, s', answered, kept, is) =
          to.forwards s "banking" op (bank_req key op fail_op) (rw (served) tt) in
        let (failure, is_err) = (rw (served) at is) in
        Completes-answered a s' answered (
          rw (is_err)
            (rest failure s' (logged_after op fail_op name s s' ops true spelled logged e kept)))

    -- A compensation, whatever it is answered.
    pub ends :
        {A : Type 0} {P : A → h.State → Type 0} (op fail_op name : String)
        (k : Result String → Prog A) (s : h.State) (ops : List String)
        → operation_of ("banking" ++ "/" ++ op) ≡ name
        → IsLog s ops
        → ((a : Result String) (s' : h.State) → IsLog s' (append ops name) → Completes h P (k a) s')
        → Completes h P (call (durable_call "banking" op (bank_req key op fail_op)) k) s
    ends op fail_op name k s ops spelled logged rest = elim (Bool-cases (op == fail_op)) [
      | inl e ↦ fails op fail_op name k s ops spelled logged e λ f s' l. rest (err f) s' l
      | inr e ↦ works op fail_op name k s ops spelled logged e λ text s' l. rest (ok text) s' l
    ]
