-- ===== src/Service/Bank/Transfer.antt =====
-- The transfer of ports/samples-go/workflows/saga/main.go against scripts/fixture-service.py.
use mathlib.Core.List as L
use mathlib.Core.List.{append-nil}
use cleat_ports.Base.{
  String, true, not, List, [], ◌∷◌, ◌==◌, ◌≡◌, ◌≢◌, refl, append, Bool-cases, inl, inr, sym,
}
use cleat_ports.Base.Text.{contains}
use cleat_ports.Base.Json.{codes}
use cleat_ports.Base.Format.{Unicode}
use cleat_ports.Base.Format.Escapes.{json_safe}
use cleat_ports.Host.Calls.{Result}
use cleat_ports.Host.Program.{check}
use cleat_ports.Host.Run.{Host, returned, run}
use cleat_ports.Host.Completion.{Completes, Completes-ret}
use cleat_ports.Samples.Saga.{handle_saga_transfer}
use cleat_ports.Samples.Saga.Order.{is_ok}
use cleat_ports.Samples.Saga.Runner.{SagaRunner, attempt}
use cleat_ports.Service.{Python, operation_of}
use cleat_ports.Service.State.{named}
use cleat_ports.Service.Forwarding.{Forwarding}
use cleat_ports.Service.Lookup.{ReadsJson}
use cleat_ports.Service.Bank.{bank_log, works, fails, ends}

module _ ⦃u : Unicode⦄ (py : Python) (reads : ReadsJson py) (h : Host) (to : Forwarding py h)
    (r : SagaRunner) (key fail_at fail_compensation_at : String) (safe : json_safe key ≡ true)
    (some_key : key ≢ "") (s : h.State) where
  abbrev base : List String
  base = (to.tables s).log (named (codes key))

  Logged : Result String → h.State → Type 0
  Logged result s' =
      ((to.tables s').log (named (codes key)) ≡ L.◌++◌ base (bank_log fail_at))
      × (is_ok result ≡ not (contains ("Withdraw" ∷ "Deposit" ∷ "Notify" ∷ []) fail_at))

  transfer-Logged :
      Completes h Logged (handle_saga_transfer r.run_saga key fail_at fail_compensation_at) s
  unfolding Logged handle_saga_transfer contains operation_of attempt append check
  transfer-Logged =
      let fresh = sym (append-nil base) in
      rw (r.run_saga-start, r.going-step)
        (elim (Bool-cases ("Withdraw" == fail_at)) [
          | inl e ↦
              fails py reads key safe some_key h to base "Withdraw" fail_at "banking.Withdraw" _ s
                [] refl fresh e λ f s₁ l₁. rw (r.undoing-end) (Completes-ret _ (rw (e) (l₁, refl)))
          | inr e ↦
              works py reads key safe some_key h to base "Withdraw" fail_at "banking.Withdraw" _ s
                [] refl fresh e
                λ text s₁ l₁. rw (r.going-step) (elim (Bool-cases ("Deposit" == fail_at)) [
                  | inl e₁ ↦
                      fails py reads key safe some_key h to base "Deposit" fail_at "banking.Deposit"
                        _ s₁ _ refl l₁ e₁
                        λ f s₂ l₂. rw (r.undoing-step) (
                          ends py reads key safe some_key h to base "WithdrawCompensation"
                            fail_compensation_at "banking.WithdrawCompensation" _ s₂ _ refl l₂
                            λ a s₃ l₃. rw (r.undoing-end) (Completes-ret _ (rw (e, e₁) (l₃, refl))))
                  | inr e₁ ↦
                      works py reads key safe some_key h to base "Deposit" fail_at "banking.Deposit"
                        _ s₁ _ refl l₁ e₁
                        λ text' s₂ l₂. rw (r.going-step) (elim (Bool-cases ("Notify" == fail_at)) [
                          | inl e₂ ↦
                              fails py reads key safe some_key h to base "Notify" fail_at
                                "banking.Notify" _ s₂ _ refl l₂ e₂
                                λ f s₃ l₃. rw (r.undoing-step) (
                                  ends py reads key safe some_key h to base "DepositCompensation"
                                    fail_compensation_at "banking.DepositCompensation" _ s₃ _ refl
                                    l₃
                                    λ a s₄ l₄. rw (r.undoing-step) (
                                      ends py reads key safe some_key h to base
                                        "WithdrawCompensation" fail_compensation_at
                                        "banking.WithdrawCompensation" _ s₄ _ refl l₄
                                        λ a' s₅ l₅.
                                          rw (r.undoing-end)
                                            (Completes-ret _ (rw (e, e₁, e₂) (l₅, refl)))))
                          | inr e₂ ↦
                              works py reads key safe some_key h to base "Notify" fail_at
                                "banking.Notify" _ s₂ _ refl l₂ e₂
                                λ text'' s₃ l₃.
                                  rw (r.going-end) (Completes-ret _ (rw (e, e₁, e₂) (l₃, refl)))
                        ])
                ])
        ])

module _ ⦃u : Unicode⦄ where
  -- With a saga helper that does what is documented of it, a worker that forwards the durable calls to
  -- the fixture service, and a key that is not empty and that %q writes as JSON: HandleSagaTransfer
  -- returns, from every state of the service. The service's log of the key has then grown by exactly
  -- the operations up to the one that is to fail, with the compensations of the completed ones behind
  -- it, the latest first, whichever compensation is to fail; and the result is an error exactly if
  -- failAt is one of Withdraw, Deposit and Notify.
  pub transfer_logged :
      (py : Python) (reads : ReadsJson py) (h : Host) (to : Forwarding py h) (r : SagaRunner)
      (key fail_at fail_compensation_at : String) (s : h.State)
      → json_safe key ≡ true
      → key ≢ ""
      → (result : Result String) × ((run h
            (handle_saga_transfer r.run_saga key fail_at fail_compensation_at)
            s).outcome
          ≡ returned result)
        × ((to.tables
                (run h
                  (handle_saga_transfer r.run_saga key fail_at fail_compensation_at)
                  s).final).log
              (named (codes key))
            ≡ L.◌++◌ ((to.tables s).log (named (codes key))) (bank_log fail_at))
        × (is_ok result ≡ not (contains ("Withdraw" ∷ "Deposit" ∷ "Notify" ∷ []) fail_at))
  unfolding Logged
  transfer_logged py reads h to r key fail_at fail_compensation_at s safe some_key =
      let c = transfer-Logged py reads h to r key fail_at fail_compensation_at safe some_key s in
      (c.result, c.returns, c.leaves.0, c.leaves.1)
