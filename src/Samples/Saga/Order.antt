-- ===== src/Samples/Saga/Order.antt =====
-- The order of the bank's operations in a transfer.
use cleat_ports.Base.{refl, String, Bool, true, false, List, [], ◌∷◌, ◌≡◌, if◌then◌else◌, arith}
use cleat_ports.Base.Text.{contains}
use cleat_ports.Base.Format.{Unicode}
use cleat_ports.Host.Calls.{Result, ok, err}
use cleat_ports.Host.Run.{Event, Host, run, returned}
use cleat_ports.Host.Logic.{Ensures, Ensures-ret, Ensures-call, Ensures-check, run-Ensures}
use cleat_ports.Host.History.{operations, failures}
use cleat_ports.Host.Recovery.{Execution, execution-Ensures}
use cleat_ports.Samples.Saga.{handle_saga_transfer}
use cleat_ports.Samples.Saga.Runner.{Ensures-attempt, SagaRunner}

-- The operations of a transfer, by which of its forward operations were answered with an error.
abbrev pub transfer_order : List String → List String
transfer_order failed =
    if contains failed "Withdraw"
    then "Withdraw" ∷ []
    else if contains failed "Deposit"
    then "Withdraw" ∷ "Deposit" ∷ "WithdrawCompensation" ∷ []
    else if contains failed "Notify"
    then "Withdraw" ∷ "Deposit" ∷ "Notify" ∷ "DepositCompensation" ∷ "WithdrawCompensation" ∷ []
    else "Withdraw" ∷ "Deposit" ∷ "Notify" ∷ []

abbrev pub none_failed : List String → Bool
none_failed [] = true
none_failed (op ∷ ops) = false

abbrev pub is_ok : Result String → Bool
is_ok (ok text) = true
is_ok (err e) = false

module _ ⦃u : Unicode⦄ (r : SagaRunner) (key fail_at fail_compensation_at : String) where
  handle-Order :
      (result : Result String)
      → Ensures
          (λ tr o.
            o ≡ returned result
            → (operations tr ≡ transfer_order (failures tr))
              × (is_ok result ≡ none_failed (failures tr)))
          (handle_saga_transfer r.run_saga key fail_at fail_compensation_at)
  unfolding handle_saga_transfer contains
  handle-Order result =
      rw (r.run_saga-start, r.going-step)
        (Ensures-call _ _ (λ x. cc)
          λ a.
            Ensures-attempt _ _ _ _
              (λ e f. rw (r.undoing-end) (
                Ensures-check _ _ _ (λ e' g. Ensures-ret _ λ x. (ground arith, ground arith))
                  λ b g. cc))
              λ a' fine. rw (r.going-step) (
                Ensures-call _ _ (λ x. cc)
                  λ b.
                    Ensures-attempt _ _ _ _
                      (λ e f. rw (r.undoing-step) (
                        Ensures-call _ _ (λ x. cc)
                          λ c. rw (r.undoing-end) (
                            Ensures-check _ _ _
                              (λ e' g. Ensures-ret _ λ x. (ground arith, ground arith))
                              λ b' g. cc)))
                      λ b' fine'. rw (r.going-step) (
                        Ensures-call _ _ (λ x. cc)
                          λ n.
                            Ensures-attempt _ _ _ _
                              (λ e f. rw (r.undoing-step) (
                                Ensures-call _ _ (λ x. cc)
                                  λ c. rw (r.undoing-step) (
                                    Ensures-call _ _ (λ x. cc)
                                      λ d. rw (r.undoing-end) (
                                        Ensures-check _ _ _
                                          (λ e' g. Ensures-ret _ λ x. (ground arith, ground arith))
                                          λ d' g. cc))))
                              λ n' fine''. rw (r.going-end) (
                                Ensures-check _ _ _ (λ e' g. cc)
                                  λ d g. Ensures-ret _ λ x. (ground arith, ground arith)))))

module _ ⦃u : Unicode⦄ where
  -- With a saga helper that does what is documented of it, and whatever the host answers, a transfer that
  -- comes to its end has called the bank's operations in the order that the failures of the forward ones
  -- fix: the forward ones up to the first failure, then the compensations of the completed ones, the
  -- latest first, also when a compensation fails.
  pub transfer_in_order :
      (r : SagaRunner) (h : Host) (s : h.State) (key fail_at fail_compensation_at : String)
      (result : Result String)
      → (run h (handle_saga_transfer r.run_saga key fail_at fail_compensation_at) s).outcome
        ≡ returned result
      → operations
          (run h (handle_saga_transfer r.run_saga key fail_at fail_compensation_at) s).trace
        ≡ transfer_order (
            failures
              (run h (handle_saga_transfer r.run_saga key fail_at fail_compensation_at) s).trace)
  transfer_in_order r h s key fail_at fail_compensation_at result e =
      (run-Ensures h s (handle-Order r key fail_at fail_compensation_at result) e).0

  -- With a saga helper that does what is documented of it, and whatever the host answers, a transfer that
  -- comes to its end returns a result if none of its calls was answered with an error, and an error if
  -- one was.
  pub transfers_if_none_failed :
      (r : SagaRunner) (h : Host) (s : h.State) (key fail_at fail_compensation_at : String)
      (result : Result String)
      → (run h (handle_saga_transfer r.run_saga key fail_at fail_compensation_at) s).outcome
        ≡ returned result
      → is_ok result
        ≡ none_failed (
            failures
              (run h (handle_saga_transfer r.run_saga key fail_at fail_compensation_at) s).trace)
  transfers_if_none_failed r h s key fail_at fail_compensation_at result e =
      (run-Ensures h s (handle-Order r key fail_at fail_compensation_at result) e).1

  -- With a saga helper that does what is documented of it, and through any number of crashes and
  -- takeovers, each on any host: the record of a transfer that comes to its end has the bank's
  -- operations in the order that the failures of the forward ones fix, none of them twice, and the
  -- result is an error exactly if one of them failed.
  pub transfer_survives_crashes :
      (r : SagaRunner) (key fail_at fail_compensation_at : String) (tr : List Event)
      (result : Result String)
      → Execution
          (handle_saga_transfer r.run_saga key fail_at fail_compensation_at)
          tr
          (returned result)
      → (operations tr ≡ transfer_order (failures tr)) × (is_ok result ≡ none_failed (failures tr))
  transfer_survives_crashes r key fail_at fail_compensation_at tr result ex =
      execution-Ensures _ _ tr (returned result)
        (handle-Order r key fail_at fail_compensation_at result) ex refl
