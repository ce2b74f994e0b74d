-- ===== src/Tests/Forwarded.antt =====
-- A host that forwards durable calls to the fixture service, and runs against it.
use cleat_ports.Base.{suc, String, ◌++◌, false, [], ◌∷◌, none, ◌≡◌, ◌≢◌, refl, arith}
use cleat_ports.Base.Text.{contains}
use cleat_ports.Base.Int.{ℤ, pos, leb_ℤ}
use cleat_ports.Base.Json.{codes, read_object}
use cleat_ports.Base.Format.{latin_1}
use cleat_ports.Host.Calls.{
  Call, Answer, Error, new, wrap, Result, ok, err, durable_call, durable_call_with_options,
  workflow_id,
}
use cleat_ports.Host.Run.{Host, Reaction, resume, stop, returned, run}
use cleat_ports.Host.History.Requests.{call_errors}
use cleat_ports.Dbos.Calls.{
  handle_retry, handle_dead_letter, handle_dead_letter_opaque, succeeded_report, failed_report,
}
use cleat_ports.Samples.Saga.{handle_saga_transfer}
use cleat_ports.Samples.Saga.Order.{is_ok}
use cleat_ports.Service.{Python, Payload, Reply, sent, raised}
use cleat_ports.Service.State.{Tables, named, empty_tables}
use cleat_ports.Service.Threads.{serve_alone}
use cleat_ports.Service.Lookup.{ReadsJson}
use cleat_ports.Service.Forwarding.{
  Class, permanent, transient, unclassified, IsClassAnswer, IsAnswer, class_of, Forwarding, tries,
}
use cleat_ports.Service.Forwarding as F
use cleat_ports.Service.Bank.Transfer.{transfer_logged}
use cleat_ports.Service.Retrying.Attempts.{retry_exact, permanent_called_once}
use cleat_ports.Service.Retrying.DeadLetter.{dead_letters_fail}
use cleat_ports.Service.Serial.{one_by_one, serial_peak_one}
use cleat_ports.Service.Announcing.Chained.{Continuing, chain_finishes}
use cleat_ports.Host.Chain.{follow}
use cleat_ports.Dbos.Chain.{handle_continue_as_new, finished_report}
use cleat_ports.Tests.Bindings.{bind_arguments, binds_arguments}
use cleat_ports.Tests.Sagas.{runner}

abbrev pub python : Python
python = record {
  loads = read_object;
  int_of_text = λ t. none;
  can_wait = λ d. leb_ℤ d (pos 9223372036000);
}

pub python_reads : ReadsJson python
python_reads = record { reads = λ raw req e. e }

abbrev dumped : Payload → String
dumped p = "{}"

abbrev answer_as : Class → Payload → Result String
answer_as F.success p = ok (dumped p)
answer_as _ p = err (new "the service failed")

abbrev answer_of : Reply → Result String
answer_of (sent code p) = answer_as (class_of code) p
answer_of raised = err (new "no answer")

abbrev retried : ℤ → String → String → Tables → Reaction (Result String) Tables
retried (pos (suc more)) path raw t =
    resume (answer_of (tries python more path raw t).0) (tries python more path raw t).1
retried _ path raw t = stop t

abbrev react : Tables → (c : Call) → Reaction (Answer c) Tables
react t (durable_call service op raw) =
    resume (answer_of (serve_alone python (service ++ "/" ++ op) raw t).0)
      (serve_alone python (service ++ "/" ++ op) raw t).1
react t (durable_call_with_options policy service op raw) =
    retried policy.max_attempts (service ++ "/" ++ op) raw t
react t workflow_id = resume "workflow" t
react t _ = stop t

abbrev pub forwarder : Host
forwarder = record { State = Tables; react = react }

answers_as : (c : Class) (p : Payload) → IsClassAnswer dumped c p (answer_as c p)
answers_as F.success p = refl
answers_as permanent p = (_, refl)
answers_as transient p = (_, refl)
answers_as unclassified p = tt

answers : (r : Reply) → IsAnswer dumped r (answer_of r)
answers (sent code p) = answers_as (class_of code) p
answers raised = tt

forwarding : Forwarding python forwarder
forwarding = record {
  tables = λ t. t;
  dumps = dumped;
  forwards = λ t service op raw decided.
      (_, _, refl, refl, answers (serve_alone python (service ++ "/" ++ op) raw t).0);
  retries = λ t policy more service op raw most classified.
      (_, _, rw (most) refl, refl, answers (tries python more (service ++ "/" ++ op) raw t).0);
}

abbrev k : String
k = "k"

some_key : k ≢ ""
some_key e = cc

transfer_logged_example :
    (result : Result String) × ((run forwarder
        (handle_saga_transfer runner.run_saga "k" "Deposit" "WithdrawCompensation")
        empty_tables).outcome
      ≡ returned result)
    × ((run forwarder
            (handle_saga_transfer runner.run_saga "k" "Deposit" "WithdrawCompensation")
            empty_tables).final.log
          (named (codes "k"))
        ≡ "banking.Withdraw" ∷ "banking.Deposit" ∷ "banking.WithdrawCompensation" ∷ [])
    × (is_ok result ≡ false)
unfolding forwarding contains
transfer_logged_example =
    transfer_logged python python_reads forwarder forwarding runner "k" "Deposit"
      "WithdrawCompensation" empty_tables refl some_key

-- Three attempts of a call that fails twice.
retry_exact_example :
    ((e : Error) × ((run forwarder
          (handle_retry "flaky" "k" (pos 3) (pos 10) (pos 2) (pos 429))
          empty_tables).outcome
        ≡ returned (ok (succeeded_report "{}"))))
    × ((run forwarder
            (handle_retry "flaky" "k" (pos 3) (pos 10) (pos 2) (pos 429))
            empty_tables).final.counts
          (named (codes "k"))
        ≡ 3)
unfolding forwarding
retry_exact_example =
    retry_exact python python_reads forwarder forwarding "flaky" "k" (pos 10) (pos 2) (pos 429) 2
      empty_tables refl some_key refl

permanent_called_once_example :
    ((e : Error) × ((run forwarder
          (handle_retry "flaky" "k" (pos 5) (pos 10) (pos 2) (pos 404))
          empty_tables).outcome
        ≡ returned (ok (failed_report e))))
    × ((run forwarder
            (handle_retry "flaky" "k" (pos 5) (pos 10) (pos 2) (pos 404))
            empty_tables).final.counts
          (named (codes "k"))
        ≡ 1)
unfolding forwarding
permanent_called_once_example =
    permanent_called_once python python_reads forwarder forwarding "flaky" "k" (pos 10) (pos 2)
      (pos 404) 4 empty_tables refl some_key refl (omega arith)

dead_letters_fail_example :
    ((e : Error) × ((run forwarder
          (handle_dead_letter "flaky" "k" (pos 4) (pos 10))
          empty_tables).outcome
        ≡ returned (err (wrap "the call never succeeded: " e)))
      × (call_errors
            (run forwarder (handle_dead_letter "flaky" "k" (pos 4) (pos 10)) empty_tables).trace
          ≡ e ∷ []))
    × ((run forwarder (handle_dead_letter_opaque "flaky" "k" (pos 4) (pos 10)) empty_tables).outcome
        ≡ returned (err (new "could not reach the billing provider")))
    × ((run forwarder (handle_dead_letter "flaky" "k" (pos 4) (pos 10)) empty_tables).final.counts
          (named (codes "k"))
        ≡ 4)
    × ((run forwarder
            (handle_dead_letter_opaque "flaky" "k" (pos 4) (pos 10))
            empty_tables).final.counts
          (named (codes "k"))
        ≡ 4)
unfolding forwarding
dead_letters_fail_example =
    dead_letters_fail python python_reads forwarder forwarding "flaky" "k" (pos 10) 3 empty_tables
      refl some_key (omega arith)

serial_peak_one_example :
    ((one_by_one forwarder "k" (pos 50) 3 empty_tables).peak (named (codes "k")) ≡ 1)
    × ((one_by_one forwarder "k" (pos 50) 3 empty_tables).inflight (named (codes "k")) ≡ 0)
    × ((one_by_one forwarder "k" (pos 50) 3 empty_tables).counts (named (codes "k")) ≡ 3)
unfolding forwarding
serial_peak_one_example =
    serial_peak_one python python_reads forwarder forwarding "k" (pos 50) 3 empty_tables refl
      some_key refl refl (omega arith) refl (omega arith)

continuing : Continuing python forwarder forwarding
unfolding forwarding
continuing = record {
  ends_run = λ t input. (t, refl, refl);
  names_run = λ t. ("workflow", t, refl, refl);
}

chain_finishes_example :
    ((id : String) × ((follow forwarder handle_continue_as_new
          (bind_arguments "remaining")
          3
          "k"
          (pos 3)
          empty_tables).outcome
        ≡ returned (ok (finished_report id))))
    × ((follow forwarder handle_continue_as_new
            (bind_arguments "remaining")
            3
            "k"
            (pos 3)
            empty_tables).final.counts
          (named (codes "k"))
        ≡ 3)
unfolding forwarding
chain_finishes_example =
    chain_finishes python python_reads forwarder forwarding continuing (bind_arguments "remaining")
      (binds_arguments "remaining" refl) "k" (pos 3) empty_tables refl some_key (omega arith)
