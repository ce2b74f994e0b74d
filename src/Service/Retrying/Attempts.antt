-- ===== src/Service/Retrying/Attempts.antt =====
-- How often HandleRetry calls the service, and what it reports.
use cleat_ports.Base.{
  ℕ, suc, ◌+◌, ◌<◌, ltb, String, ◌++◌, Bool, true, ◌≡◌, ◌≢◌, if◌then◌else◌, Bool-cases, inl, inr,
  arith, ap, ◌∙◌,
}
use cleat_ports.Base.Int.{ℤ, pos, pos_part}
use cleat_ports.Base.Json.{codes, text}
use cleat_ports.Base.Format.{Unicode}
use cleat_ports.Base.Format.Escapes.{json_safe}
use cleat_ports.Host.Calls.{Error, new, Result, ok}
use cleat_ports.Host.Run.{Host, Run, returned, run}
use cleat_ports.Dbos.Calls.{handle_retry, failed_report, succeeded_report}
use cleat_ports.Service.{Python, success, operation_of}
use cleat_ports.Service.State.{named}
use cleat_ports.Service.Threads.HighWater.{larger}
use cleat_ports.Service.Lookup.{ReadsJson}
use cleat_ports.Service.Forwarding.{Forwarding, class_of, transient, permanent}
use cleat_ports.Service.Retrying.{status_of}
use cleat_ports.Service.Retrying.Retry.{retry-success, retry-failure, retry-permanent}

module _ ⦃u : Unicode⦄ (py : Python) (reads : ReadsJson py) (h : Host) (to : Forwarding py h)
    (service key : String) (interval_ms fail_times fail_status : ℤ) (more : ℕ) (s : h.State) where
  -- The calls of the key before the run, and the run.
  abbrev before : ℕ
  before = (to.tables s).counts (named (codes key))

  abbrev the_run : Run h.State (Result String)
  the_run = run h (handle_retry service key (pos (suc more)) interval_ms fail_times fail_status) s

  abbrev enough : Bool
  enough = ltb (pos_part fail_times) (before + suc more)

  -- With a worker that forwards the call to the fixture service and retries as documented, a key that
  -- is not empty and that %q writes as JSON, and a status that is transient (408, 429 or 5xx; 503 for
  -- 0): HandleRetry with a positive number of attempts returns from every state of the service. If the
  -- key's calls before the run and the attempts come to more than failTimes, then the service has been
  -- called until the first success and not again, and the report has the service's answer with that
  -- count; if not, the service has been called exactly as often as there are attempts, and the report
  -- says that the call failed.
  pub retry_exact :
      json_safe key ≡ true
      → key ≢ ""
      → class_of (status_of fail_status) ≡ transient
      → ((e : Error) × (the_run.outcome
            ≡ returned (
                ok (
                  if enough
                  then succeeded_report (
                      to.dumps (
                        success
                          (text (codes key))
                          (suc (larger before (pos_part fail_times)))
                          (operation_of (service ++ "/" ++ "op"))))
                  else failed_report e))))
        × ((to.tables the_run.final).counts (named (codes key))
            ≡ (if enough then suc (larger before (pos_part fail_times)) else before + suc more))
  retry_exact safe some_key retried = elim (Bool-cases enough) [
    | inl e ↦
        let c =
          retry-success py reads h to service key interval_ms fail_times fail_status more s safe
            some_key retried (ground arith) in
        rw (e) ((new "", c.returns ∙ ap (λ r. returned r) c.leaves.0), c.leaves.1)
    | inr e ↦
        let c =
          retry-failure py reads h to service key interval_ms fail_times fail_status more s safe
            some_key retried (ground arith) in
        let ((failure, report), count) = c.leaves in
        rw (e) ((failure, c.returns ∙ ap (λ r. returned r) report), count)
  ]

  -- With the same worker and such a key, and a status that is permanent (4xx other than 408 and 429):
  -- when the key has been called less than failTimes times before the run, HandleRetry calls the
  -- service exactly once, however many attempts it has, and reports that the call failed.
  pub permanent_called_once :
      json_safe key ≡ true
      → key ≢ ""
      → class_of (status_of fail_status) ≡ permanent
      → before < pos_part fail_times
      → ((e : Error) × (the_run.outcome ≡ returned (ok (failed_report e))))
        × ((to.tables the_run.final).counts (named (codes key)) ≡ suc before)
  permanent_called_once safe some_key stops few =
      let c =
        retry-permanent py reads h to service key interval_ms fail_times fail_status more s safe
          some_key stops few in
      let ((failure, report), count) = c.leaves in
      ((failure, c.returns ∙ ap (λ r. returned r) report), count ∙ omega arith)
