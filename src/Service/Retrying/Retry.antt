-- ===== src/Service/Retrying/Retry.antt =====
-- ports/dbos-transact-py/workflows/retry/main.go against scripts/fixture-service.py.
use cleat_ports.Base.{
  ℕ, suc, ◌+◌, ◌≤◌, ◌<◌, String, ◌++◌, true, [], ◌∷◌, some, ◌≡◌, ◌≢◌, refl, Bool-cases, inl, inr,
  arith, ap, ◌∙◌,
}
use cleat_ports.Base.Int.{ℤ, pos, is_zero, pos_part}
use cleat_ports.Base.Json.{codes, text, number, read_object}
use cleat_ports.Base.Format.{Unicode}
use cleat_ports.Base.Format.Escapes.{json_safe}
use cleat_ports.Base.Format.Json.{quote-read, json}
use cleat_ports.Host.Calls.{Error, Result, ok}
use cleat_ports.Host.Program.{check}
use cleat_ports.Host.Run.{Host}
use cleat_ports.Host.Completion.{Completes, Completes-ret}
use cleat_ports.Dbos.Calls.{
  handle_retry, retry_request, constant_policy, failed_report, succeeded_report,
}
use cleat_ports.Service.{Python, success, int_or, operation_of}
use cleat_ports.Service.State.{named, Tables}
use cleat_ports.Service.Threads.HighWater.{larger}
use cleat_ports.Service.Lookup.{ReadsJson}
use cleat_ports.Service.Forwarding.{Forwarding, Completes-retried, class_of, transient, permanent}
use cleat_ports.Service.Retrying.{
  FailsFirst, request-FailsFirst, status_of, tries-success, tries-failure, tries-permanent,
}

module _ ⦃u : Unicode⦄ where
  retry_request-read :
      (key : String) (fail_times fail_status : ℤ)
      → json_safe key ≡ true
      → read_object (retry_request key fail_times fail_status)
        ≡ some (
            (codes "key", text (codes key))
            ∷ (codes "fail_times", number fail_times)
            ∷ (codes "fail_status", number fail_status)
            ∷ [])
  unfolding retry_request read_object
  retry_request-read key fail_times fail_status e = simp (json, quote-read, e)

  int_or-status :
      (py : Python) (key : String) (f n : ℤ)
      → int_or py "fail_status" (pos 503) (
          (codes "key", text (codes key))
          ∷ (codes "fail_times", number f)
          ∷ (codes "fail_status", number n)
          ∷ [])
        ≡ some (status_of n)
  int_or-status py key f n = elim (Bool-cases (is_zero n)) [
    | inl z ↦ rw (z) refl
    | inr z ↦ rw (z) refl
  ]

  retry_request-FailsFirst :
      (py : Python) (reads : ReadsJson py) (path key : String) (f status : ℤ)
      → json_safe key ≡ true
      → key ≢ ""
      → FailsFirst py path (retry_request key f status) key (pos_part f) (status_of status)
  retry_request-FailsFirst py reads path key f status safe some_key =
      request-FailsFirst py reads path (retry_request key f status) key _ f (status_of status)
        (retry_request-read key f status safe) some_key refl refl refl
        (int_or-status py key f status) refl

-- The result of a retry, by whether a call succeeded, and the count of the key's calls.
module _ ⦃u : Unicode⦄ (py : Python) (reads : ReadsJson py) (h : Host) (to : Forwarding py h)
    (service key : String) (interval_ms fail_times fail_status : ℤ) (more : ℕ) (s : h.State)
    (safe : json_safe key ≡ true) (some_key : key ≢ "") where
  abbrev path : String
  path = service ++ "/" ++ "op"

  abbrev raw : String
  raw = retry_request key fail_times fail_status

  abbrev counts : Tables → ℕ
  counts t = t.counts (named (codes key))

  abbrev calls_of : h.State → ℕ
  calls_of s' = counts (to.tables s')

  abbrev first : FailsFirst py path raw key (pos_part fail_times) (status_of fail_status)
  first = retry_request-FailsFirst py reads path key fail_times fail_status safe some_key

  pub retry-success :
      class_of (status_of fail_status) ≡ transient
      → pos_part fail_times < calls_of s + suc more
      → Completes h
          (λ result s'.
            (result
              ≡ ok (
                  succeeded_report (
                    to.dumps (
                      success
                        (text (codes key))
                        (suc (larger (calls_of s) (pos_part fail_times)))
                        (operation_of path)))))
            × (calls_of s' ≡ suc (larger (calls_of s) (pos_part fail_times))))
          (handle_retry service key (pos (suc more)) interval_ms fail_times fail_status)
          s
  unfolding handle_retry constant_policy check
  retry-success retried enough =
      let (reply, count) =
        tries-success py path raw key (pos_part fail_times) (status_of fail_status) first more
          (to.tables s) retried enough in
      Completes-retried py h to (constant_policy (pos (suc more)) interval_ms) more service "op" raw
        (pos 200) _ _ s refl reply tt
        λ a s' is kept. rw (is) (Completes-ret _ (refl, ap counts kept ∙ count))

  -- A call that every attempt fails, and how many there are.
  abbrev pub Fails : ℕ → Result String → h.State → Type 0
  Fails attempts result s' =
      ((e : Error) × (result ≡ ok (failed_report e))) × (calls_of s' ≡ calls_of s + attempts)

  pub retry-failure :
      class_of (status_of fail_status) ≡ transient
      → calls_of s + suc more ≤ pos_part fail_times
      → Completes h
          (Fails (suc more))
          (handle_retry service key (pos (suc more)) interval_ms fail_times fail_status)
          s
  unfolding handle_retry constant_policy check
  retry-failure retried few =
      let (p, reply, count) =
        tries-failure py path raw key (pos_part fail_times) (status_of fail_status) first more
          (to.tables s) retried few in
      Completes-retried py h to (constant_policy (pos (suc more)) interval_ms) more service "op" raw
        (status_of fail_status) p _ s refl reply (rw (retried) tt)
        λ a s' is kept.
          let (e, failed) = (rw (retried) at is) in
          rw (failed) (Completes-ret _ ((e, refl), ap counts kept ∙ count))

  pub retry-permanent :
      class_of (status_of fail_status) ≡ permanent
      → calls_of s < pos_part fail_times
      → Completes h
          (Fails 1)
          (handle_retry service key (pos (suc more)) interval_ms fail_times fail_status)
          s
  unfolding handle_retry constant_policy check
  retry-permanent stops few =
      let (p, reply, count) =
        tries-permanent py path raw key (pos_part fail_times) (status_of fail_status) first more
          (to.tables s) stops few in
      Completes-retried py h to (constant_policy (pos (suc more)) interval_ms) more service "op" raw
        (status_of fail_status) p _ s refl reply (rw (stops) tt)
        λ a s' is kept.
          let (e, failed) = (rw (stops) at is) in
          rw (failed) (Completes-ret _ ((e, refl), ap counts kept ∙ count ∙ omega arith))
