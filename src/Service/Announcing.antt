-- ===== src/Service/Announcing.antt =====
-- scripts/fixture-service.py behind the call that most workflows of ports/dbos-transact-py announce
-- themselves with, and the chain of ports/dbos-transact-py/workflows/continueasnew/main.go against it.
pub mod Chained
use cleat_ports.Base.{
  ℕ, suc, ltb, String, ◌++◌, true, false, [], ◌∷◌, some, ◌≡◌, ◌≢◌, refl, ap, ◌∙◌, arith,
}
use cleat_ports.Base.Int.{pos}
use cleat_ports.Base.Json.{codes, text, number, read_object}
use cleat_ports.Base.Format.{Unicode}
use cleat_ports.Base.Format.Escapes.{json_safe}
use cleat_ports.Base.Format.Json.{quote-read, json}
use cleat_ports.Host.Calls.{Result, ok, durable_call}
use cleat_ports.Host.Run.{Host, resume}
use cleat_ports.Dbos.Fixture.{flaky_request}
use cleat_ports.Service.{Python, sent, success, operation_of}
use cleat_ports.Service.State.{Tables, Key, named, recorded, same_key_refl}
use cleat_ports.Service.Threads.{serve_alone}
use cleat_ports.Service.Lookup.{ReadsJson}
use cleat_ports.Service.Forwarding.{Forwarding}
use cleat_ports.Service.Retrying.{FailsFirst, request-FailsFirst}

module _ ⦃u : Unicode⦄ where
  flaky_request-read :
      (key : String)
      → json_safe key ≡ true
      → read_object (flaky_request key)
        ≡ some ((codes "key", text (codes key)) ∷ (codes "fail_times", number (pos 0)) ∷ [])
  unfolding flaky_request read_object
  flaky_request-read key e = simp (json, quote-read, e)

never_early : (c : ℕ) → ltb c 0 ≡ false
never_early c = ground arith

module _ ⦃u : Unicode⦄ (py : Python) (reads : ReadsJson py) (h : Host) (to : Forwarding py h)
    (key : String) (safe : json_safe key ≡ true) (some_key : key ≢ "") where
  abbrev path : String
  path = "flaky" ++ "/" ++ "op"

  abbrev pub calls : h.State → ℕ
  calls s = (to.tables s).counts (named (codes key))

  flaky_served :
      (t : Tables)
      → serve_alone py path (flaky_request key) t ≡ (
        sent
            (pos 200)
            (success (text (codes key)) (suc (t.counts (named (codes key)))) (operation_of path)),
        recorded (named (codes key)) (operation_of path) t,
      )
  flaky_served t =
      (request-FailsFirst py reads path (flaky_request key) key _ (pos 0) (pos 503)
          (flaky_request-read key safe) some_key refl refl refl refl refl).working
        t (never_early _)

  -- The call comes back with a result, and is counted.
  pub announced :
      (s : h.State)
      → (result : String) × (s' : h.State) × (h.react s
            (durable_call "flaky" "op" (flaky_request key))
          ≡ resume (ok result) s')
        × (calls s' ≡ suc (calls s))
  announced s =
      let served = flaky_served (to.tables s) in
      let (a, s', answered, kept, is) =
        to.forwards s "flaky" "op" (flaky_request key) (rw (served) tt) in
      let is_ok = (rw (served) at is) in
      (
        _,
        s',
        answered ∙ ap (λ r. resume r s') is_ok,
        ap (λ t. t.counts (named (codes key))) (kept ∙ ap (λ r. r.1) served)
            ∙ rw (same_key_refl (named (codes key))) refl,
      )
