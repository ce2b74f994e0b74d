-- ===== src/Service/Retrying.antt =====
-- scripts/fixture-service.py behind a policy of retries: how often a call that is told to fail its first
-- times is made, and how it ends.
pub mod Retry
pub mod Attempts
pub mod DeadLetter
use cleat_ports.Base.{
  ℕ, zero, suc, ◌+◌, ◌≤◌, ◌<◌, ltb, leb, String, ◌++◌, Bool, true, false, not, List, [], ◌∷◌,
  Option, none, some, ◌≡◌, ◌≢◌, refl, if◌then◌else◌, Bool-cases, inl, inr, arith, ◌∙◌, sym, ap,
}
use cleat_ports.Base.Int.{ℤ, pos, negsuc, leb_ℤ, is_zero, pos_part}
use cleat_ports.Base.Json.{codes, Fields, Value, text, number, read_object}
use cleat_ports.Service.{Python, Payload, Reply, sent, success, int_or, answer_call, operation_of}
use cleat_ports.Service.State.{get, Tables, Key, named, recorded, same_key_refl}
use cleat_ports.Service.Lookup.{ReadsJson, serve_alone-key}
use cleat_ports.Service.Threads.{serve_alone}
use cleat_ports.Service.Threads.HighWater.{larger}
use cleat_ports.Service.Forwarding.{class_of, transient, permanent, tries}

-- `int(req.get("fail_status") or 503)` of a number
abbrev pub status_of : ℤ → ℤ
status_of fail_status = if is_zero fail_status then pos 503 else fail_status

larger_next : (c f : ℕ) → ltb c f ≡ true → larger (suc c) f ≡ larger c f
larger_next c f e = ground arith

module _ (py : Python) (path raw key : String) where
  abbrev pub account : Key
  account = named (codes key)

  -- The service fails the first `f` calls of the key with the status, and answers the others.
  pub record FailsFirst (f : ℕ) (code : ℤ) : Type 0 where
    pub failing :
        (t : Tables)
        → ltb (t.counts account) f ≡ true
        → (p : Payload) × (serve_alone py path raw t
            ≡ (sent code p, recorded account (operation_of path) t))
    pub working :
        (t : Tables)
        → ltb (t.counts account) f ≡ false
        → serve_alone py path raw t ≡ (
          sent (pos 200) (success (text (codes key)) (suc (t.counts account)) (operation_of path)),
          recorded account (operation_of path) t,
        )

  module _ (f : ℕ) (code : ℤ) (first : FailsFirst f code) where
    counted_once :
        (t : Tables)
        → (recorded account (operation_of path) t).counts account ≡ suc (t.counts account)
    counted_once t = rw (same_key_refl account) refl

    -- As many attempts as it takes.
    pub tries-success :
        (n : ℕ) (t : Tables)
        → class_of code ≡ transient
        → f < t.counts account + suc n
        → ((tries py n path raw t).0
            ≡ sent (pos 200) (
                success (text (codes key)) (suc (larger (t.counts account) f)) (operation_of path)))
          × ((tries py n path raw t).1.counts account ≡ suc (larger (t.counts account) f))
    unfolding tries
    tries-success zero t retried enough =
        let late : ltb (t.counts account) f ≡ false = ground arith in
        let most : larger (t.counts account) f ≡ t.counts account = ground arith in
        rw (first.working t late, most) (refl, counted_once t)
    tries-success (suc n) t retried enough = elim (Bool-cases (ltb (t.counts account) f)) [
      | inl e ↦
          let (p, served) = first.failing t e in
          let t' = recorded account (operation_of path) t in
          let once = counted_once t in
          let most : larger (t'.counts account) f ≡ larger (t.counts account) f =
            ap (λ c. larger c f) once ∙ larger_next _ f e in
          let (reply, count) = tries-success n t' retried (omega (arith, once)) in
          rw (served, retried) (rw (sym most) (reply, count))
      | inr e ↦
          let most : larger (t.counts account) f ≡ t.counts account = ground arith in
          rw (first.working t e, most) (refl, counted_once t)
    ]

    -- All the attempts of the policy.
    pub tries-failure :
        (n : ℕ) (t : Tables)
        → class_of code ≡ transient
        → t.counts account + suc n ≤ f
        → (p : Payload) × ((tries py n path raw t).0 ≡ sent code p)
          × ((tries py n path raw t).1.counts account ≡ t.counts account + suc n)
    unfolding tries
    tries-failure zero t retried few =
        let early : ltb (t.counts account) f ≡ true = ground arith in
        let (p, served) = first.failing t early in
        rw (served) (p, refl, counted_once t ∙ omega arith)
    tries-failure (suc n) t retried few =
        let early : ltb (t.counts account) f ≡ true = ground arith in
        let (p, served) = first.failing t early in
        let t' = recorded account (operation_of path) t in
        let once = counted_once t in
        let (q, reply, count) = tries-failure n t' retried (omega (arith, once)) in
        rw (served, retried) (q, reply, omega (arith, once, count))

    -- One attempt.
    pub tries-permanent :
        (n : ℕ) (t : Tables)
        → class_of code ≡ permanent
        → t.counts account < f
        → (p : Payload) × ((tries py n path raw t).0 ≡ sent code p)
          × ((tries py n path raw t).1.counts account ≡ suc (t.counts account))
    unfolding tries
    tries-permanent zero t stops few =
        let early : ltb (t.counts account) f ≡ true = ground arith in
        let (p, served) = first.failing t early in rw (served) (p, refl, counted_once t)
    tries-permanent (suc n) t stops few =
        let early : ltb (t.counts account) f ≡ true = ground arith in
        let (p, served) = first.failing t early in rw (served, stops) (p, refl, counted_once t)

some_left : (n : ℕ) → leb (suc n) 0 ≡ false
some_left n = ground arith

pub zero_or : (n : ℤ) → (if not (is_zero n) then some n else some (pos 0)) ≡ some n
zero_or (pos zero) = refl
zero_or (pos (suc n)) = rw (some_left n) refl
zero_or (negsuc n) = refl

-- A request that only says how often to fail, and with what status, is such a call.
module _ (py : Python) (reads : ReadsJson py) where
  attempts_left : (c : ℕ) (f : ℤ) → leb_ℤ (pos (suc c)) f ≡ ltb c (pos_part f)
  attempts_left c (pos n) = ground arith
  attempts_left c (negsuc n) = ground arith

  pub request-FailsFirst :
      (path raw key : String) (req : Fields) (f code : ℤ)
      → read_object raw ≡ some req
      → key ≢ ""
      → get (codes "key") req ≡ some (text (codes key))
      → get (codes "fail_times") req ≡ some (number f)
      → get (codes "fail_permanently") req ≡ none
      → int_or py "fail_status" (pos 503) req ≡ some code
      → get (codes "delay_ms") req ≡ none
      → FailsFirst py path raw key (pos_part f) code
  request-FailsFirst path raw key req f code read some_key at_key at_times at_permanent at_status
        at_delay =
      let times : int_or py "fail_times" (pos 0) req ≡ some f = rw (at_times) (zero_or f) in
      let served =
        λ (t : Tables). serve_alone-key py reads path raw key t req f read at_key some_key times in
      record {
        failing = λ t early.
            rw
              (
                served t,
                at_permanent,
                attempts_left (t.counts (named (codes key))) f,
                early,
                at_status,
              )
              (_, refl);
        working = λ t late.
            rw
              (
                served t,
                at_permanent,
                attempts_left (t.counts (named (codes key))) f,
                late,
                at_delay,
              )
              refl;
      }
