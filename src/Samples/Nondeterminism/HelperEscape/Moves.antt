-- ===== src/Samples/Nondeterminism/HelperEscape/Moves.antt =====
-- Each step of the helper, of a goroutine or of the caller, keeps what holds and comes nearer to the end.
use cleat_ports.Base.{
  ℕ, zero, suc, ◌-◌, ◌≤◌, ◌<◌, String, Bool, true, false, ◌∷◌, append, length, replicate, ◌≡◌, refl,
  ap, ◌∙◌, arith,
}
use cleat_ports.Samples.Nondeterminism.Sync.{
  Fine, lock-Fine, unlock-Fine, wait_done-Fine, send-Fine,
}
use cleat_ports.Samples.Nondeterminism.HelperEscape.{
  Worker, locking, sending, unlocking, finishing, ended, place, set_at, Caller, testing, adding,
  launching, State, worker_step,
}
use cleat_ports.Samples.Nondeterminism.HelperEscape.Counts.{
  total, holds, sent, running, length-set_at, total-place, total_sent-le,
}
use cleat_ports.Samples.Nondeterminism.HelperEscape.Invariant.{
  Bounded, Inv, Next, Open, bit, launched, opened, count-moved, worker_moves,
}

pub length-replicate : (n : ℕ) (key : String) → length (replicate n key) ≡ n
length-replicate zero key = refl
length-replicate (suc n) key = ap suc (length-replicate n key)

append-replicate : (n : ℕ) (key : String) → append (replicate n key) key ≡ replicate (suc n) key
unfolding append
append-replicate zero key = refl
append-replicate (suc n) key = ap (λ ks. key ∷ ks) (append-replicate n key)

bit-true : (b : Bool) → 0 < bit b → b ≡ true
bit-true b h = ground arith

launched-le : (c : Caller) → Bounded c → launched c ≤ 2
launched-le (testing i) b = b
launched-le (adding i) b = omega arith
launched-le (launching i) b = omega arith
launched-le _ b = omega arith

module _ (key : String) (s : State) (inv : Inv key s) (i : ℕ) where
  length_workers-le : length s.workers ≤ 2
  length_workers-le = omega (arith, inv.started, launched-le s.caller inv.bounded)

  -- The channel when a step sends nothing.
  kept-Open :
      (w v : Worker)
      → place i s.workers ≡ w
      → running w ≡ 1
      → sent w ≡ sent v
      → Open key s.results (total sent (set_at i v s.workers))
  kept-Open w v at runs same_sent =
      let (live, holds_two, texts) = opened key s inv i w v at runs in
      let same_total : total sent (set_at i v s.workers) ≡ total sent s.workers =
        omega (arith, count-moved key s inv i w v at runs sent, same_sent) in
      (live, holds_two, rw (same_total) texts)

  -- The channel when a step sends the key.
  sent-Open :
      place i s.workers ≡ sending
      → Open key
          (record s.results { buffer = append s.results.buffer s.key })
          (total sent (set_at i unlocking s.workers))
  sent-Open at =
      let (live, holds_two, texts) = opened key s inv i sending unlocking at refl in
      let one_more : total sent (set_at i unlocking s.workers) ≡ suc (total sent s.workers) =
        omega (arith, count-moved key s inv i sending unlocking at refl sent) in
      (live, holds_two, rw (one_more, texts, inv.own) (append-replicate (total sent s.workers) key))

  -- While a goroutine has yet to send, the channel has room for its text.
  pub sending_fits : place i s.workers ≡ sending → length s.results.buffer < s.results.capacity
  sending_fits at =
      let (live, holds_two, texts) = opened key s inv i sending unlocking at refl in
      let full : length s.results.buffer ≡ total sent s.workers =
        ap length texts ∙ length-replicate _ key in
      omega (
        arith,
        full,
        holds_two,
        count-moved key s inv i sending unlocking at refl sent,
        total_sent-le (set_at i unlocking s.workers),
        length-set_at i unlocking s.workers,
        length_workers-le,
      )

  pub holder-locked :
      (w : Worker) → place i s.workers ≡ w → running w ≡ 1 → holds w ≡ 1 → s.mu ≡ true
  holder-locked w at runs has =
      bit-true s.mu
        (omega (arith, inv.holders, total-place holds i s.workers (rw (at) runs), ap holds at, has))

  pub worker-Fine : (w : Worker) → place i s.workers ≡ w → Fine (Next key s) (worker_step s i w)
  worker-Fine locking at = lock-Fine (Next key s) s.mu _ λ free.
      worker_moves key s inv i locking sending at refl true s.results s.wg
        (omega (arith, ap bit free)) (kept-Open locking sending at refl refl) refl (omega arith)
  worker-Fine sending at =
      send-Fine (Next key s) s.results s.key _ (opened key s inv i sending unlocking at refl).0
        (sending_fits at)
        (worker_moves key s inv i sending unlocking at refl s.mu _ s.wg refl (sent-Open at) refl
          (omega arith))
  worker-Fine unlocking at =
      let locked = holder-locked unlocking at refl refl in
      unlock-Fine (Next key s) s.mu _ locked (
        worker_moves key s inv i unlocking finishing at refl false s.results s.wg
          (omega (arith, ap bit locked)) (kept-Open unlocking finishing at refl refl) refl
          (omega arith))
  worker-Fine finishing at =
      let one_left : s.wg ≡ suc (s.wg - 1) =
        omega (arith, inv.counted, total-place running i s.workers (rw (at) refl), ap running at) in
      wait_done-Fine (Next key s) s.wg (s.wg - 1) _ one_left (
        worker_moves key s inv i finishing ended at refl s.mu s.results (s.wg - 1) refl
          (kept-Open finishing ended at refl refl) (omega (arith, one_left)) (omega arith))
  worker-Fine ended at = tt
