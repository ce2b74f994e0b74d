-- ===== src/Samples/Nondeterminism/HelperEscape/Progress.antt =====
-- No state of the helper is stuck: until the caller is back, some goroutine or the caller has a step.
use cleat_ports.Base.{
  ℕ, zero, suc, ◌≤◌, ◌<◌, String, ◌++◌, Bool, Bool-cases, inl, inr, true, false, List, [], ◌∷◌,
  length, ◌≡◌, ◌≢◌, ◌⊎◌, refl, ap, ◌∙◌, arith, ltb,
}
use cleat_ports.Samples.Nondeterminism.Sync.{
  Channel, Move, moved, blocked, crashed, move, Fine, close, send, lock, unlock, wait_done, receive,
  receive-drained, receive-received,
}
use cleat_ports.Samples.Nondeterminism.Schedule.{CanMove}
use cleat_ports.Samples.Nondeterminism.HelperEscape.{
  Worker, locking, sending, unlocking, finishing, ended, place, Caller, testing, adding, launching,
  waiting, closing, ranging, returned, State, worker_step, caller_step, ranged, the_caller, worker,
  act,
}
use cleat_ports.Samples.Nondeterminism.HelperEscape.Counts.{total, holds, running, total_positive}
use cleat_ports.Samples.Nondeterminism.HelperEscape.Invariant.{Inv, Next, bit}
use cleat_ports.Samples.Nondeterminism.HelperEscape.Moves.{worker-Fine, sending_fits}
use cleat_ports.Samples.Nondeterminism.HelperEscape.Calling.{caller-Fine}

-- A step that neither blocks nor ends the program is taken.
unblocked :
    {A : Type 0} (P : A → Type 0) (m : Move A) → Fine P m → m ≢ blocked → (a : A) × (m ≡ moved a)
unblocked P (moved a) p free = (a, refl)
unblocked P blocked p free = absurd (free refl)
unblocked P (crashed text) p free = absurd p

holds-running : (w : Worker) → holds w ≤ running w
holds-running w = ground arith

module _ {A : Type 0} where
  close-moves : (ch : Channel) (f : Channel → A) → move f (close ch) ≢ blocked
  unfolding close
  close-moves ch f x = elim (Bool-cases ch.closed) [
    | inl e ↦ let x' = (rw (e) at x) in cc
    | inr e ↦ let x' = (rw (e) at x) in cc
  ]

  lock-moves : (b : Bool) (f : Bool → A) → b ≡ false → move f (lock b) ≢ blocked
  unfolding lock
  lock-moves b f e x = let x' = (rw (e) at x) in cc

  unlock-moves : (b : Bool) (f : Bool → A) → move f (unlock b) ≢ blocked
  unfolding unlock
  unlock-moves true f x = cc
  unlock-moves false f x = cc

  wait_done-moves : (n : ℕ) (f : ℕ → A) → move f (wait_done n) ≢ blocked
  unfolding wait_done
  wait_done-moves zero f x = cc
  wait_done-moves (suc n) f x = cc

  send-moves :
      (ch : Channel) (text : String) (f : Channel → A)
      → length ch.buffer < ch.capacity
      → move f (send ch text) ≢ blocked
  unfolding send
  send-moves ch text f fits x =
      let room : ltb (length ch.buffer) ch.capacity ≡ true = ground arith in
      elim (Bool-cases ch.closed) [
        | inl e ↦ let x' = (rw (e) at x) in cc
        | inr e ↦ let x' = (rw (e, room) at x) in cc
      ]

module _ (key : String) (s : State) (inv : Inv key s) where
  worker-moves :
      (i : ℕ) (w : Worker)
      → place i s.workers ≡ w
      → 0 < running w
      → (w ≡ locking → s.mu ≡ false)
      → worker_step s i w ≢ blocked
  worker-moves i locking at runs free = lock-moves s.mu _ (free refl)
  worker-moves i sending at runs free = send-moves s.results s.key _ (sending_fits key s inv i at)
  worker-moves i unlocking at runs free = unlock-moves s.mu _
  worker-moves i finishing at runs free = wait_done-moves s.wg _
  worker-moves i ended at runs free = absurd (omega arith)

  worker-CanMove :
      (i : ℕ)
      → 0 < running (place i s.workers)
      → (place i s.workers ≡ locking → s.mu ≡ false)
      → CanMove act s
  unfolding act
  worker-CanMove i runs free =
      let (s', e) =
        unblocked (Next key s) _ (worker-Fine key s inv i (place i s.workers) refl)
          (worker-moves i (place i s.workers) refl runs free) in
      (worker i, s', e)

  -- Where a goroutine is running, some goroutine can go on.
  some-CanMove : 0 < total running s.workers → CanMove act s
  some-CanMove some_run = elim (Bool-cases s.mu) [
    | inl locked ↦
        let (i, has) = total_positive holds s.workers (omega (arith, inv.holders, ap bit locked)) in
        worker-CanMove i (omega (arith, has, holds-running (place i s.workers)))
          λ at. absurd (omega (arith, has, ap holds at))
    | inr free ↦
        let (i, runs) = total_positive running s.workers some_run in
        worker-CanMove i runs λ at. free
  ]

  ranging-moves :
      (out : String) (texts : List String)
      → s.results.closed ≡ true
      → s.results.buffer ≡ texts
      → ranged s out (receive s.results) ≢ blocked
  ranging-moves out [] over e x = let x' = (rw (receive-drained s.results e over) at x) in cc
  ranging-moves out (r ∷ rest) over e x =
      let x' = (rw (receive-received s.results r rest e) at x) in cc

  caller-CanMove : (c : Caller) → s.caller ≡ c → caller_step s c ≢ blocked → CanMove act s
  unfolding act
  caller-CanMove c at free =
      let (s', e) = unblocked (Next key s) _ (caller-Fine key s inv c at) free in
      (the_caller, s', ap (caller_step s) at ∙ e)

  pub progress :
      (c : Caller)
      → s.caller ≡ c
      → (s.caller ≡ returned (key ++ key))
        ⊎ (((out : String) → s.caller ≢ returned out) × CanMove act s)
  progress (testing i) at = inr (λ out x. cc, caller-CanMove _ at λ x. cc)
  progress (adding i) at = inr (λ out x. cc, caller-CanMove _ at λ x. cc)
  progress (launching i) at = inr (λ out x. cc, caller-CanMove _ at λ x. cc)
  progress waiting at = elim (Bool-cases (ltb 0 s.wg)) [
    | inl e ↦ inr (
      λ out x. cc,
      some-CanMove (let counted = (rw (at) at inv.counted) in ground (arith, counted)),
    )
    | inr e ↦ inr (λ out x. cc, caller-CanMove _ at λ x. let x' = (rw (e) at x) in cc)
  ]
  progress closing at = inr (λ out x. cc, caller-CanMove _ at (close-moves s.results _))
  progress (ranging out) at = inr (
    λ out x. cc,
    caller-CanMove _ at (ranging-moves out s.results.buffer (rw (at) at inv.buffered).0 refl),
  )
  progress (returned out) at = inl (at ∙ ap returned (rw (at) at inv.buffered))
