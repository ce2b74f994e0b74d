-- ===== src/Samples/Nondeterminism/HelperEscape/Calling.antt =====
-- Each step of the helper's caller keeps what holds and comes nearer to the end.
use package.text.Mathlib.TextLemmas.{nil-append}
use cleat_ports.Base.{
  ℕ, suc, ◌+◌, ◌<◌, String, ◌++◌, Bool-cases, inl, inr, true, List, [], ◌∷◌, append, ◌≡◌, refl, sym,
  ap, ◌∙◌, arith, ltb, length-append,
}
use cleat_ports.Samples.Nondeterminism.Sync.{
  Channel, Fine, close-Fine, receive, receive-drained, receive-received,
}
use cleat_ports.Samples.Nondeterminism.HelperEscape.{
  locking, Caller, testing, adding, launching, waiting, closing, ranging, returned, State,
  caller_step, ranged,
}
use cleat_ports.Samples.Nondeterminism.HelperEscape.Counts.{
  total, holds, sent, running, left, total-append, total_sent-le, all_sent,
}
use cleat_ports.Samples.Nondeterminism.HelperEscape.Invariant.{
  Bounded, Inv, Next, caller_rank, launched, pending, Buffered, Quiet,
}

module _ (key : String) (s : State) (inv : Inv key s) where
  -- A step of the caller that leaves the goroutines alone.
  caller_moves :
      (c : Caller) (ch : Channel) (wg' : ℕ)
      → launched c ≡ launched s.caller
      → wg' ≡ total running s.workers + pending c
      → Bounded c
      → Quiet c (total running s.workers)
      → Buffered key c ch (total sent s.workers)
      → caller_rank c ch < caller_rank s.caller s.results
      → Next key s (record s { caller = c; results = ch; wg = wg' })
  caller_moves c ch wg' as_many count b q kept nearer = (
    record {
      own = inv.own;
      holders = inv.holders;
      started = inv.started ∙ sym as_many;
      counted = count;
      bounded = b;
      quiet = q;
      buffered = kept;
    },
    omega (arith, nearer),
  )

  launching-Fine :
      (i : ℕ) → s.caller ≡ launching i → Fine (Next key s) (caller_step s (launching i))
  launching-Fine i at =
      let (live, holds_two, texts) = (rw (at) at inv.buffered) in
      (
        record {
          own = inv.own;
          holders = omega (arith, inv.holders, total-append holds s.workers locking);
          started = length-append s.workers locking ∙ ap suc (rw (at) at inv.started);
          counted = omega (arith, rw (at) at inv.counted, total-append running s.workers locking);
          bounded = rw (at) at inv.bounded;
          quiet = tt;
          buffered = (live, holds_two, rw (none_sent) texts);
        },
        rw (at) (omega (arith, total-append left s.workers locking, rw (at) at inv.bounded)),
      )
    where
      none_sent : total sent (append s.workers locking) ≡ total sent s.workers
      none_sent = omega (arith, total-append sent s.workers locking)

  two_sent : s.caller ≡ closing → total sent s.workers ≡ 2
  two_sent at = omega (
    arith,
    rw (at) at inv.quiet,
    rw (at) at inv.started,
    all_sent s.workers,
    total_sent-le s.workers,
  )

  ranging-Fine :
      (out : String)
      → s.caller ≡ ranging out
      → (texts : List String) → s.results.buffer ≡ texts
      → Fine (Next key s) (ranged s out (receive s.results))
  ranging-Fine out at [] e =
      let (over, spelled) = (rw (at) at inv.buffered) in
      rw (receive-drained s.results e over) (
        caller_moves (returned out) s.results s.wg (ap launched (sym at)) (rw (at) at inv.counted)
          tt (rw (at) at inv.quiet) (rw (e) at spelled) (rw (at) (omega arith)))
  ranging-Fine out at (r ∷ rest) e =
      let (over, spelled) = (rw (at) at inv.buffered) in
      rw (receive-received s.results r rest e) (
        caller_moves (ranging (out ++ r)) (record s.results { buffer = rest }) s.wg
          (ap launched (sym at)) (rw (at) at inv.counted) tt (rw (at) at inv.quiet)
          (over, rw (e) at spelled) (rw (at, e) (omega arith)))

  pub caller-Fine : (c : Caller) → s.caller ≡ c → Fine (Next key s) (caller_step s c)
  caller-Fine (testing i) at =
      let bounded = (rw (at) at inv.bounded) in
      let counted = (rw (at) at inv.counted) in
      let open' = (rw (at) at inv.buffered) in
      elim (Bool-cases (ltb i 2)) [
        | inl e ↦ rw (e) (
            caller_moves (adding i) s.results s.wg (ap launched (sym at)) counted (ground arith) tt
              open' (rw (at) (omega arith)))
        | inr e ↦ rw (e) (
            caller_moves waiting s.results s.wg (rw (at) (ground arith)) counted tt tt open'
              (rw (at) (omega arith)))
      ]
  caller-Fine (adding i) at =
      caller_moves (launching i) s.results (suc s.wg) (ap launched (sym at))
        (omega (arith, rw (at) at inv.counted)) (rw (at) at inv.bounded) tt
        (rw (at) at inv.buffered) (rw (at) (omega arith))
  caller-Fine (launching i) at = launching-Fine i at
  caller-Fine waiting at =
      let counted = (rw (at) at inv.counted) in
      elim (Bool-cases (ltb 0 s.wg)) [
        | inl e ↦ rw (e) tt
        | inr e ↦ rw (e) (
            caller_moves closing s.results s.wg (ap launched (sym at)) counted tt (ground arith)
              (rw (at) at inv.buffered) (rw (at) (omega arith)))
      ]
  caller-Fine closing at =
      let (live, holds_two, texts) = (rw (at) at inv.buffered) in
      let full : s.results.buffer ≡ key ∷ key ∷ [] = texts ∙ rw (two_sent at) refl in
      close-Fine (Next key s) s.results _ live (
        caller_moves (ranging "") (record s.results { closed = true }) s.wg (ap launched (sym at))
          (rw (at) at inv.counted) tt (rw (at) at inv.quiet) (refl, rw (full, nil-append key) refl)
          (rw (at, full) (omega arith)))
  caller-Fine (ranging out) at = ranging-Fine out at s.results.buffer refl
  caller-Fine (returned out) at = tt
